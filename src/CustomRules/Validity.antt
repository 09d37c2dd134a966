-- ===== src/CustomRules/Validity.antt =====
-- internal/customrules/store.go: what validation guarantees of the rules in the store.
use trust_proxy.Base.{
  String, Bool, true, false, Option, none, some, ◌≡◌, inl, inr, refl, arith, ◌==◌, not, ◌&&◌, ◌||◌,
  if◌then◌else◌, Result, ok, err, >>=-ok, Bool-cases, eq_iff,
}
use trust_proxy.Base.Text.{to_lower, contains_any, differs}
use trust_proxy.Policy.{CustomRule, normalize_custom_rule, grants_permit, route_egress}
use trust_proxy.Gateway.Allow.{match_key}
use trust_proxy.CustomRules.{
  Error, valid_egress, takes_node, drop_node, axis_error, is_domain_match, passed, lower_value,
  check_value, validate_policy, trimmed_policy,
}

-- What axis_error lets through.
pub record HasAxes (p : CustomRule) : Type 0 where
  pub known_match : (match_key p.match == "") ≡ false
  pub has_value : (p.value == "") ≡ false
  pub good_egress : valid_egress p.egress ≡ true
  -- The older field, which the route comes from where there is no egress.
  pub good_action : valid_egress p.action ≡ true
  pub some_axis : (grants_permit p || not (route_egress p == "")) ≡ true
  pub has_node : (route_egress p == "node" && p.node == "") ≡ false

past :
    (b : Bool) (e : Error) (o : Option Error)
    → (if b then some e else o) ≡ none
    → (b ≡ false) × (o ≡ none)
past true e o h = cc
past false e o h = (refl, h)

or_named : (a b : Bool) → (not a && not b) ≡ false → (a ≡ false) → b ≡ true
or_named a b h e = ground arith

egress_known :
    (eg : String) → (not (eg == "") && not (valid_egress eg)) ≡ false → valid_egress eg ≡ true
egress_known eg h = elim (Bool-cases (eg == "")) [
  | inl e ↦ rw ((eq_iff eg "").0 e)
  | inr e ↦ or_named (eg == "") (valid_egress eg) h e
]

action_known :
    (a : String)
    → (not (a == "") && not (valid_egress a) && not (a == "none")) ≡ false
    → valid_egress a ≡ true
action_known a h = ground arith

axis_known : (a b : Bool) → (not a && b) ≡ false → (a || not b) ≡ true
axis_known a b h = ground arith

axis_error-none : (r : CustomRule) → axis_error r ≡ none → HasAxes r
axis_error-none r h =
    let (known, h1) = past (match_key r.match == "") _ _ h in
    let (value, h2) = past (r.value == "") _ _ h1 in
    let (egress, h3) = past (not (r.egress == "") && not (valid_egress r.egress)) _ _ h2 in
    let (action, h4) =
      past (not (r.action == "") && not (valid_egress r.action) && not (r.action == "none")) _ _
        h3 in
    let (axis, h5) = past (not (grants_permit r) && route_egress r == "") _ _ h4 in
    let (node, h6) = past (route_egress r == "node" && r.node == "") _ _ h5 in
    record {
      known_match = known;
      has_value = value;
      good_egress = egress_known r.egress egress;
      good_action = action_known r.action action;
      some_axis = axis_known (grants_permit r) (route_egress r == "") axis;
      has_node = node;
    }

passed-ok :
    (r a : CustomRule) (e : Option Error) → passed r e ≡ ok a → (e ≡ none) × (a ≡ drop_node r)
passed-ok r a none h = (refl, cc)
passed-ok r a (some e) h = cc

to_lower-empty : (v : String) → (v == "") ≡ false → (to_lower v == "") ≡ false
unfolding to_lower
to_lower-empty String.[] h = cc
to_lower-empty (String.◌∷◌ c s) h = differs _ "" (λ e. cc)

-- What the switch on the match kind lets through.
abbrev pub value_ok : (String → Bool) → (String → Bool) → CustomRule → Bool
value_ok valid_cidr compiles p =
    if p.match == "ip_cidr"
    then valid_cidr p.value
    else if p.match == "regex"
    then compiles p.value
    else if is_domain_match p.match
    then not (contains_any p.value " \t")
    else true

-- A rule whose match kind, egress and action are known, with a value that its kind takes, an axis, a node exactly where
-- its egress takes one and must have one.
pub record IsValid (valid_cidr compiles : String → Bool) (p : CustomRule) : Type 0 where
  pub axes : HasAxes p
  pub no_stray_node : (takes_node (route_egress p) || p.node == "") ≡ true
  pub good_value : value_ok valid_cidr compiles p ≡ true

and_false : (b : Bool) → (b && false) ≡ false
and_false true = refl
and_false false = refl

no_node : (eg : String) → takes_node eg ≡ false → (eg == "node" && "" == "") ≡ false
no_node eg h = ground arith

drop_node-HasAxes : (r : CustomRule) → HasAxes r → HasAxes (drop_node r)
unfolding grants_permit route_egress
drop_node-HasAxes r h = elim (Bool-cases (takes_node (route_egress r))) [
  | inl e ↦ rw e h
  | inr e ↦ rw e (record {
    known_match = h.known_match;
    has_value = h.has_value;
    good_egress = h.good_egress;
    good_action = h.good_action;
    some_axis = h.some_axis;
    has_node = no_node (route_egress r) e;
  })
]

drop_node-tidy :
    (r : CustomRule) → (takes_node (route_egress (drop_node r)) || (drop_node r).node == "") ≡ true
unfolding route_egress
drop_node-tidy r = elim (Bool-cases (takes_node (route_egress r))) [
  | inl e ↦ rw (e, e)
  | inr e ↦ rw (e, e)
]

abbrev pub tidy : CustomRule → Bool
tidy p = takes_node (route_egress p) || p.node == ""

lower_value-HasAxes : (r : CustomRule) → HasAxes r → HasAxes (lower_value r)
unfolding grants_permit route_egress
lower_value-HasAxes r h = record {
  known_match = h.known_match;
  has_value = to_lower-empty r.value h.has_value;
  good_egress = h.good_egress;
  good_action = h.good_action;
  some_axis = h.some_axis;
  has_node = h.has_node;
}

lower_value-tidy : (r : CustomRule) → tidy r ≡ true → tidy (lower_value r) ≡ true
unfolding route_egress
lower_value-tidy r h = h

kept :
    (b : Bool) (a p : CustomRule) (e : Error)
    → (if b then ok a else err e) ≡ ok p
    → (b ≡ true) × (a ≡ p)
kept true a p e h = (refl, cc)
kept false a p e h = cc

accepted : (a p : CustomRule) → ◌≡◌ {A = Result Error CustomRule} (ok a) (ok p) → a ≡ p
accepted a p e = cc

refused_or :
    (b : Bool) (a p : CustomRule) (e : Error)
    → (if b then err e else ok a) ≡ ok p
    → (b ≡ false) × (a ≡ p)
refused_or true a p e h = cc
refused_or false a p e h = (refl, cc)

module _ (valid_cidr compiles : String → Bool) where
  check_value-IsValid :
      (a p : CustomRule)
      → check_value valid_cidr compiles a ≡ ok p
      → HasAxes a
      → tidy a ≡ true
      → IsValid valid_cidr compiles p
  check_value-IsValid a p h axes node = elim (Bool-cases (a.match == "ip_cidr")) [
    | inl ip ↦
        let (good, same) = kept (valid_cidr a.value) a p _ (rw ip at h) in
        rw (← same) (record { axes = axes; no_stray_node = node; good_value = rw (ip, good) })
    | inr no_ip ↦ elim (Bool-cases (a.match == "regex")) [
      | inl re ↦
          let (good, same) = kept (compiles a.value) a p _ (rw (no_ip, re) at h) in
          rw (← same)
            (record { axes = axes; no_stray_node = node; good_value = rw (no_ip, re, good) })
      | inr no_re ↦ elim (Bool-cases (is_domain_match a.match)) [
        | inl dom ↦
            let (good, same) =
              refused_or (contains_any (to_lower a.value) " \t") (lower_value a) p _
                (rw (no_ip, no_re, dom) at h) in
            rw (← same) (record {
              axes = lower_value-HasAxes a axes;
              no_stray_node = lower_value-tidy a node;
              good_value = rw (no_ip, no_re, dom, good);
            })
        | inr other ↦
            let same : a ≡ p = accepted a p (rw (no_ip, no_re, other) at h) in
            rw (← same)
              (record { axes = axes; no_stray_node = node; good_value = rw (no_ip, no_re, other) })
      ]
    ]
  ]

  -- Validation, whatever it is given, either refuses or gives a valid rule.
  pub validate_policy-IsValid :
      (given p : CustomRule)
      → validate_policy valid_cidr compiles given ≡ ok p
      → IsValid valid_cidr compiles p
  unfolding validate_policy
  validate_policy-IsValid given p h =
      let r = trimmed_policy (normalize_custom_rule given) in
      let (a, checked, let_through) =
        >>=-ok (check_value valid_cidr compiles) (passed r (axis_error r)) h in
      let (no_error, same) = passed-ok r a (axis_error r) let_through in
      check_value-IsValid a p checked (rw same (drop_node-HasAxes r (axis_error-none r no_error)))
        (rw same (drop_node-tidy r))

  pub IsValid-enabled :
      (on : Bool) (p : CustomRule)
      → IsValid valid_cidr compiles p
      → IsValid valid_cidr compiles (record p { enabled = on })
  unfolding grants_permit route_egress
  IsValid-enabled on p h = record {
    axes = record {
      known_match = h.axes.known_match;
      has_value = h.axes.has_value;
      good_egress = h.axes.good_egress;
      good_action = h.axes.good_action;
      some_axis = h.axes.some_axis;
      has_node = h.axes.has_node;
    };
    no_stray_node = h.no_stray_node;
    good_value = h.good_value;
  }
