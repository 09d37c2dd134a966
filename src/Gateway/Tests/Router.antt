-- ===== src/Gateway/Tests/Router.antt =====
-- A router over flows that are lists of labels, and a small configuration.
use trust_proxy.Base.{
  String, Bool, true, false, List, [], ◌∷◌, Option, none, some, ◌≡◌, refl, arith, if◌then◌else◌,
  ◌==◌, ◌||◌, not, any,
}
use trust_proxy.Json.{
  Json, null, bool, num, str, arr, obj, nil, cons, Items, Fields, end, field, of_items, find,
  text_at,
}
use trust_proxy.Gateway.Rules.{is_catch_all_rule}
use trust_proxy.Gateway.Allow.{Policy, gate, resolve_rule, catch_all}
use trust_proxy.Gateway.Layers.{Inputs}
use trust_proxy.Gateway.Layers.Layout.{Base}
use trust_proxy.Gateway.Engine.{Engine, Verdict, rejected, routed, unmatched}

abbrev is_true : Option Json → Bool
is_true (some (bool b)) = b
is_true _ = false

-- The keys that do not match.
abbrev is_quiet : String → Bool
is_quiet k = k == "action" || k == "outbound" || k == "mode" || k == "type"

abbrev flip_if : Bool → Bool → Bool
flip_if true b = not b
flip_if false b = b

unfoldable mutual
  pub hits : List String → Json → Bool
  hits f null = false
  hits f (bool b) = false
  hits f (num n) = any (λ l. l == "management") f
  hits f (str s) = any (λ l. l == s) f
  hits f (arr vs) = hits_items f vs
  hits f (obj fs) =
      let inner = hits_fields f fs in
      is_catch_all_rule (obj fs) || flip_if (is_true (find "invert" fs)) inner

  hits_items : List String → Items → Bool
  hits_items f nil = false
  hits_items f (cons v vs) = hits f v || hits_items f vs

  hits_fields : List String → Fields → Bool
  hits_fields f end = false
  hits_fields f (field k v fs) =
      let rest = hits_fields f fs in if is_quiet k then rest else hits f v || rest

pub walk : List Json → List String → Verdict
walk [] f = unmatched
walk (r ∷ rs) f =
    let rest = walk rs f in
    if text_at "action" r == "resolve"
    then rest
    else if hits f r
    then if text_at "action" r == "reject" then rejected else routed (text_at "outbound" r)
    else rest

hits_items-of_items :
    (f : List String) (subs : List Json) → hits_items f (of_items subs) ≡ any (hits f) subs
unfolding hits_items
hits_items-of_items f [] = refl
hits_items-of_items f (s ∷ subs) = rw (hits_items-of_items f subs)

or_false : (b : Bool) → (b || false) ≡ b
or_false true = refl
or_false false = refl

pub hits-gate : (f : List String) (subs : List Json) → hits f (gate subs) ≡ not (any (hits f) subs)
unfolding hits hits_fields find is_catch_all_rule
hits-gate f subs = rw (or_false (hits_items f (of_items subs)), hits_items-of_items f subs)

pub walk-skips :
    (r : Json) (rs : List Json) (f : List String) → hits f r ≡ false → walk (r ∷ rs) f ≡ walk rs f
unfolding walk
walk-skips r rs f h = ground arith

pub walk-rejects :
    (r : Json) (rs : List Json) (f : List String)
    → hits f r ≡ true
    → text_at "action" r ≡ "reject"
    → walk (r ∷ rs) f ≡ rejected
unfolding walk
walk-rejects r rs f h e = rw (e, h)

pub walk-routes :
    (r : Json) (rs : List Json) (f : List String)
    → hits f r ≡ true
    → text_at "action" r ≡ "route"
    → walk (r ∷ rs) f ≡ routed (text_at "outbound" r)
unfolding walk
walk-routes r rs f h e = rw (e, h)

pub walk-resolves : (rs : List Json) (f : List String) → walk (resolve_rule ∷ rs) f ≡ walk rs f
unfolding walk text_at
walk-resolves rs f = refl

pub hits-catch_all : (r : Json) (f : List String) → is_catch_all_rule r ≡ true → hits f r ≡ true
unfolding hits is_catch_all_rule
hits-catch_all (obj fs) f h = rw h
hits-catch_all r f h = cc

abbrev pub labels : Engine
labels = record {
  Flow = List String;
  matches = λ r f. hits f r;
  advance = λ r f. f;
  decide = walk;
  skips = walk-skips;
  rejects = walk-rejects;
  routes = walk-routes;
  resolves = walk-resolves;
  gate_matches = λ subs f. hits-gate f subs;
  catch_all_matches = hits-catch_all;
}

abbrev pub sniff : Json
sniff = obj (field "action" (str "sniff") end)

unfoldable pub base : Base
unfolding is_catch_all_rule text_at
base = record {
  prelude = sniff ∷ [];
  middle = [];
  tail = catch_all "blocked" ∷ [];
  prelude_ok = (refl, tt);
  prelude_clear = (refl, tt);
  middle_ok = refl;
  middle_clear = tt;
  tail_ok = refl;
}

abbrev pub policy : Policy
policy = record {
  whitelist = record {
    domains = "ok.com" ∷ "bad.com" ∷ [];
    ips = [];
    processes = [];
    devices = [];
    notes = none;
  };
  sets = [];
  direct_list = record { domains = []; ips = []; notes = none; private_direct = none };
  custom = [];
  member_tags = "jp" ∷ [];
  final = "proxy";
  posture = "strict";
}

abbrev pub inputs : Inputs
inputs = record {
  blacklist = record {
    domains = "bad.com" ∷ [];
    keywords = [];
    regexes = [];
    ips = [];
    notes = none;
  };
  quarantine = [];
  policy = policy;
  management_ports = 22 ∷ [];
  clash_secret = "";
  clash_addr = "";
  cache_path = "/var/lib/trust-proxy/cache.db";
}
