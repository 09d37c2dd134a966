-- ===== src/Gateway/Allow.antt =====
-- internal/gateway/gateway_allow.go: the Permit gate, the resolve step, the Route egress and the
-- catch-all.
pub mod Laws
use trust_proxy.Base.{
  ℕ, ◌+◌, String, Bool, true, false, List, [], ◌∷◌, ◌++◌, Option, none, some, ◌==◌, ◌&&◌, ◌||◌, not,
  if◌then◌else◌, is_empty, Result, any, length, get_elem?, set,
}
use trust_proxy.Json.{
  Json, str, bool, obj, field, end, Fields, array, texts, Object, Error, put, find,
}
use trust_proxy.Policy.{
  CustomRule, rule_role_grants_permit, rule_role_route_egress, grants_permit, route_egress,
  normalize_custom_rule,
}
use trust_proxy.Whitelist
use trust_proxy.DirectList
use trust_proxy.DirectList.{bypass_private}
use trust_proxy.FinalRoute
use trust_proxy.Gateway.Rules.{
  edit_rules, insert_at, catch_all_idx, route_rule, route_rules, split_domain_matchers,
  private_cidrs,
}
use trust_proxy.Gateway.RuleSets.{RuleSet, enabled_sets}

-- customrules.SingboxMatchKey, "" for no key.
abbrev pub match_key : String → String
match_key match =
    if match == "domain"
    then "domain"
    else if match == "domain_suffix"
    then "domain_suffix"
    else if match == "keyword"
    then "domain_keyword"
    else if match == "regex"
    then "domain_regex"
    else if match == "ip_cidr"
    then "ip_cidr"
    else ""

unfoldable pub permit_tags : List RuleSet → List String
permit_tags [] = []
permit_tags (rs ∷ sets) =
    if rule_role_grants_permit rs.role then rs.tag ∷ permit_tags sets else permit_tags sets

unfoldable pub egress_tags : String → List RuleSet → List String
egress_tags egress [] = []
egress_tags egress (rs ∷ sets) =
    if rule_role_route_egress rs.role == egress
    then rs.tag ∷ egress_tags egress sets
    else egress_tags egress sets

abbrev is_member : List String → String → Bool
is_member members tag = any (λ t. t == tag) members

-- The outbound of a custom rule; "" for one that gets no route rule.
abbrev pub custom_outbound : List String → CustomRule → String
custom_outbound members r =
    let eg = route_egress r in
    if eg == "direct"
    then "direct"
    else if eg == "proxy"
    then if not (r.node == "") && is_member members r.node then r.node else "proxy"
    else if eg == "block"
    then "blocked"
    else if eg == "node"
    then r.node
    else ""

abbrev pub is_live : List String → CustomRule → Bool
is_live members r =
    not (match_key r.match == "")
    && not (r.value == "")
    && not (route_egress r == "node" && not (is_member members r.node))

abbrev custom_matcher : CustomRule → Json
custom_matcher r = obj (field (match_key r.match) (texts (r.value ∷ [])) end)

-- What a normalised live rule adds: the matcher of the gate, and the route rule.
unfoldable pub permit_part : CustomRule → List Json
permit_part r = if grants_permit r then custom_matcher r ∷ [] else []

unfoldable pub egress_part : List String → CustomRule → List Json
egress_part members r =
    if route_egress r == ""
      || not (
          route_egress r == "direct"
          || route_egress r == "proxy"
          || route_egress r == "block"
          || route_egress r == "node")
    then []
    else route_rule (match_key r.match) (r.value ∷ []) (custom_outbound members r) ∷ []

unfoldable pub custom_permits : List String → List CustomRule → List Json
custom_permits members [] = []
custom_permits members (given ∷ rules) =
    let r = normalize_custom_rule given in
    if given.enabled && is_live members r
    then permit_part r ++ custom_permits members rules
    else custom_permits members rules

unfoldable pub custom_egress : List String → List CustomRule → List Json
custom_egress members [] = []
custom_egress members (given ∷ rules) =
    let r = normalize_custom_rule given in
    if given.enabled && is_live members r
    then egress_part members r ++ custom_egress members rules
    else custom_egress members rules

-- The policy that injectAllow reads.
pub record Policy : Type 0 where
  pub whitelist : Whitelist.Rules
  pub sets : List RuleSet
  pub direct_list : DirectList.Rules
  pub custom : List CustomRule
  pub member_tags : List String
  pub final : String
  pub posture : String

unfoldable pub has_user_permit : Policy → Bool
unfolding split_domain_matchers permit_tags enabled_sets custom_permits
has_user_permit p =
    let (sfx, rgx) = split_domain_matchers p.whitelist.domains in
    not (is_empty sfx)
    || not (is_empty rgx)
    || not (is_empty p.whitelist.ips)
    || not (is_empty (permit_tags (enabled_sets p.sets)))
    || not (is_empty (custom_permits p.member_tags p.custom))

abbrev matchers : String → List String → List Json
matchers key [] = []
matchers key (v ∷ vs) = obj (field key (texts (v ∷ vs)) end) ∷ []

-- The matchers of the Permit gate.
unfoldable pub sub_rules : Policy → List Json
unfolding split_domain_matchers permit_tags enabled_sets custom_permits
sub_rules p =
    let (sfx, rgx) = split_domain_matchers p.whitelist.domains in
    matchers "domain_suffix" sfx
    ++ matchers "domain_regex" rgx
    ++ matchers "ip_cidr" (p.whitelist.ips ++ private_cidrs)
    ++ matchers "rule_set" (permit_tags (enabled_sets p.sets))
    ++ custom_permits p.member_tags p.custom

abbrev pub gate : List Json → Json
gate subs = obj (
    field "action" (str "route") (
      field "invert" (bool true) (
        field "mode" (str "or") (
          field "outbound" (str "blocked")
            (field "rules" (array subs) (field "type" (str "logical") end))))))

abbrev pub resolve_rule : Json
resolve_rule = obj (field "action" (str "resolve") end)

unfoldable pub egress_rules : Policy → List Json
unfolding split_domain_matchers egress_tags enabled_sets custom_egress bypass_private
egress_rules p =
    let dl = p.direct_list in
    let (sfx, rgx) = split_domain_matchers dl.domains in
    let direct_ips = if bypass_private dl then dl.ips ++ private_cidrs else dl.ips in
    let sets = enabled_sets p.sets in
    route_rules "domain_suffix" sfx "direct"
    ++ custom_egress p.member_tags p.custom
    ++ route_rules "domain_regex" rgx "direct"
    ++ route_rules "ip_cidr" direct_ips "direct"
    ++ route_rules "rule_set" (egress_tags "proxy" sets) "proxy"
    ++ route_rules "rule_set" (egress_tags "direct" sets) "direct"

abbrev pub catch_all : String → Json
catch_all outbound = obj (
    field "action" (str "route")
      (field "network" (texts ("tcp" ∷ "udp" ∷ [])) (field "outbound" (str outbound) end)))

-- The rule at the index becomes the catch-all, or one is appended.
abbrev ensure_at : List Json → ℕ → String → Option Json → List Json
ensure_at rules at outbound (some _) = set rules at (catch_all outbound)
ensure_at rules at outbound none = rules ++ catch_all outbound ∷ []

unfoldable ensure_catch_all : String → List Json → List Json
unfolding catch_all_idx
ensure_catch_all outbound rules =
    let at = catch_all_idx rules in ensure_at rules at outbound (get_elem? rules at)

abbrev rewrite_fields : String → Fields → Option Json → Option Json
rewrite_fields outbound fs none = none
rewrite_fields outbound fs (some _) =
    some (obj (put "outbound" (str outbound) (put "action" (str "route") fs)))

-- A rule that has a network keeps its other keys; `none` for one that has not.
unfoldable rewrite_catch_all : String → Option Json → Option Json
unfolding find put
rewrite_catch_all outbound (some (obj fs)) = rewrite_fields outbound fs (find "network" fs)
rewrite_catch_all outbound _ = none

abbrev finish : List Json → ℕ → String → Option Json → List Json
finish merged at outbound (some rule) = set merged at rule
finish merged at outbound none = merged ++ catch_all outbound ∷ []

unfoldable pub inserted_rules : Policy → List Json
unfolding sub_rules egress_rules
inserted_rules p =
    let routed = resolve_rule ∷ egress_rules p in
    if p.posture == "split" then routed else gate (sub_rules p) ∷ routed

-- The rules that injectAllow writes.
pub allow_rules : Policy → List Json → List Json
unfolding has_user_permit ensure_catch_all rewrite_catch_all inserted_rules
allow_rules p rules =
    if not (has_user_permit p) && not (p.posture == "split")
    then ensure_catch_all "blocked" rules
    else let inserted = inserted_rules p in
      let at = catch_all_idx rules in
      let merged = insert_at at inserted rules in
      let outbound = FinalRoute.resolve p.final p.member_tags in
      finish merged (at + length inserted) outbound
        (rewrite_catch_all outbound (get_elem? merged (at + length inserted)))

unfoldable pub inject_allow : Object → Policy → Result Error Object
unfolding edit_rules allow_rules
inject_allow cfg p = edit_rules cfg λ rules. some (allow_rules p rules)
