-- ===== src/Policy.antt =====
-- pkg/apitypes/policy.go: the two axes of policy. Permit says whether a destination may leave, Route
-- says by which egress.
pub mod Laws
mod Tests
use trust_proxy.Base.{
  String, Bool, true, false, Option, none, some, ◌==◌, not, ◌&&◌, ◌||◌, if◌then◌else◌,
}

abbrev pub CustomMatch : Type 0
CustomMatch = String

-- The fields of apitypes.CustomRule that policy reads; ID, Pack and Note are left out.
pub record CustomRule : Type 0 where
  pub match : CustomMatch
  pub value : String
  pub action : String
  pub egress : String
  pub permit : Option Bool
  pub node : String
  pub enabled : Bool

unfoldable normalize_rule_role : String → String
normalize_rule_role role =
    if role == "block"
    then "deny"
    else if role == "allow-direct"
    then "permit+route-direct"
    else if role == "allow-proxy"
    then "permit+route-proxy"
    else role

unfoldable pub rule_role_grants_permit : String → Bool
unfolding normalize_rule_role
rule_role_grants_permit role =
    let r = normalize_rule_role role in
    r == "permit" || r == "permit+route-direct" || r == "permit+route-proxy"

unfoldable pub rule_role_is_deny : String → Bool
unfolding normalize_rule_role
rule_role_is_deny role = normalize_rule_role role == "deny"

unfoldable pub rule_role_route_egress : String → String
unfolding normalize_rule_role
rule_role_route_egress role =
    let r = normalize_rule_role role in
    if r == "route-direct" || r == "permit+route-direct"
    then "direct"
    else if r == "route-proxy" || r == "permit+route-proxy"
    then "proxy"
    else ""

unfoldable valid_rule_role : String → Bool
valid_rule_role role =
    role == "deny"
    || role == "permit"
    || role == "route-direct"
    || role == "route-proxy"
    || role == "permit+route-direct"
    || role == "permit+route-proxy"
    || role == "block"
    || role == "allow-direct"
    || role == "allow-proxy"

unfoldable compose_rule_role : Bool → String → String
compose_rule_role permit route =
    if permit && route == "direct"
    then "permit+route-direct"
    else if permit && route == "proxy"
    then "permit+route-proxy"
    else if permit
    then "permit"
    else if route == "direct"
    then "route-direct"
    else if route == "proxy"
    then "route-proxy"
    else ""

unfoldable merge_rule_roles : String → String → String
unfolding rule_role_grants_permit rule_role_route_egress compose_rule_role
merge_rule_roles existing incoming =
    let permit = rule_role_grants_permit existing || rule_role_grants_permit incoming in
    let route = rule_role_route_egress incoming in
    compose_rule_role permit (if route == "" then rule_role_route_egress existing else route)

unfoldable subtract_rule_roles : String → String → String
unfolding rule_role_grants_permit rule_role_route_egress compose_rule_role
subtract_rule_roles current removed =
    let permit =
      if rule_role_grants_permit removed then false else rule_role_grants_permit current in
    let route =
      if not (rule_role_route_egress removed == "") then "" else rule_role_route_egress current in
    compose_rule_role permit route

unfoldable effective_egress : CustomRule → String
effective_egress r = if not (r.egress == "") then r.egress else r.action

unfoldable pub grants_permit : CustomRule → Bool
unfolding effective_egress
grants_permit r = elim r.permit [
  | some p ↦ p
  | none ↦
      let eg = effective_egress r in not (eg == "") && not (eg == "block") && not (eg == "none")
]

unfoldable pub route_egress : CustomRule → String
unfolding effective_egress
route_egress r = let eg = effective_egress r in if eg == "none" then "" else eg

-- The three assignments of NormalizeCustomRule, in their order.
unfoldable fill_egress : CustomRule → CustomRule
fill_egress r = if r.egress == "" && not (r.action == "") then record r { egress = r.action } else r

unfoldable fill_action : CustomRule → CustomRule
fill_action r =
    if r.action == "" && not (r.egress == "") && not (r.egress == "none")
    then record r { action = r.egress }
    else r

unfoldable permit_of_egress : String → Bool
permit_of_egress eg = if eg == "block" then false else if eg == "none" then true else not (eg == "")

unfoldable fill_permit : CustomRule → CustomRule
unfolding permit_of_egress effective_egress
fill_permit r = elim r.permit [
  | some p ↦ r
  | none ↦ record r { permit = some (permit_of_egress (effective_egress r)) }
]

unfoldable pub normalize_custom_rule : CustomRule → CustomRule
unfolding fill_egress fill_action fill_permit
normalize_custom_rule r = fill_permit (fill_action (fill_egress r))
