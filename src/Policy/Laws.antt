-- ===== src/Policy/Laws.antt =====
-- The laws of the two axes of a role, and of normalisation.
use trust_proxy.Base.{
  String, Bool, true, false, Option, none, some, ◌==◌, not, ◌&&◌, ◌||◌, if◌then◌else◌, arith,
  eq_iff, ◌≡◌, refl, ◌∙◌, ◌⊎◌, inl, inr,
}
use trust_proxy.Policy.{
  CustomRule, fill_egress, fill_action, fill_permit, rule_role_grants_permit,
  rule_role_route_egress, compose_rule_role, merge_rule_roles, subtract_rule_roles,
  effective_egress, grants_permit, route_egress, normalize_custom_rule,
}

abbrev pub has_none : Option Bool → Bool
has_none none = true
has_none (some _) = false

-- What a route of a role can be.
abbrev pub IsRouteAxis : String → Type 0
IsRouteAxis route = (route ≡ "") ⊎ (route ≡ "direct") ⊎ (route ≡ "proxy")

pub route_egress-IsRouteAxis : (role : String) → IsRouteAxis (rule_role_route_egress role)
unfolding rule_role_route_egress
route_egress-IsRouteAxis role = ground arith

-- Composing a permit with a route that is "", "direct" or "proxy" gives a role of that permit and route.
compose_axes :
    (permit : Bool) (route : String)
    → IsRouteAxis route
    → (rule_role_grants_permit (compose_rule_role permit route) ≡ permit)
      × (rule_role_route_egress (compose_rule_role permit route) ≡ route)
unfolding compose_rule_role rule_role_grants_permit rule_role_route_egress
compose_axes true route (inl e) = rw e (refl, refl)
compose_axes true route (inr (inl e)) = rw e (refl, refl)
compose_axes true route (inr (inr e)) = rw e (refl, refl)
compose_axes false route (inl e) = rw e (refl, refl)
compose_axes false route (inr (inl e)) = rw e (refl, refl)
compose_axes false route (inr (inr e)) = rw e (refl, refl)

IsRouteAxis-if :
    (b : Bool) {s t : String} → IsRouteAxis s → IsRouteAxis t → IsRouteAxis (if b then s else t)
IsRouteAxis-if true hs ht = hs
IsRouteAxis-if false hs ht = ht

-- Merging two roles grants permit when either does, and takes the incoming route if there is one.
merge_axes :
    (existing incoming : String)
    → (rule_role_grants_permit (merge_rule_roles existing incoming)
        ≡ (rule_role_grants_permit existing || rule_role_grants_permit incoming))
      × (rule_role_route_egress (merge_rule_roles existing incoming) ≡ (
          if rule_role_route_egress incoming == ""
          then rule_role_route_egress existing
          else rule_role_route_egress incoming))
merge_axes existing incoming =
    unfold merge_rule_roles in
    compose_axes _ _ (
      IsRouteAxis-if (rule_role_route_egress incoming == "") (route_egress-IsRouteAxis existing)
        (route_egress-IsRouteAxis incoming))

-- Subtracting a role takes away the axes that it has, and leaves the others.
subtract_axes :
    (current removed : String)
    → (rule_role_grants_permit (subtract_rule_roles current removed)
        ≡ (not (rule_role_grants_permit removed) && rule_role_grants_permit current))
      × (rule_role_route_egress (subtract_rule_roles current removed)
          ≡ (if rule_role_route_egress removed == "" then rule_role_route_egress current else ""))
unfolding subtract_rule_roles
subtract_axes current removed = ground (
  arith,
  compose_axes (if rule_role_grants_permit removed then false else rule_role_grants_permit current)
      (if not (rule_role_route_egress removed == "") then "" else rule_role_route_egress current)
      (IsRouteAxis-if (not (rule_role_route_egress removed == "")) (inl refl)
        (route_egress-IsRouteAxis current)),
)

effective_egress-normalize :
    (r : CustomRule) → effective_egress (normalize_custom_rule r) ≡ effective_egress r
unfolding normalize_custom_rule effective_egress
effective_egress-normalize r = ground (arith, eq_iff r.egress "", eq_iff r.action "")

-- The permit that a rule without one is given.
abbrev pub permit_or : Option Bool → String → Bool
permit_or (some p) eg = p
permit_or none eg = if eg == "block" then false else if eg == "none" then true else not (eg == "")

permit-fill :
    (r : CustomRule) → (fill_permit r).permit ≡ some (permit_or r.permit (effective_egress r))
unfolding fill_permit
permit-fill r = ground arith

effective_egress-fill :
    (r : CustomRule) → effective_egress (fill_action (fill_egress r)) ≡ effective_egress r
unfolding fill_action fill_egress effective_egress
effective_egress-fill r = ground (arith, eq_iff r.egress "", eq_iff r.action "")

fill-permit : (r : CustomRule) → (fill_action (fill_egress r)).permit ≡ r.permit
unfolding fill_action fill_egress
fill-permit r = ground arith

permit-normalize :
    (r : CustomRule)
    → (normalize_custom_rule r).permit ≡ some (permit_or r.permit (effective_egress r))
permit-normalize r =
    unfold normalize_custom_rule in
    rw (permit-fill (fill_action (fill_egress r)), fill-permit r, effective_egress-fill r)

grants_of_permit : (r : CustomRule) (p : Bool) → r.permit ≡ some p → grants_permit r ≡ p
unfolding grants_permit
grants_of_permit r p e = ground arith

permit_or-grants :
    (r : CustomRule)
    → permit_or r.permit (effective_egress r)
      ≡ (grants_permit r || (has_none r.permit && effective_egress r == "none"))
unfolding grants_permit
permit_or-grants r = ground (
  arith,
  eq_iff (effective_egress r) "block",
  eq_iff (effective_egress r) "none",
  eq_iff (effective_egress r) "",
  eq_iff "block" "none",
  eq_iff "block" "",
  eq_iff "none" "",
)

-- Normalising a rule keeps its route, and its permit too unless the rule has no permit field and
-- the egress "none": such a rule is permit-only after it and grants nothing before it.
pub normalize_axes :
    (r : CustomRule)
    → (route_egress (normalize_custom_rule r) ≡ route_egress r)
      × (grants_permit (normalize_custom_rule r)
          ≡ (grants_permit r || (has_none r.permit && effective_egress r == "none")))
normalize_axes r = (
  unfold route_egress in rw (effective_egress-normalize r),
  grants_of_permit _ _ (permit-normalize r) ∙ permit_or-grants r,
)

-- Normalising twice changes nothing more.
normalize_idempotent :
    (r : CustomRule) → normalize_custom_rule (normalize_custom_rule r) ≡ normalize_custom_rule r
unfolding normalize_custom_rule effective_egress
normalize_idempotent r =
    ground (
      arith,
      eq_iff r.egress "",
      eq_iff r.action "",
      eq_iff r.egress "none",
      eq_iff r.action "none",
    )
