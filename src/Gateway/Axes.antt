-- ===== src/Gateway/Axes.antt =====
-- Permit and Route are orthogonal: what only routes adds nothing to the Permit gate, and what only
-- permits adds nothing to the Route egress.
use trust_proxy.Base.{String, false, List, [], ◌∷◌, ◌≡◌, arith, ◌==◌}
use trust_proxy.Policy.{
  CustomRule, rule_role_grants_permit, rule_role_route_egress, grants_permit, route_egress,
  normalize_custom_rule,
}
use trust_proxy.DirectList
use trust_proxy.Whitelist
use trust_proxy.Gateway.RuleSets.{RuleSet, enabled_sets}
use trust_proxy.Gateway.Allow.{
  Policy, sub_rules, has_user_permit, egress_rules, permit_tags, egress_tags, custom_permits,
  custom_egress, permit_part, egress_part,
}

permit_tags_route :
    (rs : RuleSet) (sets : List RuleSet)
    → rule_role_grants_permit rs.role ≡ false
    → permit_tags (enabled_sets (rs ∷ sets)) ≡ permit_tags (enabled_sets sets)
unfolding permit_tags enabled_sets
permit_tags_route rs sets h = ground arith

permit_part_none : (r : CustomRule) → grants_permit r ≡ false → permit_part r ≡ []
unfolding permit_part
permit_part_none r h = rw h

custom_permits_route :
    (members : List String) (r : CustomRule) (rules : List CustomRule)
    → grants_permit (normalize_custom_rule r) ≡ false
    → custom_permits members (r ∷ rules) ≡ custom_permits members rules
unfolding custom_permits
custom_permits_route members r rules h =
    ground (arith, permit_part_none (normalize_custom_rule r) h)

egress_tags_permit :
    (egress : String) (rs : RuleSet) (sets : List RuleSet)
    → (rule_role_route_egress rs.role == egress) ≡ false
    → egress_tags egress (enabled_sets (rs ∷ sets)) ≡ egress_tags egress (enabled_sets sets)
unfolding egress_tags enabled_sets
egress_tags_permit egress rs sets h = ground arith

egress_part_none :
    (members : List String) (r : CustomRule) → route_egress r ≡ "" → egress_part members r ≡ []
unfolding egress_part
egress_part_none members r h = rw h

custom_egress_permit :
    (members : List String) (r : CustomRule) (rules : List CustomRule)
    → route_egress (normalize_custom_rule r) ≡ ""
    → custom_egress members (r ∷ rules) ≡ custom_egress members rules
unfolding custom_egress
custom_egress_permit members r rules h =
    ground (arith, egress_part_none members (normalize_custom_rule r) h)

-- A no-proxy list, a Final, a rule set whose role does not grant permit and a custom rule that does
-- not: with them the gate has the same matchers, and is open exactly when it was.
pub permit_ignores_route :
    (p : Policy) (dl : DirectList.Rules) (final : String) (rs : RuleSet) (r : CustomRule)
    → rule_role_grants_permit rs.role ≡ false
    → grants_permit (normalize_custom_rule r) ≡ false
    → let q = record p {
      direct_list = dl;
      final = final;
      sets = rs ∷ p.sets;
      custom = r ∷ p.custom;
    } in
      (sub_rules q ≡ sub_rules p) × (has_user_permit q ≡ has_user_permit p)
permit_ignores_route p dl final rs r hs hr = (
  unfold sub_rules in
      rw (permit_tags_route rs p.sets hs, custom_permits_route p.member_tags r p.custom hr),
  unfold has_user_permit in
      rw (permit_tags_route rs p.sets hs, custom_permits_route p.member_tags r p.custom hr),
)

-- A whitelist, a rule set whose role names no route and a custom rule without one leave the Route
-- egress as it was.
route_ignores_permit :
    (p : Policy) (wl : Whitelist.Rules) (rs : RuleSet) (r : CustomRule)
    → rule_role_route_egress rs.role ≡ ""
    → route_egress (normalize_custom_rule r) ≡ ""
    → egress_rules (record p { whitelist = wl; sets = rs ∷ p.sets; custom = r ∷ p.custom })
      ≡ egress_rules p
route_ignores_permit p wl rs r hs hr =
    let direct : (rule_role_route_egress rs.role == "direct") ≡ false = rw hs in
    let proxy : (rule_role_route_egress rs.role == "proxy") ≡ false = rw hs in
    unfold egress_rules in
    rw (
      egress_tags_permit "proxy" rs p.sets proxy,
      egress_tags_permit "direct" rs p.sets direct,
      custom_egress_permit p.member_tags r p.custom hr,
    )
