-- ===== src/Policy/Tests.antt =====
-- The laws of roles and custom rules at a few of them.
use trust_proxy.Base.{true, none, ◌==◌, ◌&&◌, ◌||◌, ◌≡◌}
use trust_proxy.Policy.{
  CustomRule, effective_egress, grants_permit, route_egress, normalize_custom_rule,
}
use trust_proxy.Policy.Laws.{has_none, normalize_axes}

-- An egress of "none" without a permit field.
abbrev rule : CustomRule
rule = record {
  match = "domain";
  value = "a.com";
  action = "";
  egress = "none";
  permit = none;
  node = "";
  enabled = true;
}

normalize_axes_example :
    (route_egress (normalize_custom_rule rule) ≡ route_egress rule)
    × (grants_permit (normalize_custom_rule rule)
        ≡ (grants_permit rule || (has_none rule.permit && effective_egress rule == "none")))
normalize_axes_example = normalize_axes rule
