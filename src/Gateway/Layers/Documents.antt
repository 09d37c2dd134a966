-- ===== src/Gateway/Layers/Documents.antt =====
-- The injectors on a whole document: what becomes of its route rules.
use trust_proxy.Base.{List, some, ◌≡◌, ap, ◌∙◌, ok, >>=-ok}
use trust_proxy.Json.{Json, Object}
use trust_proxy.Gateway.Rules.Laws.{rules_of}
use trust_proxy.Gateway.Security.{
  inject_blacklist, inject_quarantine, inject_process_device_floor, inject_management,
}
use trust_proxy.Gateway.RuleSets.{inject_rule_sets}
use trust_proxy.Gateway.Mode.{inject_clash_mode_global}
use trust_proxy.Gateway.Allow.{inject_allow}
use trust_proxy.Gateway.Layers.{Inputs, inject_policy}
use trust_proxy.Gateway.Layers.Layout.{policy_rules, policy_rules-layers, layers, Base, base_rules}
use trust_proxy.Gateway.Layers.Turns.{
  inject_blacklist-denied, inject_quarantine-quarantined, inject_floor-gated,
  inject_allow-allow_rules, inject_management-managed,
}
use trust_proxy.Gateway.Layers.Settings.{
  inject_clash_secret-Keeps, inject_global-Turns, inject_rule_sets-set_denied,
}

-- Whenever the injectors succeed on a document that has a route, its rules are those that they make
-- one by one.
pub inject_policy-policy_rules :
    (i : Inputs) (cfg cfg' : Object) (rs : List Json)
    → rules_of cfg ≡ some rs
    → inject_policy cfg i ≡ ok cfg'
    → rules_of cfg' ≡ some (policy_rules i rs)
unfolding inject_policy policy_rules
inject_policy-policy_rules i cfg cfg' rs e h =
    let (c₁, k₁, h₁) = >>=-ok _ (inject_blacklist cfg i.blacklist) h in
    let (c₂, k₂, h₂) = >>=-ok _ (inject_quarantine c₁ i.quarantine) k₁ in
    let (c₃, k₃, h₃) = >>=-ok _ (inject_rule_sets c₂ i.policy.sets i.cache_path) k₂ in
    let (c₄, k₄, h₄) = >>=-ok _ (inject_process_device_floor c₃ i.policy.whitelist) k₃ in
    let (c₅, k₅, h₅) = >>=-ok _ (inject_clash_mode_global c₄ i.cache_path) k₄ in
    let (c₆, k₆, h₆) = >>=-ok _ (inject_allow c₅ i.policy) k₅ in
    let (c₇, k₇, h₇) = >>=-ok _ (inject_management c₆ i.management_ports) k₆ in
    let e₁ = inject_blacklist-denied i cfg c₁ rs e h₁ in
    let e₂ = inject_quarantine-quarantined i c₁ c₂ _ e₁ h₂ in
    let e₃ = inject_rule_sets-set_denied i c₂ c₃ _ e₂ h₃ in
    let e₄ = inject_floor-gated i c₃ c₄ _ e₃ h₄ in
    let e₅ = inject_global-Turns i.cache_path c₄ c₅ _ e₄ h₅ in
    let e₆ = inject_allow-allow_rules i c₅ c₆ _ e₅ h₆ in
    let e₇ = inject_management-managed i.management_ports c₆ c₇ _ e₆ h₇ in
    inject_clash_secret-Keeps i.clash_secret i.clash_addr c₇ cfg' _ e₇ k₇

-- For a base with a prelude, rules above a catch-all, and that catch-all or none, they are the
-- documented layers.
pub inject_policy-layers :
    (b : Base) (i : Inputs) (cfg cfg' : Object)
    → rules_of cfg ≡ some (base_rules b)
    → inject_policy cfg i ≡ ok cfg'
    → rules_of cfg' ≡ some (layers b i)
inject_policy-layers b i cfg cfg' e h =
    inject_policy-policy_rules i cfg cfg' (base_rules b) e h ∙ ap some (policy_rules-layers b i)
