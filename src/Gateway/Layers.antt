-- ===== src/Gateway/Layers.antt =====
-- internal/gateway/gateway.go, buildMergedConfig: the injectors of policy, in their order, from the
-- deny-list to the secret of the Clash API. What stands before them (nodes, endpoints, DNS, the
-- capture mode) and applyInvariants behind them are not part of it.
pub mod Floor
pub mod Layout
mod Turns
mod Settings
pub mod Documents
use trust_proxy.Base.{
  ℕ, String, List, [], ◌∷◌, ◌++◌, Option, none, some, Result, ok, err, ◌>>=◌, if◌then◌else◌,
  is_empty, ◌==◌, ◌&&◌, not,
}
use trust_proxy.Json.{Json, Object, Error}
use trust_proxy.Blacklist
use trust_proxy.Quarantine.{Entry}
use trust_proxy.Gateway.Security.{
  inject_blacklist, inject_quarantine, inject_process_device_floor, inject_management,
  inject_clash_secret,
}
use trust_proxy.Gateway.RuleSets.{inject_rule_sets}
use trust_proxy.Gateway.Mode.{inject_clash_mode_global}
use trust_proxy.Gateway.Allow.{Policy, inject_allow}

pub record Inputs : Type 0 where
  pub blacklist : Blacklist.Rules
  pub quarantine : List Entry
  pub policy : Policy
  pub management_ports : List ℕ
  pub clash_secret : String
  pub clash_addr : String
  pub cache_path : String

unfoldable pub inject_policy : Object → Inputs → Result Error Object
unfolding inject_blacklist inject_quarantine inject_rule_sets inject_process_device_floor
    inject_clash_mode_global inject_allow inject_management inject_clash_secret
inject_policy cfg i = do
  c₁ ← inject_blacklist cfg i.blacklist
  c₂ ← inject_quarantine c₁ i.quarantine
  c₃ ← inject_rule_sets c₂ i.policy.sets i.cache_path
  c₄ ← inject_process_device_floor c₃ i.policy.whitelist
  c₅ ← inject_clash_mode_global c₄ i.cache_path
  c₆ ← inject_allow c₅ i.policy
  c₇ ← inject_management c₆ i.management_ports
  inject_clash_secret c₇ i.clash_secret i.clash_addr
