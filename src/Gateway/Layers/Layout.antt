-- ===== src/Gateway/Layers/Layout.antt =====
-- The order of the layers that buildMergedConfig documents, as a list of rules.
use trust_proxy.Base.{
  ℕ, false, List, [], ◌∷◌, ◌++◌, ◌≡◌, refl, ◌∙◌, All-append, if◌then◌else◌, is_empty,
}
use mathlib.Core.List.{append_assoc}
use trust_proxy.Json.{Json, text_at}
use trust_proxy.Gateway.Rules.{prelude_len, catch_all_idx, insert_at, is_catch_all_rule}
use trust_proxy.Gateway.Rules.Laws.{
  NoCatchAll, IsPrelude, NoPreludeHead, IsTail, insert-prelude, insert-catch_all, edited,
}
use trust_proxy.Gateway.Security.{
  blacklist_rejects, quarantine_rejects, floor_rejects, management_rule, below_prelude,
}
use trust_proxy.Gateway.RuleSets.{rule_set_rejects}
use trust_proxy.Gateway.Mode.{global_rule}
use trust_proxy.Gateway.Allow.{allow_rules}
use trust_proxy.Gateway.Allow.Laws.{allow_tail, allow_rules-append}
use trust_proxy.Gateway.Layers.{Inputs}
use trust_proxy.Gateway.Layers.Floor.{
  floor, floor-AllPlain, AllPlain-NoCatchAll, AllPlain-NoPreludeHead, blacklist_rejects-AllPlain,
  quarantine_rejects-AllPlain, rule_set_rejects-AllPlain,
}

-- The route rules of a base configuration: the prelude, the rules above the catch-all, and the
-- catch-all with what is below it, if there is one.
pub record Base : Type 0 where
  pub prelude : List Json
  pub middle : List Json
  pub tail : List Json
  pub prelude_ok : IsPrelude prelude
  pub prelude_clear : NoCatchAll prelude
  pub middle_ok : NoPreludeHead (middle ++ tail)
  pub middle_clear : NoCatchAll middle
  pub tail_ok : IsTail tail

abbrev pub base_rules : Base → List Json
base_rules b = b.prelude ++ (b.middle ++ b.tail)

abbrev pub management : List ℕ → List Json
management [] = []
management (p ∷ ps) = management_rule (p ∷ ps) ∷ []

-- L0, L1, the rules of the base, L2 (the Clash mode), and L3, L4 and the catch-all.
abbrev pub layers : Base → Inputs → List Json
layers b i =
    b.prelude
    ++ (management i.management_ports
        ++ (floor i ++ (b.middle ++ (global_rule ∷ allow_tail i.policy b.tail))))

-- What each injector does to the rules.
abbrev pub at_prelude : List Json → List Json → List Json
at_prelude new rules = insert_at (prelude_len rules) new rules

abbrev pub at_catch_all : List Json → List Json → List Json
at_catch_all new rules = insert_at (catch_all_idx rules) new rules

abbrev pub managed : List ℕ → List Json → List Json
managed ports rules =
    if is_empty ports then rules else at_prelude (management_rule ports ∷ []) rules

-- `new` goes behind the prelude; where there is nothing new, the injectors leave the rules alone.
pub edited-below_prelude :
    (new pre xs : List Json)
    → IsPrelude pre
    → NoPreludeHead xs
    → edited (below_prelude new (pre ++ xs)) (pre ++ xs) ≡ pre ++ (new ++ xs)
edited-below_prelude [] pre xs h k = refl
edited-below_prelude (r ∷ new) pre xs h k =
    insert-prelude pre (r ∷ new) xs h k ∙ append_assoc pre (r ∷ new) xs

-- The rules that the injectors make, in their order.
abbrev pub denied : Inputs → List Json → List Json
denied i rules = edited (below_prelude (blacklist_rejects i.blacklist) rules) rules

abbrev pub quarantined : Inputs → List Json → List Json
quarantined i rules = edited (below_prelude (quarantine_rejects i.quarantine) rules) rules

abbrev pub set_denied : Inputs → List Json → List Json
set_denied i rules = edited (below_prelude (rule_set_rejects i.policy.sets) rules) rules

abbrev pub gated : Inputs → List Json → List Json
gated i rules = edited (below_prelude (floor_rejects i.policy.whitelist) rules) rules

unfoldable pub policy_rules : Inputs → List Json → List Json
policy_rules i rules = managed i.management_ports (
    allow_rules i.policy
      (at_catch_all (global_rule ∷ []) (gated i (set_denied i (quarantined i (denied i rules))))))

module _ (b : Base) (i : Inputs) where
  above : List Json
  above = b.prelude ++ (floor i ++ b.middle)

  above-clear : NoCatchAll above
  unfolding above
  above-clear =
      All-append _ _ _ b.prelude_clear
        (All-append _ _ _ (AllPlain-NoCatchAll (floor i) (floor-AllPlain i)) b.middle_clear)

  floored : gated i (set_denied i (quarantined i (denied i (base_rules b)))) ≡ above ++ b.tail
  unfolding above
  floored =
      let bl = blacklist_rejects i.blacklist in
      let q = quarantine_rejects i.quarantine in
      let d = rule_set_rejects i.policy.sets in
      let f = floor_rejects i.policy.whitelist in
      let body = b.middle ++ b.tail in
      let k₁ =
        AllPlain-NoPreludeHead bl body (blacklist_rejects-AllPlain i.blacklist) b.middle_ok in
      let k₂ =
        AllPlain-NoPreludeHead q (bl ++ body) (quarantine_rejects-AllPlain i.quarantine) k₁ in
      let k₃ =
        AllPlain-NoPreludeHead d (q ++ (bl ++ body)) (rule_set_rejects-AllPlain i.policy.sets) k₂ in
      rw (edited-below_prelude bl b.prelude body b.prelude_ok b.middle_ok) (
        rw (edited-below_prelude q b.prelude (bl ++ body) b.prelude_ok k₁) (
          rw (edited-below_prelude d b.prelude (q ++ (bl ++ body)) b.prelude_ok k₂) (
            rw (edited-below_prelude f b.prelude (d ++ (q ++ (bl ++ body))) b.prelude_ok k₃)
              (simp append_assoc))))

  top : List Json
  top = floor i ++ (b.middle ++ (global_rule ∷ allow_tail i.policy b.tail))

  gate_placed :
      allow_rules i.policy (at_catch_all (global_rule ∷ []) (above ++ b.tail)) ≡ b.prelude ++ top
  unfolding above top
  gate_placed =
      let plain : is_catch_all_rule global_rule ≡ false = unfold is_catch_all_rule in refl in
      rw (insert-catch_all above (global_rule ∷ []) b.tail above-clear b.tail_ok) (
        allow_rules-append i.policy (above ++ global_rule ∷ []) b.tail
          (All-append _ _ _ above-clear (plain, tt)) b.tail_ok
        ∙ simp append_assoc)

  head_of :
      (m t : List Json) (xs : List Json)
      → NoPreludeHead (m ++ t)
      → NoPreludeHead (m ++ (global_rule ∷ xs))
  unfolding text_at
  head_of [] t xs h = refl
  head_of (x ∷ m) t xs h = h

  managed_placed :
      (ports : List ℕ) → managed ports (b.prelude ++ top) ≡ b.prelude ++ (management ports ++ top)
  unfolding top
  managed_placed [] = refl
  managed_placed (p ∷ ps) =
      edited-below_prelude (management_rule (p ∷ ps) ∷ []) b.prelude top b.prelude_ok (
        AllPlain-NoPreludeHead (floor i) _ (floor-AllPlain i)
          (head_of b.middle b.tail _ b.middle_ok))

-- The rules stand in the order of the layers: the prelude, the management rescue, the floor (process
-- and device gates, deny rule sets, quarantine, deny-list), the rules of the base, the Clash mode,
-- the Permit gate, the resolve step, the Route egress and the catch-all.
pub policy_rules-layers : (b : Base) (i : Inputs) → policy_rules i (base_rules b) ≡ layers b i
unfolding policy_rules
policy_rules-layers b i =
    rw (floored b i) (rw (gate_placed b i) (unfold top in managed_placed b i i.management_ports))
