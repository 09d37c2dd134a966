-- ===== src/Gateway/Layers/Turns.antt =====
-- What the injectors of gateway_security.go and gateway_allow.go make of the route rules of a document.
use trust_proxy.Base.{
  ℕ, zero, suc, String, Bool, true, false, List, [], ◌∷◌, ◌++◌, some, ◌≡◌, refl, sym, ap, ◌∙◌,
  if◌then◌else◌, is_empty, ◌&&◌, Result, ok, subst, take, drop,
}
use trust_proxy.Json.{Json, Object, Error, set}
use trust_proxy.Gateway.Rules.{prelude_len, insert_at, edit_rules, split_domain_matchers}
use trust_proxy.Gateway.Rules.Laws.{rules_of, edited, edit_rules_lem, set-rules_of}
use trust_proxy.Gateway.Security.{
  address_rejects, process_gate, device_gate, quarantine_rejects, floor_rejects, management_rule,
  below_prelude, inject_blacklist, inject_quarantine, inject_process_device_floor,
  inject_management,
}
use trust_proxy.Gateway.Allow.{allow_rules, inject_allow}
use trust_proxy.Gateway.Layers.{Inputs}
use trust_proxy.Gateway.Layers.Layout.{denied, quarantined, gated, managed}

-- A step that turns the route rules `rs` into `f rs`, whenever it succeeds.
abbrev pub Turns : (Object → Result Error Object) → (List Json → List Json) → Type 0
Turns m f =
    (cfg cfg' : Object) (rs : List Json)
    → rules_of cfg ≡ some rs
    → m cfg ≡ ok cfg'
    → rules_of cfg' ≡ some (f rs)

pub same :
    {cfg cfg' : Object} {rs : List Json}
    → rules_of cfg ≡ some rs
    → ◌≡◌ {A = Result Error Object} (ok cfg) (ok cfg')
    → rules_of cfg' ≡ some rs
same {cfg} {cfg'} {rs} e h = subst (λ c. rules_of c ≡ some rs) (cc) e

-- Writes below "experimental" leave the route alone.
pub set_experimental : (v : Json) → Turns (set "experimental" v) (λ rs. rs)
set_experimental v cfg cfg' rs e h = set-rules_of "experimental" v cfg cfg' rs refl h e

pub inject_blacklist-denied :
    (i : Inputs) → Turns (λ cfg. inject_blacklist cfg i.blacklist) (denied i)
unfolding inject_blacklist
inject_blacklist-denied i cfg cfg' rs e h = edit_rules_lem cfg cfg' _ rs e h

take-append-drop : (n : ℕ) (rs : List Json) → take n rs ++ [] ++ drop n rs ≡ rs
take-append-drop zero rs = refl
take-append-drop (suc n) [] = refl
take-append-drop (suc n) (r ∷ rs) = λ j. r ∷ take-append-drop n rs j

edited-insert :
    (new rs : List Json) → insert_at (prelude_len rs) new rs ≡ edited (below_prelude new rs) rs
edited-insert [] rs = take-append-drop (prelude_len rs) rs
edited-insert (r ∷ new) rs = refl

-- A step under a guard.
pub guarded :
    (b : Bool) (m : Object → Result Error Object) (f : List Json → List Json)
    → (b ≡ true → (rs : List Json) → rs ≡ f rs)
    → (b ≡ false → Turns m f)
    → Turns (λ cfg. if b then ok cfg else m cfg) f
guarded true m f off on cfg cfg' rs e h = same e h ∙ ap some (off refl rs)
guarded false m f off on cfg cfg' rs e h = on refl cfg cfg' rs e h

insert-Turns :
    (new : List Json)
    → Turns
        (λ cfg. edit_rules cfg λ rs. some (insert_at (prelude_len rs) new rs))
        (λ rs. edited (below_prelude new rs) rs)
insert-Turns new cfg cfg' rs e h = edit_rules_lem cfg cfg' _ rs e h ∙ ap some (edited-insert new rs)

no_addresses :
    (names ips : List String)
    → (is_empty names && is_empty ips) ≡ true
    → address_rejects names ips ≡ []
unfolding split_domain_matchers
no_addresses [] [] h = refl
no_addresses [] (x ∷ ips) h = cc
no_addresses (x ∷ names) ips h = cc

pub inject_quarantine-quarantined :
    (i : Inputs) → Turns (λ cfg. inject_quarantine cfg i.quarantine) (quarantined i)
unfolding inject_quarantine
inject_quarantine-quarantined i =
    guarded _ _ (quarantined i)
      (λ b rs.
        let none_left : quarantine_rejects i.quarantine ≡ [] =
          unfold quarantine_rejects in no_addresses _ _ b in
        ap (λ new. edited (below_prelude new rs) rs) (sym none_left))
      (λ b. insert-Turns (quarantine_rejects i.quarantine))

no_gates :
    (processes devices : List String)
    → (is_empty processes && is_empty devices) ≡ true
    → process_gate processes ++ device_gate devices ≡ []
unfolding process_gate device_gate
no_gates [] [] h = refl
no_gates [] (x ∷ devices) h = cc
no_gates (x ∷ processes) devices h = cc

pub inject_floor-gated :
    (i : Inputs) → Turns (λ cfg. inject_process_device_floor cfg i.policy.whitelist) (gated i)
unfolding inject_process_device_floor
inject_floor-gated i =
    guarded _ _ (gated i)
      (λ b rs.
        let none_left : floor_rejects i.policy.whitelist ≡ [] =
          unfold floor_rejects in
          no_gates i.policy.whitelist.processes i.policy.whitelist.devices b in
        ap (λ new. edited (below_prelude new rs) rs) (sym none_left))
      (λ b. insert-Turns (floor_rejects i.policy.whitelist))

pub inject_allow-allow_rules :
    (i : Inputs) → Turns (λ cfg. inject_allow cfg i.policy) (allow_rules i.policy)
unfolding inject_allow
inject_allow-allow_rules i cfg cfg' rs e h =
    edit_rules_lem cfg cfg' (λ x. some (allow_rules i.policy x)) rs e h

pub inject_management-managed :
    (ports : List ℕ) → Turns (λ cfg. inject_management cfg ports) (managed ports)
unfolding inject_management
inject_management-managed [] cfg cfg' rs e h = same e h
inject_management-managed (p ∷ ps) cfg cfg' rs e h =
    edit_rules_lem cfg cfg'
      (λ x. some (insert_at (prelude_len x) (management_rule (p ∷ ps) ∷ []) x)) rs e h
