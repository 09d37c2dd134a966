-- ===== src/Posture.antt =====
-- internal/posture/store.go: the two slots of policy, Strict and Split. `P` is the policy of a slot
-- (apitypes.PolicySlot without Seeded). The lock is held for a whole operation, and a slot is a value,
-- so the copies that the source makes are not seen.
pub mod Live
pub mod Switch
pub mod Laws
pub mod Returns
pub mod Failures
pub mod Exclusions
pub mod Samples
mod Tests
use trust_proxy.Base.{
  String, Bool, true, false, List, [], ◌∷◌, Option, none, some, ◌==◌, ◌||◌, if◌then◌else◌,
}
use trust_proxy.ListStore.{Store, Write, Found, no_file, unreadable, holds, mutate}

pub data Error : Type 0 where
  invalid_posture save_failed : Error

abbrev pub valid_posture : String → Bool
valid_posture p = p == "strict" || p == "split"

abbrev pub save_error : Bool → Option Error
save_error b = if b then some save_failed else none

module _ {ℓ} (P : Type ℓ) where
  pub record Slot : Type ℓ where
    pub policy : P
    pub seeded : Bool

  pub record State : Type ℓ where
    pub active : String
    pub slots : List (String × Slot)

  abbrev pub Outcome : Type ℓ
  Outcome = Store State × Option Error

module _ {ℓ} {P : Type ℓ} where
  unfoldable pub slot_at : String → List (String × Slot P) → Option (Slot P)
  slot_at name [] = none
  slot_at name ((n, s) ∷ m) = if n == name then some s else slot_at name m

  unfoldable pub assign : String → Slot P → List (String × Slot P) → List (String × Slot P)
  assign name s [] = (name, s) ∷ []
  assign name s ((n, t) ∷ m) =
      let rest = assign name s m in if n == name then (name, s) ∷ m else (n, t) ∷ rest

  -- A change of the data under the lock, and the save.
  abbrev pub change : Store (State P) → (State P → State P) → Write (State P) → Outcome P
  change s fn disk = let (s', snap, bad) = mutate s fn disk in (s', save_error bad)

  unfoldable pub put_slot : Store (State P) → String → Slot P → Write (State P) → Outcome P
  put_slot s name slot disk =
      if valid_posture name
      then change s (λ st. record st { slots = assign name slot st.slots }) disk
      else (s, some invalid_posture)

  unfoldable pub set_active : Store (State P) → String → Write (State P) → Outcome P
  set_active s name disk =
      if valid_posture name
      then change s (λ st. record st { active = name }) disk
      else (s, some invalid_posture)

  unfoldable pub save_state : Store (State P) → State P → Write (State P) → Outcome P
  save_state s st disk =
      if valid_posture st.active then change s (λ _. st) disk else (s, some invalid_posture)

  module _ (empty : P) where
    abbrev pub empty_slot : Slot P
    empty_slot = record { policy = empty; seeded = false }

    abbrev pub or_empty : Option (Slot P) → Slot P
    or_empty none = empty_slot
    or_empty (some s) = s

    -- Slot, for a valid name: the zero value where there is none.
    unfoldable pub slot : Store (State P) → String → Slot P
    slot s name = or_empty (slot_at name s.current.slots)

    abbrev fill_found : String → List (String × Slot P) → Option (Slot P) → List (String × Slot P)
    fill_found name m none = assign name empty_slot m
    fill_found name m (some _) = m

    abbrev pub fill : String → List (String × Slot P) → List (String × Slot P)
    fill name m = fill_found name m (slot_at name m)

    abbrev pub repaired : State P → State P
    repaired st = record {
      active = if valid_posture st.active then st.active else "split";
      slots = fill "split" (fill "strict" st.slots);
    }

    abbrev fresh : State P
    fresh = record { active = "split"; slots = ("strict", empty_slot) ∷ ("split", empty_slot) ∷ [] }

    abbrev opened_with : Outcome P → Option (Store (State P) × Option Error)
    opened_with o = some o

    -- `holds` has the document decoded over the fresh state, as json.Unmarshal does.
    unfoldable pub new_store :
        Found (State P) → Write (State P) → Option (Store (State P) × Option Error)
    new_store no_file disk =
        opened_with (change (record { current = fresh; file = none }) (λ st. st) disk)
    new_store unreadable disk = none
    new_store (holds st) disk =
        opened_with (change (record { current = repaired st; file = some st }) (λ x. x) disk)
