-- ===== src/Posture/Switch.antt =====
-- internal/api/posture.go: handleSetPosture. `seed` is the policy of posture.SeedSplit and `resolve`
-- what ruleset.ResolveSourcesWith makes of the rule sets on this machine. The data plane keeps running
-- what it ran where it does not start on a new policy. The mode of the Clash API and the rendering of
-- the reply are left out.
-- Go draws the order of the seed's rule sets at each call; here it is one order.
use trust_proxy.Base.{
  String, Bool, true, false, List, [], ◌∷◌, Option, none, some, ◌==◌, ◌&&◌, ◌||◌, not,
  if◌then◌else◌,
}
use trust_proxy.ListStore.{Store, Write}
use trust_proxy.Gateway.RuleSets.{RuleSet}
use trust_proxy.Posture.{Slot, State, Error, valid_posture, slot, put_slot, set_active}
use trust_proxy.Posture.Live.{Disks, Policy, Stores, snapshot_live_policy, apply_slot}

-- Whether a set has another source, or is on where it was off.
abbrev differs_at : RuleSet → RuleSet → Bool
differs_at a b = not (a.url == b.url) || not (if a.enabled then b.enabled else not b.enabled)

abbrev pub any_changed : List RuleSet → List RuleSet → Bool
any_changed [] bs = false
any_changed (a ∷ as') [] = false
any_changed (a ∷ as') (b ∷ bs) = differs_at b a || any_changed as' bs

module _ (D : Type 0) where
  pub record World : Type 0 where
    pub posture : Store (State (Policy D))
    pub stores : Stores D
    -- The posture that the data plane runs.
    pub running : String

  -- What the environment does in one call: the writes of the posture file, whether the data plane
  -- starts on the new policy, and on the old one again, and the writes of the stores.
  pub record Env : Type 0 where
    pub put_leaving : Write (State (Policy D))
    pub put_target : Write (State (Policy D))
    pub put_active : Write (State (Policy D))
    pub starts : Bool
    pub restarts : Bool
    pub disks : Disks D
    pub rollback_disks : Disks D

  pub data Reply : Type 0 where
    bad_posture not_saved not_started : Reply
    unchanged : String → Bool → Reply
    switched : String → Bool → List String → Reply

  module _ (compiles : String → Bool) (set_dns : Store D → D → Write D → Store D × Bool)
      (empty seed : Policy D) (resolve : List RuleSet → List RuleSet) where
    abbrev pub slot_of : World → String → Slot (Policy D)
    slot_of w name = slot empty w.posture name

    -- 1) The live policy into the slot that is left; a snapshot is not marked as seeded.
    abbrev pub leaving : World → String → Slot (Policy D)
    leaving w from = record {
      policy = snapshot_live_policy D w.stores;
      seeded = if from == "split" then (slot_of w "split").seeded else false;
    }

    abbrev pub seeded_or : Slot (Policy D) → Slot (Policy D)
    seeded_or t = if t.seeded then t else record { policy = seed; seeded = true }

    abbrev pub resolved : Slot (Policy D) → Slot (Policy D)
    resolved t = record t { policy = record t.policy { rule_sets = resolve t.policy.rule_sets } }

    -- Whether the slot is put again: if a source changed, or it is not seeded, which it is by now.
    abbrev pub is_put : Slot (Policy D) → Bool
    is_put t = any_changed t.policy.rule_sets (resolve t.policy.rule_sets) || not t.seeded

    -- 2) The slot to apply, and the posture store.
    abbrev pub target_slot :
        Env
        → String
        → Store (State (Policy D))
        → Slot (Policy D)
        → Slot (Policy D) × (Store (State (Policy D)) × Option Error)
    target_slot env target store found =
        let seeded = seeded_or found in
        if target == "split"
        then (
          resolved seeded,
          if is_put seeded
              then put_slot store "split" (resolved seeded) env.put_target
              else (store, none),
        )
        else (found, (store, none))

    abbrev pub finish :
        Env
        → World
        → String
        → String
        → Stores D × Option (List String)
        → Store (State (Policy D))
        → World × Reply
    finish env w from target (stores, none) store =
        let back =
          apply_slot D compiles set_dns env.restarts env.rollback_disks
            (snapshot_live_policy D w.stores) stores in
        (record { posture = store; stores = back.0; running = w.running }, not_started)
    finish env w from target (stores, some diverged) store =
        let store' = (set_active store target env.put_active).0 in
        let w' : World = record { posture = store'; stores = stores; running = target } in
        (w', switched target (slot_of w' "split").seeded diverged)

    abbrev pub apply_target :
        Env
        → World
        → String
        → String
        → Slot (Policy D) × (Store (State (Policy D)) × Option Error)
        → World × Reply
    apply_target env w from target (t, (store, some e)) = (record w { posture = store }, not_saved)
    apply_target env w from target (t, (store, none)) =
        finish env w from target
          (apply_slot D compiles set_dns env.starts env.disks t.policy w.stores) store

    abbrev pub after_leaving :
        Env → World → String → String → Store (State (Policy D)) × Option Error → World × Reply
    after_leaving env w from target (store, some e) = (record w { posture = store }, not_saved)
    after_leaving env w from target (store, none) =
        apply_target env w from target (target_slot env target store (slot empty store target))

    abbrev pub from_of : World → String
    from_of w = if valid_posture w.running then w.running else w.posture.current.active

    abbrev pub switch_from : Env → World → String → String → World × Reply
    switch_from env w from target =
        if target == from && (not (target == "split") || (slot_of w "split").seeded)
        then (w, unchanged from (slot_of w "split").seeded)
        else after_leaving env w from target
            (put_slot w.posture from (leaving w from) env.put_leaving)

    unfoldable pub set_posture : Env → World → String → World × Reply
    set_posture env w target =
        if valid_posture target then switch_from env w (from_of w) target else (w, bad_posture)
