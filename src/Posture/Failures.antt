-- ===== src/Posture/Failures.antt =====
-- internal/api/posture.go: what a switch on which the data plane does not start leaves.
use trust_proxy.Base.{String, Bool, true, false, List, Option, ◌≡◌, refl}
use trust_proxy.ListStore.{Store, Write, mutate}
use trust_proxy.Gateway.RuleSets.{RuleSet}
use trust_proxy.Posture.{Slot, State, slot_at, assign, put_slot, set_active, slot}
use trust_proxy.Posture.Live.{Disks, Policy, Stores, snapshot_live_policy, apply_slot}
use trust_proxy.Posture.Switch.{Env, any_changed, set_posture, unchanged, is_put}
use trust_proxy.Posture.Returns.{call, world, switch, two, reseeded}

module _ (D : Type 0) (compiles : String → Bool) (set_dns : Store D → D → Write D → Store D × Bool)
    (empty seed : Policy D) (resolve : List RuleSet → List RuleSet) where
  failed_seed :
      (disks : Disks D) (active : String) (a : Slot (Policy D)) (q : Policy D)
      (file : Option (State (Policy D))) (s : Stores D)
      → any_changed seed.rule_sets (resolve seed.rule_sets) ≡ true
      → let t : Slot (Policy D) = record {
        policy = (reseeded D compiles set_dns empty seed resolve);
        seeded = true;
      } in
        switch D compiles set_dns empty seed resolve
          (call D compiles set_dns empty seed resolve false disks)
          (world D compiles set_dns empty seed resolve "split" active a
            (record { policy = q; seeded = false })
            file
            s)
          "split"
        ≡ world D compiles set_dns empty seed resolve "split" active a t
            (two D compiles set_dns empty seed resolve active a t)
            (apply_slot D compiles set_dns true disks (snapshot_live_policy D s) s).0
  unfolding set_posture put_slot slot slot_at assign set_active mutate apply_slot
  failed_seed disks active a q file s changed =
      let e : is_put D compiles set_dns empty seed resolve (record { policy = seed; seeded = true })
          ≡ true =
        rw changed in
      rw (e, e)

  already_split :
      (env : Env D) (active : String) (a : Slot (Policy D)) (q : Policy D)
      (file : Option (State (Policy D))) (s : Stores D)
      → let w =
          world D compiles set_dns empty seed resolve "split" active a
            (record { policy = q; seeded = true })
            file
            s in
        set_posture D compiles set_dns empty seed resolve env w "split"
        ≡ (w, unchanged "split" true)
  unfolding set_posture slot slot_at
  already_split env active a q file s = refl

  -- Where Split runs and is not seeded, and the data plane does not start on the seed, of which a
  -- source has changed, a second attempt changes nothing and answers that Split is seeded.
  pub failed_seed_is_kept :
      (env : Env D) (disks : Disks D) (active : String) (a : Slot (Policy D)) (q : Policy D)
      (file : Option (State (Policy D))) (s : Stores D)
      → any_changed seed.rule_sets (resolve seed.rule_sets) ≡ true
      → let w1 =
          switch D compiles set_dns empty seed resolve
            (call D compiles set_dns empty seed resolve false disks)
            (world D compiles set_dns empty seed resolve "split" active a
              (record { policy = q; seeded = false })
              file
              s)
            "split" in
        set_posture D compiles set_dns empty seed resolve env w1 "split"
        ≡ (w1, unchanged "split" true)
  failed_seed_is_kept env disks active a q file s changed =
      rw (failed_seed disks active a q file s changed)
        (already_split env active a (reseeded D compiles set_dns empty seed resolve) _ _)
