-- ===== src/Posture/Returns.antt =====
-- internal/api/posture.go: what a switch, and a switch and the way back, leave of the live policy.
use trust_proxy.Base.{
  subst, sym, none, String, Bool, true, false, List, [], ◌∷◌, Option, some, ◌≡◌, refl, ap, ◌∙◌,
  ◌||◌, Bool-cases, inl, inr, if◌then◌else◌,
}
use trust_proxy.ListStore.{Store, Write, wrote, mutate}
use trust_proxy.Gateway.RuleSets.{RuleSet}
use trust_proxy.Posture.{Slot, State, slot_at, assign, put_slot, set_active, slot}
use trust_proxy.ProxyGroups.{Config as Groups}
use trust_proxy.Posture.Live.{
  align_live_stores, keep_machine_fields, copied, set_groups, Disks, Policy, Stores,
  snapshot_live_policy, apply_slot,
}
use trust_proxy.Posture.Laws.{IsFinal, snapshot-apply_slot}
use trust_proxy.Posture.Switch.{World, Env, any_changed, set_posture, seeded_or, resolved, is_put}

module _ (D : Type 0) (compiles : String → Bool)
    (set_dns : Store D → D → Write D → Store D × Bool) where
  -- A policy whose proxy groups, DNS and final route their stores take as they are.
  pub record IsTaken (p : Policy D) : Type 0 where
    pub g : Groups
    pub d : D
    pub groups : p.groups ≡ some g
    pub dns : p.dns ≡ some d
    pub groups_taken :
        (s : Store Groups) (w : Write Groups)
        → copied (set_groups compiles s (copied g) w).0.current ≡ g
    pub dns_taken : (s : Store D) (w : Write D) → (set_dns s d w).0.current ≡ d
    pub final : IsFinal p.final

  pub applied :
      (disks : Disks D) (p : Policy D) (s : Stores D)
      → IsTaken p
      → snapshot_live_policy D (apply_slot D compiles set_dns true disks p s).0 ≡ p
  applied disks p s t =
      snapshot-apply_slot D compiles set_dns disks p s t.g t.d t.groups t.dns
        (t.groups_taken s.pg disks.pg) (t.dns_taken s.dns disks.dns) t.final

  module _ (empty seed : Policy D) (resolve : List RuleSet → List RuleSet) where
    some_injective : (x y : D) → some x ≡ some y → x ≡ y
    some_injective x y e = cc

    -- A call in which the posture file is written, and the data plane starts or not.
    abbrev pub call : Bool → Disks D → Env D
    call starts disks = record {
      put_leaving = wrote;
      put_target = wrote;
      put_active = wrote;
      starts = starts;
      restarts = true;
      disks = disks;
      rollback_disks = disks;
    }

    abbrev pub world :
        String
        → String
        → Slot (Policy D)
        → Slot (Policy D)
        → Option (State (Policy D))
        → Stores D
        → World D
    world running active strict split file s = record {
      posture = record {
        current = record { active = active; slots = ("strict", strict) ∷ ("split", split) ∷ [] };
        file = file;
      };
      stores = s;
      running = running;
    }

    abbrev pub switch : Env D → World D → String → World D
    switch env w target = (set_posture D compiles set_dns empty seed resolve env w target).0

    abbrev pub two : String → Slot (Policy D) → Slot (Policy D) → Option (State (Policy D))
    two active strict split =
        some (record { active = active; slots = ("strict", strict) ∷ ("split", split) ∷ [] })

    pub to_strict :
        (disks : Disks D) (active : String) (a b : Slot (Policy D))
        (file : Option (State (Policy D))) (s : Stores D)
        → let kept : Slot (Policy D) = record {
          policy = snapshot_live_policy D s;
          seeded = b.seeded;
        } in
          switch (call true disks) (world "split" active a b file s) "strict"
          ≡ world "strict" "strict" a kept
              (two "strict" a kept)
              (apply_slot D compiles set_dns true disks a.policy s).0
    unfolding set_posture put_slot slot slot_at assign set_active mutate apply_slot
    to_strict disks active a b file s = refl

    pub to_split :
        (disks : Disks D) (active : String) (a b : Slot (Policy D))
        (file : Option (State (Policy D))) (s : Stores D)
        → let b' = seeded_or D compiles set_dns empty seed resolve b in
          let saved : Slot (Policy D) = record {
            policy = snapshot_live_policy D s;
            seeded = false;
          } in
          let t = resolved D compiles set_dns empty seed resolve b' in
          (switch (call true disks) (world "strict" active a b file s) "split") ≡ (
            if is_put D compiles set_dns empty seed resolve b'
            then world "split" "split" saved t
                (two "split" saved t)
                (apply_slot D compiles set_dns true disks t.policy s).0
            else world "split" "split" saved b
                (two "split" saved b)
                (apply_slot D compiles set_dns true disks t.policy s).0)
    unfolding set_posture put_slot slot slot_at assign set_active mutate apply_slot
    to_split disks active a b file s =
        elim (Bool-cases (
          is_put D compiles set_dns empty seed resolve
            (seeded_or D compiles set_dns empty seed resolve b))) [
              | inl e ↦ rw (e, e)
              | inr e ↦ rw (e, e)
            ]

    back_from :
        (disks : Disks D) (a b : Slot (Policy D)) (file : Option (State (Policy D)))
        (s edited : Stores D)
        → IsTaken a.policy
        → snapshot_live_policy D
            (switch
              (call true disks)
              (record (world "split" "split" a b file s) { stores = edited })
              "strict").stores
          ≡ a.policy
    back_from disks a b file s edited taken =
        ap (λ w. snapshot_live_policy D w.stores) (to_strict disks "split" a b file edited)
        ∙ applied disks a.policy edited taken

    -- Strict and Split do not contaminate each other: where the data plane starts and the posture file is
    -- written both times, switching
    -- from Strict to Split, changing the live stores there in any way, and switching back gives the
    -- live policy that there was under Strict, provided that its own stores take it whatever they
    -- hold. That of the proxy groups does not where no country is excluded.
    pub switch_back_restores :
        (there back : Disks D) (active : String) (a b : Slot (Policy D))
        (file : Option (State (Policy D))) (s edited : Stores D)
        → IsTaken (snapshot_live_policy D s)
        → let w1 = switch (call true there) (world "strict" active a b file s) "split" in
          snapshot_live_policy D
            (switch (call true back) (record w1 { stores = edited }) "strict").stores
          ≡ snapshot_live_policy D s
    switch_back_restores there back active a b file s edited taken =
        rw (to_split there active a b file s)
          (elim (Bool-cases (
            is_put D compiles set_dns empty seed resolve
              (seeded_or D compiles set_dns empty seed resolve b))) [
                | inl e ↦ rw e (back_from back _ _ _ edited edited taken)
                | inr e ↦ rw e (back_from back _ _ _ edited edited taken)
              ])

    abbrev pub reseeded : Policy D
    reseeded = record seed { rule_sets = resolve seed.rule_sets }

    -- The seed, which has no DNS, with a DNS.
    abbrev pub seed_over : D → Policy D
    seed_over d = record reseeded { dns = some d }

    apply_slot_live :
        (disks : Disks D) (s : Stores D)
        → seed.dns ≡ none
        → apply_slot D compiles set_dns true disks reseeded s
          ≡ apply_slot D compiles set_dns true disks (seed_over s.dns.current) s
    unfolding apply_slot
    apply_slot_live disks s no_dns = rw no_dns

    -- Where no source changes, the seed is applied, over the DNS that is live.
    seed_applied :
        (disks : Disks D) (active : String) (a b : Slot (Policy D))
        (file : Option (State (Policy D))) (s : Stores D) (d : D)
        → b.seeded ≡ false
        → seed.dns ≡ none
        → s.dns.current ≡ d
        → IsTaken (seed_over d)
        → snapshot_live_policy D
            (switch (call true disks) (world "strict" active a b file s) "split").stores
          ≡ seed_over d
    seed_applied disks active a b file s d unseeded no_dns live taken =
        let done =
          ap (λ r. snapshot_live_policy D r.0) (apply_slot_live disks s no_dns)
          ∙ ap
              (λ e.
                snapshot_live_policy D (apply_slot D compiles set_dns true disks (seed_over e) s).0)
              live
          ∙ applied disks (seed_over d) s taken in
        rw (to_split disks active a b file s, unseeded)
          (elim (Bool-cases (any_changed seed.rule_sets (resolve seed.rule_sets) || false)) [
            | inl e ↦ rw e done
            | inr e ↦ rw e done
          ])

    apply_slot-dns :
        (disks : Disks D) (p : Policy D) (s : Stores D) (d : D)
        → p.dns ≡ some d
        → ((t : Store D) (w : Write D) → (set_dns t d w).0.current ≡ d)
        → (apply_slot D compiles set_dns true disks p s).0.dns.current ≡ d
    unfolding apply_slot align_live_stores keep_machine_fields
    apply_slot-dns disks p s d e taken = rw e (taken s.dns disks.dns)

    not_put :
        (b : Slot (Policy D))
        → b.seeded ≡ false
        → any_changed seed.rule_sets (resolve seed.rule_sets) ≡ false
        → is_put D compiles set_dns empty seed resolve
            (seeded_or D compiles set_dns empty seed resolve b)
          ≡ false
    not_put b unseeded reachable = rw (unseeded, reachable)

    -- The Split slot is marked as seeded only if a source of its rule sets changes on this machine. If
    -- none does, the changes that are made under Split, whatever they are, are gone after a switch to
    -- Strict and back: the live policy is then the seed again, over the DNS that Strict had, provided
    -- that the stores take that policy, and that the data plane starts and the posture file is written
    -- each time. The seed has no DNS, as that of SeedSplit.
    pub split_edits_lost :
        (d1 d2 d3 : Disks D) (active : String) (a b : Slot (Policy D))
        (file : Option (State (Policy D))) (s edited : Stores D)
        → b.seeded ≡ false
        → seed.dns ≡ none
        → any_changed seed.rule_sets (resolve seed.rule_sets) ≡ false
        → IsTaken (seed_over s.dns.current)
        → let w1 = switch (call true d1) (world "strict" active a b file s) "split" in
          let w2 = switch (call true d2) (record w1 { stores = edited }) "strict" in
          snapshot_live_policy D (switch (call true d3) w2 "split").stores ≡ seed_over s.dns.current
    unfolding snapshot_live_policy
    split_edits_lost d1 d2 d3 active a b file s edited unseeded no_dns reachable taken =
        let saved : Slot (Policy D) = record {
          policy = snapshot_live_policy D s;
          seeded = false;
        } in
        let shown =
          (apply_slot D compiles set_dns true d1
            (resolved D compiles set_dns empty seed resolve
              (seeded_or D compiles set_dns empty seed resolve b)).policy
            s).0 in
        let w1 : switch (call true d1) (world "strict" active a b file s) "split"
            ≡ world "split" "split" saved b (two "split" saved b) shown =
          to_split d1 active a b file s ∙ rw (not_put b unseeded reachable) refl in
        let w2 =
          ap (λ w. switch (call true d2) (record w { stores = edited }) "strict") w1
          ∙ to_strict d2 "split" saved b (two "split" saved b) edited in
        let same : taken.d ≡ s.dns.current = sym (some_injective s.dns.current taken.d taken.dns) in
        let dns = apply_slot-dns d2 saved.policy edited s.dns.current refl (
          subst (λ d. (t : Store D) (w : Write D) → (set_dns t d w).0.current ≡ d) same
            taken.dns_taken) in
        ap (λ w. snapshot_live_policy D (switch (call true d3) w "split").stores) w2
        ∙ seed_applied d3 "strict" saved _ _ _ s.dns.current unseeded no_dns dns taken
