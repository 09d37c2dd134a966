-- ===== src/Posture/Tests.antt =====
-- The theorems on posture at small stores; DNS is a number.
use trust_proxy.Base.{[], ◌∷◌, ok, ℕ, true, false, none, some, ◌≡◌, refl}
use trust_proxy.Posture.Live.{snapshot_live_policy, apply_slot}
use trust_proxy.Posture.Laws.{apply_slot_keeps_machine, snapshot-apply_slot}
use trust_proxy.Posture.Switch.{set_posture, unchanged}
use trust_proxy.Posture.Returns.{call, world, switch, switch_back_restores, split_edits_lost}
use trust_proxy.ProxyGroups.{validate_failover, interval, idle_timeout, normalize_codes}
use trust_proxy.ProxyGroups.Settings.{check, check_groups, set as set_config}
use trust_proxy.ProxyScore.Config as Scoring
use trust_proxy.Posture.Exclusions.{exclusions_leak}
use trust_proxy.Posture.Failures.{failed_seed_is_kept}
use trust_proxy.Posture.Samples.{
  balanced, excluding, seed, seed-IsTaken, open_stores, take_any, policy, stores, disks,
  direct-IsFinal, same, off, live-IsTaken, slot_of,
}

valid_groups : check balanced (excluding []) ≡ ok []
unfolding check check_groups validate_failover interval idle_timeout Scoring.validate
    Scoring.check_ranges Scoring.first_true Scoring.first_negative Scoring.or_default
valid_groups = refl

apply_slot_keeps_machine_example :
    (apply_slot ℕ balanced take_any true disks
      (policy "a.com")
      (stores "live.com")).0.dl.current.private_direct
    ≡ some false
apply_slot_keeps_machine_example =
    apply_slot_keeps_machine ℕ balanced take_any true disks (policy "a.com") (stores "live.com")

snapshot-apply_slot_example :
    snapshot_live_policy ℕ
      (apply_slot ℕ balanced take_any true disks (policy "a.com") (stores "live.com")).0
    ≡ policy "a.com"
unfolding set_config validate_failover Scoring.validate normalize_codes
snapshot-apply_slot_example =
    snapshot-apply_slot ℕ balanced take_any disks (policy "a.com") (stores "live.com")
      (excluding ("HK" ∷ [])) 2 refl refl refl refl direct-IsFinal

switch_back_restores_example :
    let w1 =
      switch ℕ balanced take_any
        (policy "")
        (policy "seed.com")
        same
        (call ℕ balanced take_any (policy "") (policy "seed.com") same true disks)
        (world ℕ balanced take_any
          (policy "")
          (policy "seed.com")
          same
          "strict"
          "strict"
          (slot_of "a.com" false)
          (slot_of "b.com" true)
          none
          (stores "live.com"))
        "split" in
    snapshot_live_policy ℕ
      (switch ℕ balanced take_any
        (policy "")
        (policy "seed.com")
        same
        (call ℕ balanced take_any (policy "") (policy "seed.com") same true disks)
        (record w1 { stores = stores "edited.com" })
        "strict").stores
    ≡ snapshot_live_policy ℕ (stores "live.com")
switch_back_restores_example =
    switch_back_restores ℕ balanced take_any (policy "") (policy "seed.com") same disks disks
      "strict" (slot_of "a.com" false) (slot_of "b.com" true) none (stores "live.com")
      (stores "edited.com") live-IsTaken

split_edits_lost_example :
    let env = call ℕ balanced take_any (policy "") seed same true disks in
    let w1 =
      switch ℕ balanced take_any
        (policy "")
        seed
        same
        env
        (world ℕ balanced take_any
          (policy "")
          seed
          same
          "strict"
          "strict"
          (slot_of "a.com" false)
          (slot_of "" false)
          none
          (stores "live.com"))
        "split" in
    let w2 =
      switch ℕ balanced take_any
        (policy "")
        seed
        same
        env
        (record w1 { stores = stores "edited.com" })
        "strict" in
    snapshot_live_policy ℕ (switch ℕ balanced take_any (policy "") seed same env w2 "split").stores
    ≡ record seed { dns = some 4 }
split_edits_lost_example =
    split_edits_lost ℕ balanced take_any (policy "") seed same disks disks disks "strict"
      (slot_of "a.com" false) (slot_of "" false) none (stores "live.com") (stores "edited.com") refl
      refl refl seed-IsTaken

exclusions_leak_example :
    let env = call ℕ balanced take_any (policy "") seed same true disks in
    let w1 =
      switch ℕ balanced take_any
        (policy "")
        seed
        same
        env
        (world ℕ balanced take_any
          (policy "")
          seed
          same
          "strict"
          "strict"
          (slot_of "a.com" false)
          (slot_of "b.com" true)
          none
          open_stores)
        "split" in
    (switch ℕ balanced take_any
      (policy "")
      seed
      same
      env
      (record w1 { stores = stores "edited.com" })
      "strict").stores.pg.current.exclude_countries
    ≡ some (normalize_codes ("CN" ∷ []))
exclusions_leak_example =
    exclusions_leak ℕ balanced take_any (policy "") seed same disks disks "strict"
      (slot_of "a.com" false) (slot_of "b.com" true) none open_stores (stores "edited.com") [] refl
      valid_groups

failed_seed_is_kept_example :
    let env = call ℕ balanced take_any (policy "") (policy "seed.com") off true disks in
    let w1 =
      switch ℕ balanced take_any
        (policy "")
        (policy "seed.com")
        off
        (call ℕ balanced take_any (policy "") (policy "seed.com") off false disks)
        (world ℕ balanced take_any
          (policy "")
          (policy "seed.com")
          off
          "split"
          "split"
          (slot_of "a.com" false)
          (slot_of "b.com" false)
          none
          (stores "live.com"))
        "split" in
    set_posture ℕ balanced take_any (policy "") (policy "seed.com") off env w1 "split"
    ≡ (w1, unchanged "split" true)
failed_seed_is_kept_example =
    failed_seed_is_kept ℕ balanced take_any (policy "") (policy "seed.com") off
      (call ℕ balanced take_any (policy "") (policy "seed.com") off true disks) disks "split"
      (slot_of "a.com" false) (policy "b.com") none (stores "live.com") refl
