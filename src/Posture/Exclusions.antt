-- ===== src/Posture/Exclusions.antt =====
-- internal/api/posture.go over internal/proxygroups/store.go: what becomes of an empty list of excluded
-- countries.
use trust_proxy.Base.{
  String, Bool, true, false, List, [], Option, none, some, ◌≡◌, ap, ◌∙◌, ok, Bool-cases, inl, inr,
}
use trust_proxy.ListStore.{Store, Write, mutate}
use trust_proxy.Gateway.RuleSets.{RuleSet}
use trust_proxy.ProxyGroups.{Group, Config as Groups, normalize_codes}
use trust_proxy.ProxyGroups.Settings.{set, check, codes_of}
use trust_proxy.Posture.{Slot, State}
use trust_proxy.Posture.Live.{
  Disks, Policy, Stores, copied, copied_codes, snapshot_live_policy, align_live_stores,
  keep_machine_fields, apply_slot,
}
use trust_proxy.Posture.Switch.{seeded_or, is_put}
use trust_proxy.Posture.Returns.{call, world, switch, to_split, to_strict}

-- Set without excluded countries keeps those that it has.
set-unset :
    (compiles : String → Bool) (s : Store Groups) (c : Groups) (disk : Write Groups)
    (gs : List Group)
    → c.exclude_countries ≡ none
    → check compiles c ≡ ok gs
    → (set compiles s c disk).0.current.exclude_countries
      ≡ some (normalize_codes (codes_of s.current.exclude_countries))
unfolding set mutate
set-unset compiles s c disk gs e good = rw (good, e)

module _ (D : Type 0) (compiles : String → Bool) (set_dns : Store D → D → Write D → Store D × Bool)
    (empty seed : Policy D) (resolve : List RuleSet → List RuleSet) where
  applied_codes :
      (disks : Disks D) (s edited : Stores D) (gs : List Group)
      → s.pg.current.exclude_countries ≡ some []
      → check compiles s.pg.current ≡ ok gs
      → (apply_slot D compiles set_dns true disks
          (snapshot_live_policy D s)
          edited).0.pg.current.exclude_countries
        ≡ some (normalize_codes (codes_of edited.pg.current.exclude_countries))
  unfolding apply_slot align_live_stores snapshot_live_policy keep_machine_fields check
  applied_codes disks s edited gs e good =
      set-unset compiles edited.pg (copied (copied s.pg.current)) disks.pg gs
        (ap (λ o. copied_codes (copied_codes o)) e) good

  -- An explicit choice to exclude no country does not survive the other posture: where Strict excludes
  -- none and its proxy groups validate, the data plane starts and the posture file is written both
  -- times, and the stores are changed in
  -- any way under Split, Strict excludes after the way back the countries that were excluded under
  -- Split, in their normal form.
  pub exclusions_leak :
      (there back : Disks D) (active : String) (a b : Slot (Policy D))
      (file : Option (State (Policy D))) (s edited : Stores D) (gs : List Group)
      → s.pg.current.exclude_countries ≡ some []
      → check compiles s.pg.current ≡ ok gs
      → let env = call D compiles set_dns empty seed resolve true in
        let w1 =
          switch D compiles set_dns empty seed resolve
            (env there)
            (world D compiles set_dns empty seed resolve "strict" active a b file s)
            "split" in
        (switch D compiles set_dns empty seed resolve
          (env back)
          (record w1 { stores = edited })
          "strict").stores.pg.current.exclude_countries
        ≡ some (normalize_codes (codes_of edited.pg.current.exclude_countries))
  exclusions_leak there back active a b file s edited gs e good =
      let back_from = λ (x : Slot (Policy D)) (f : Option (State (Policy D))).
        ap (λ w. w.stores.pg.current.exclude_countries)
          (to_strict D compiles set_dns empty seed resolve back "split"
            (record { policy = snapshot_live_policy D s; seeded = false }) x f edited)
        ∙ applied_codes back s edited gs e good in
      rw (to_split D compiles set_dns empty seed resolve there active a b file s)
        (elim (Bool-cases (
          is_put D compiles set_dns empty seed resolve
            (seeded_or D compiles set_dns empty seed resolve b))) [
              | inl put ↦ rw put (back_from _ _)
              | inr not_put ↦ rw not_put (back_from _ _)
            ])
