-- ===== src/ProxyGroups/History.antt =====
-- internal/proxygroups/store.go: what holds of the settings, whatever the file held and whatever Set
-- was given.
use trust_proxy.Base.{
  String, Bool, true, false, List, [], ◌∷◌, some, ◌≡◌, refl, subst, ◌∙◌, ◌||◌, if◌then◌else◌,
  Result, ok, err, >>=-ok, ltb,
}
use trust_proxy.ListStore.{Store, Write, Found, no_file, unreadable, holds, mutate, wrote, failed}
use trust_proxy.ProxyGroups.{Group, Config, Error, validate_failover, is_code, normalize_codes}
use trust_proxy.ProxyGroups.Laws.{AreFresh}
use trust_proxy.ProxyGroups.Bounds.{validate_failover-IsSteady, is_code-IsCode}
use trust_proxy.ProxyScore.Config.Laws.{validate-IsBounded}
use trust_proxy.ProxyGroups.Settings.{
  sanitize, seed, open_store, check_groups, check, unless_error, scoring_error, set, set_checked,
  with_codes, codes_of, chosen_codes, as_file, replaced, written,
}
use trust_proxy.ProxyScore.Config as Scoring
use trust_proxy.ProxyGroups.Soundness.{
  codes_from-AreCodes, IsSound, check_groups-AreFresh, no_failover-valid, unset-valid,
  sanitize-IsSound, unless_error-ok, scoring_error-none,
}

module _ (compiles : String → Bool) where
  replaced-IsSound :
      (old c : Config) (out : List Group)
      → check compiles c ≡ ok out
      → IsSound compiles (replaced old c out)
  unfolding check normalize_codes
  replaced-IsSound old c out h =
      let (gs, h₁, groups) = >>=-ok _ (check_groups compiles [] c.groups) h in
      let (gs', h₂, first) = >>=-ok _ (unless_error (validate_failover c.failover) gs) h₁ in
      let (failover, same) = unless_error-ok compiles (validate_failover c.failover) gs gs' first in
      let (scoring, same') =
        unless_error-ok compiles (scoring_error (Scoring.validate c.scoring)) gs' out h₂ in
      record {
        groups =
            subst (AreFresh compiles []) (same ∙ same')
              (check_groups-AreFresh compiles [] c.groups gs groups);
        codes =
            codes_from-AreCodes []
              (codes_of (chosen_codes c.exclude_countries old.exclude_countries));
        failover = validate_failover-IsSteady _ failover;
        scoring =
            validate-IsBounded _ (scoring_error-none compiles (Scoring.validate c.scoring) scoring);
      }

  set-IsSound :
      (s : Store Config) (c : Config) (disk : Write Config)
      → IsSound compiles s.current
      → IsSound compiles (set compiles s c disk).0.current
  unfolding set mutate
  set-IsSound s c disk h = by_check (check compiles c) refl
    where
      by_check :
          (r : Result Error (List Group))
          → check compiles c ≡ r
          → IsSound compiles (set_checked s c disk r).0.current
      by_check (err e) bad = h
      by_check (ok out) good = replaced-IsSound s.current c out good

  same_store : (a b : Store Config) → some a ≡ some b → a ≡ b
  same_store a b e = cc

  opened-IsSound :
      (a s : Store Config)
      → IsSound compiles a.current
      → some a ≡ some s
      → IsSound compiles s.current
  opened-IsSound a s h e =
      subst (λ (x : Store Config). IsSound compiles x.current) (same_store a s e) h

  seed-IsSound : IsSound compiles (seed)
  unfolding is_code
  seed-IsSound = record {
    groups = tt;
    codes = (
      is_code-IsCode "HK" refl,
      refl,
      (is_code-IsCode "MO" refl, refl, (is_code-IsCode "CN" refl, refl, tt)),
    );
    failover = validate_failover-IsSteady _ (no_failover-valid compiles);
    scoring = validate-IsBounded _ (unset-valid compiles);
  }

  open_store-IsSound :
      (found : Found Config) (disk : Write Config) (s : Store Config)
      → open_store compiles found disk ≡ some s
      → IsSound compiles s.current
  unfolding open_store mutate
  open_store-IsSound no_file wrote s h = opened-IsSound (as_file (seed)) s seed-IsSound h
  open_store-IsSound no_file (failed left) s h = cc
  open_store-IsSound unreadable disk s h = cc
  open_store-IsSound (holds c) disk s h =
      opened-IsSound _ s (either (ltb 0 (sanitize compiles (with_codes c).0).1 || (with_codes c).1))
        h
    where
      cleaned : Config
      cleaned = (sanitize compiles (with_codes c).0).0

      either :
          (b : Bool)
          → IsSound compiles (
              let r : Store Config =
                if b
                then written (as_file c) cleaned disk
                else record { current = cleaned; file = some c } in
              r.current)
      either true = sanitize-IsSound compiles (with_codes c).0
      either false = sanitize-IsSound compiles (with_codes c).0

  -- Calls of Set, each with what becomes of its write.
  pub sets : List (Config × Write Config) → Store Config → Store Config
  sets [] s = s
  sets ((c, disk) ∷ rest) s = sets rest (set compiles s c disk).0

  sets-IsSound :
      (calls : List (Config × Write Config)) (s : Store Config)
      → IsSound compiles s.current
      → IsSound compiles (sets calls s).current
  unfolding sets
  sets-IsSound [] s h = h
  sets-IsSound ((c, disk) ∷ rest) s h =
      sets-IsSound rest (set compiles s c disk).0 (set-IsSound s c disk h)

  -- Whatever the file held when the store opened, whatever Set was given after that, refused or not,
  -- and whatever became of the writes: every group is usable and no two have one name, letter case
  -- aside; the excluded countries are two capital letters each and none twice; no field of the failover is
  -- negative, and in force are at least 10 seconds between probes, no more than the idle time, and a
  -- margin of a minute at most; and what is in force of the scores is within its bounds.
  pub open_sets-IsSound :
      (found : Found Config) (disk : Write Config) (s : Store Config)
      (calls : List (Config × Write Config))
      → open_store compiles found disk ≡ some s
      → IsSound compiles (sets calls s).current
  open_sets-IsSound found disk s calls h = sets-IsSound calls s (open_store-IsSound found disk s h)
