-- ===== src/ProxyGroups/Tests.antt =====
-- internal/proxygroups/store.go: runs on small settings.
use trust_proxy.Base.{String, Bool, true, List, [], ◌∷◌, Option, none, some, ◌≡◌, refl}
use trust_proxy.Base.Int.{pos}
use trust_proxy.Base.Text.{to_lower, to_upper, trim_space, equal_fold}
use trust_proxy.ListStore.{Store, holds, mutate, wrote, failed}
use trust_proxy.ProxyGroups.{
  Group, Failover, no_failover, Config, duplicate, validate_failover, validate_group,
  normalize_codes, codes_from, is_code, valid_type, valid_filter, interval, idle_timeout,
  default_exclude_countries,
}
use trust_proxy.ProxyGroups.Settings.{kept_groups, sanitize, open_store, check_groups, check, set}
use trust_proxy.ProxyGroups.History.{sets, open_sets-IsSound}
use trust_proxy.ProxyGroups.Soundness.{IsSound}
use trust_proxy.ProxyScore.Config as Scoring

abbrev balanced : String → Bool
balanced s = true

abbrev by_country : String → String → Group
by_country name code = record {
  name = name;
  kind = "select";
  filter = "country";
  value = code;
  nodes = [];
}

abbrev hasty : Failover
hasty = record no_failover { probe_interval_seconds = pos 5 }

abbrev with_groups : Option (List String) → List Group → Failover → Config
with_groups codes gs f = record {
  auto_country = true;
  exclude_countries = codes;
  groups = gs;
  failover = f;
  scoring = Scoring.unset;
}

-- A file with a name that is there twice, a name that is reserved and a probe every 5 seconds.
abbrev edited : Config
edited =
    with_groups none
      (by_country " Japan " "jp" ∷ by_country "JAPAN" "JP" ∷ by_country "Auto" "US" ∷ []) hasty

abbrev repaired : Config
repaired = with_groups (some default_exclude_countries) (by_country "Japan" "JP" ∷ []) no_failover

abbrev opened : Store Config
opened = record { current = repaired; file = some repaired }

abbrev asked : Config
asked = with_groups (some ("hk" ∷ " HK" ∷ "usa" ∷ [])) (by_country "US" "us" ∷ []) no_failover

opens : open_store balanced (holds edited) wrote ≡ some opened
unfolding open_store sanitize kept_groups mutate validate_group validate_failover normalize_codes
    codes_from is_code interval idle_timeout valid_type valid_filter Scoring.validate
    Scoring.check_ranges Scoring.first_true Scoring.first_negative Scoring.or_default to_lower
    to_upper trim_space equal_fold
opens = refl

replaces :
    (set balanced opened asked wrote).1
    ≡ with_groups (some ("HK" ∷ [])) (by_country "US" "US" ∷ []) no_failover
unfolding set check check_groups mutate validate_group validate_failover normalize_codes codes_from
    is_code interval idle_timeout valid_type valid_filter Scoring.validate Scoring.check_ranges
    Scoring.first_true Scoring.first_negative Scoring.or_default to_lower to_upper trim_space
    equal_fold
replaces = refl

refuses : (set balanced opened edited wrote).2 ≡ some (duplicate "JAPAN")
unfolding set check check_groups mutate validate_group valid_type valid_filter to_lower to_upper
    trim_space equal_fold
refuses = refl

open_sets-IsSound_example :
    IsSound balanced
      (sets balanced ((asked, wrote) ∷ (edited, wrote) ∷ (asked, failed none) ∷ []) opened).current
open_sets-IsSound_example =
    open_sets-IsSound balanced (holds edited) wrote opened
      ((asked, wrote) ∷ (edited, wrote) ∷ (asked, failed none) ∷ []) opens
