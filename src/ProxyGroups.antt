-- ===== src/ProxyGroups.antt =====
-- internal/proxygroups/store.go: the groups of exits, the tuning of their failover and the settings of
-- the scores, which are checked before they are kept. Whether a regular expression compiles is a
-- parameter. Letters beyond ASCII have no case here.
pub mod Settings
pub mod Bounds
pub mod Laws
pub mod Soundness
pub mod History
mod Tests
use Prim.Native.Char.{Char, code}
use trust_proxy.Base.{
  ℕ, zero, suc, ◌+◌, ◌-◌, String, Bool, true, false, List, [], ◌∷◌, Option, none, some, ◌==◌, not,
  ◌&&◌, ◌||◌, if◌then◌else◌, ltb, leb, nat_eq, any, is_empty, length, Result, ok, err,
}
use trust_proxy.Base.Int.{ℤ, pos, negsuc, is_negative, exceeds, pos_part}
use trust_proxy.Base.Text.{trim_space, to_upper, to_lower, equal_fold}
use trust_proxy.ProxyScore.Config as Scoring

pub record Group : Type 0 where
  pub name : String
  pub kind : String
  pub filter : String
  pub value : String
  pub nodes : List String

pub record Failover : Type 0 where
  pub probe_interval_seconds : ℤ
  pub tolerance_ms : ℤ
  pub idle_timeout_seconds : ℤ
  pub interrupt_existing_connections : Bool

-- `exclude_countries` is `none` for the nil of an older file, or of a caller that leaves it out.
pub record Config : Type 0 where
  pub auto_country : Bool
  pub exclude_countries : Option (List String)
  pub groups : List Group
  pub failover : Failover
  pub scoring : Scoring.Config

pub data Error : Type 0 where
  no_name : Error
  reserved : String → Error
  bad_type : String → Error
  bad_filter : String → Error
  bad_regex : String → Error
  no_country : String → Error
  no_nodes : String → Error
  duplicate : String → Error
  negative_failover : Error
  short_interval : Error
  wide_tolerance : Error
  interval_order : ℕ → ℕ → Error
  bad_scoring : Scoring.Fault → Error
  save_failed : Error

abbrev pub contains : List String → String → Bool
contains list v = any (λ x. x == v) list

abbrev pub default_exclude_countries : List String
default_exclude_countries = "HK" ∷ "MO" ∷ "CN" ∷ []

unfoldable pub interval : Failover → ℕ
unfolding Scoring.or_default
interval f = Scoring.or_default f.probe_interval_seconds 30

unfoldable pub tolerance : Failover → ℕ
unfolding Scoring.or_default
tolerance f = Scoring.or_default f.tolerance_ms 150

unfoldable pub idle_timeout : Failover → ℕ
unfolding Scoring.or_default
idle_timeout f = Scoring.or_default f.idle_timeout_seconds 1800

abbrev pub no_failover : Failover
no_failover = record {
  probe_interval_seconds = pos 0;
  tolerance_ms = pos 0;
  idle_timeout_seconds = pos 0;
  interrupt_existing_connections = false;
}

unfoldable pub validate_failover : Failover → Option Error
unfolding interval idle_timeout
validate_failover f =
    if is_negative f.probe_interval_seconds
      || is_negative f.tolerance_ms
      || is_negative f.idle_timeout_seconds
    then some negative_failover
    else if exceeds f.probe_interval_seconds 0 && not (exceeds f.probe_interval_seconds 9)
    then some short_interval
    else if exceeds f.tolerance_ms 60000
    then some wide_tolerance
    else if ltb (idle_timeout f) (interval f)
    then some (interval_order (interval f) (idle_timeout f))
    else none

-- Two letters from A to Z.
abbrev pub is_capital : Char → Bool
is_capital c = leb b'A' (code c) && leb (code c) b'Z'

unfoldable pub is_code : String → Bool
is_code (String.◌∷◌ c (String.◌∷◌ d String.[])) = is_capital c && is_capital d
is_code s = false

-- The loop of normalizeCodes, with the codes that were seen.
unfoldable pub codes_from : List String → List String → List String
unfolding is_code to_upper trim_space
codes_from seen [] = []
codes_from seen (c ∷ cs) =
    let u = to_upper (trim_space c) in
    let skipped = not (is_code u) || contains seen u in
    let rest = codes_from (if skipped then seen else u ∷ seen) cs in
    if skipped then rest else u ∷ rest

unfoldable pub normalize_codes : List String → List String
unfolding codes_from
normalize_codes cs = codes_from [] cs

unfoldable pub valid_type : String → Bool
valid_type t = t == "select" || t == "urltest"

unfoldable pub valid_filter : String → Bool
valid_filter f = f == "country" || f == "regex" || f == "manual"

abbrev pub reserved_names : List String
reserved_names = "proxy" ∷ "auto" ∷ "direct" ∷ "blocked" ∷ []

abbrev pub trimmed : Group → Group
trimmed g = record g {
  name = trim_space g.name;
  kind = trim_space g.kind;
  filter = trim_space g.filter;
  value = trim_space g.value;
}

module _ (compiles : String → Bool) where
  abbrev pub check_filter : Group → Result Error Group
  check_filter g =
      if g.filter == "regex"
      then if compiles g.value then ok g else err (bad_regex g.name)
      else if g.filter == "country"
      then if g.value == ""
        then err (no_country g.name)
        else ok (record g { value = to_upper g.value })
      else if is_empty g.nodes
      then err (no_nodes g.name)
      else ok g

  abbrev pub check_trimmed : Group → Result Error Group
  check_trimmed g =
      if g.name == ""
      then err no_name
      else if any (λ r. equal_fold g.name r) reserved_names
      then err (reserved g.name)
      else if not (valid_type g.kind)
      then err (bad_type g.name)
      else if not (valid_filter g.filter)
      then err (bad_filter g.name)
      else check_filter g

  -- validateGroup: the group in its normal form, or what is wrong with it.
  unfoldable pub validate_group : Group → Result Error Group
  unfolding trim_space to_upper equal_fold valid_type valid_filter
  validate_group g = check_trimmed (trimmed g)
