-- ===== src/ProxyScore/Config.antt =====
-- internal/proxyscore/config.go: the settings, what is in force where a field is left out, and which
-- settings are refused. A field is a Go int, so it may be negative; a field of 0 is left out.
pub mod Laws
pub mod Tests
use trust_proxy.Base.{
  ℕ, suc, zero, String, Bool, true, false, List, [], ◌∷◌, Option, none, some, if◌then◌else◌, leb,
  ltb, ◌&&◌, ◌||◌, ◌*◌,
}
use trust_proxy.Base.Int.{ℤ, pos, negsuc, is_negative, exceeds, ltb_ℤ}

pub record Config : Type 0 where
  pub disabled : Bool
  pub min_samples : ℤ
  pub weight_reliability : ℤ
  pub weight_latency : ℤ
  pub weight_throughput : ℤ
  pub reward_per_success : ℤ
  pub penalty_per_failure : ℤ
  pub max_streak : ℤ
  pub latency_good_ms : ℤ
  pub latency_bad_ms : ℤ
  pub throughput_good_kbps : ℤ
  pub tie_margin_points : ℤ
  pub breaker_failures : ℤ
  pub breaker_delay_seconds : ℤ
  pub breaker_successes : ℤ
  pub stale_hours : ℤ
  pub blackhole_streak : ℤ
  pub stream_stall_sec : ℤ
  pub stream_stall_min_upload : ℤ
  pub stream_stall_min_age_sec : ℤ

-- The zero value: all is left out.
abbrev pub unset : Config
unset = record {
  disabled = false;
  min_samples = pos 0;
  weight_reliability = pos 0;
  weight_latency = pos 0;
  weight_throughput = pos 0;
  reward_per_success = pos 0;
  penalty_per_failure = pos 0;
  max_streak = pos 0;
  latency_good_ms = pos 0;
  latency_bad_ms = pos 0;
  throughput_good_kbps = pos 0;
  tie_margin_points = pos 0;
  breaker_failures = pos 0;
  breaker_delay_seconds = pos 0;
  breaker_successes = pos 0;
  stale_hours = pos 0;
  blackhole_streak = pos 0;
  stream_stall_sec = pos 0;
  stream_stall_min_upload = pos 0;
  stream_stall_min_age_sec = pos 0;
}

unfoldable pub or_default : ℤ → ℕ → ℕ
or_default (pos zero) def = def
or_default (pos (suc n)) def = suc n
or_default (negsuc n) def = def

-- orDefault where a negative value turns the feature off.
unfoldable pub or_off : ℤ → ℕ → ℕ
unfolding or_default
or_off v def = if is_negative v then 0 else or_default v def

-- v <= 0
abbrev pub not_positive : ℤ → Bool
not_positive v = ltb_ℤ v (pos 1)

unfoldable pub zero_weights : Config → Bool
zero_weights c =
    not_positive c.weight_reliability
    && not_positive c.weight_latency
    && not_positive c.weight_throughput

unfoldable pub w_rel : Config → ℤ
unfolding zero_weights
w_rel c = if zero_weights c then pos 50 else c.weight_reliability

unfoldable pub w_lat : Config → ℤ
unfolding zero_weights
w_lat c = if zero_weights c then pos 30 else c.weight_latency

unfoldable pub w_tp : Config → ℤ
unfolding zero_weights
w_tp c = if zero_weights c then pos 20 else c.weight_throughput

abbrev pub min_samples_of : Config → ℕ
min_samples_of c = or_default c.min_samples 10

abbrev pub reward : Config → ℕ
reward c = or_default c.reward_per_success 2

abbrev pub penalty : Config → ℕ
penalty c = or_default c.penalty_per_failure 8

abbrev pub streak : Config → ℕ
streak c = or_default c.max_streak 5

abbrev pub lat_good : Config → ℕ
lat_good c = or_default c.latency_good_ms 80

abbrev pub lat_bad : Config → ℕ
lat_bad c = or_default c.latency_bad_ms 800

abbrev pub tp_good : Config → ℕ
tp_good c = or_default c.throughput_good_kbps 2000

abbrev pub tie_margin : Config → ℕ
tie_margin c = or_default c.tie_margin_points 5

abbrev pub break_fails : Config → ℕ
break_fails c = or_default c.breaker_failures 5

abbrev pub break_delay : Config → ℕ
break_delay c = or_default c.breaker_delay_seconds 30

abbrev pub break_oks : Config → ℕ
break_oks c = or_default c.breaker_successes 2

abbrev pub stale : Config → ℕ
stale c = or_default c.stale_hours 6

abbrev pub blackhole : Config → ℕ
blackhole c = or_off c.blackhole_streak 3

abbrev pub stream_stall : Config → ℕ
stream_stall c = or_off c.stream_stall_sec 20

abbrev pub stall_min_upload : Config → ℕ
stall_min_upload c = or_default c.stream_stall_min_upload (64 * 1024)

abbrev pub stall_min_age : Config → ℕ
stall_min_age c = or_default c.stream_stall_min_age_sec 8

unfoldable pub resolved : Config → Config
unfolding or_default or_off w_rel w_lat w_tp
resolved c = record {
  disabled = c.disabled;
  min_samples = pos (min_samples_of c);
  weight_reliability = w_rel c;
  weight_latency = w_lat c;
  weight_throughput = w_tp c;
  reward_per_success = pos (reward c);
  penalty_per_failure = pos (penalty c);
  max_streak = pos (streak c);
  latency_good_ms = pos (lat_good c);
  latency_bad_ms = pos (lat_bad c);
  throughput_good_kbps = pos (tp_good c);
  tie_margin_points = pos (tie_margin c);
  breaker_failures = pos (break_fails c);
  breaker_delay_seconds = pos (break_delay c);
  breaker_successes = pos (break_oks c);
  stale_hours = pos (stale c);
  blackhole_streak = pos (blackhole c);
  stream_stall_sec = pos (stream_stall c);
  stream_stall_min_upload = pos (stall_min_upload c);
  stream_stall_min_age_sec = pos (stall_min_age c);
}

-- The refusals of Validate, each with the field that its message names.
pub data Fault : Type 0 where
  negative : String → Fault
  too_large : String → Fault
  latency_order : ℕ → ℕ → Fault
  reward_or_penalty : Fault
  below_off : String → Fault
  out_of_range : String → Fault

unfoldable pub first_negative : List (String × ℤ) → Option Fault
first_negative [] = none
first_negative ((name, v) ∷ fs) = if is_negative v then some (negative name) else first_negative fs

abbrev pub sign_checked : Config → List (String × ℤ)
sign_checked c =
    ("min_samples", c.min_samples)
    ∷ ("weight_reliability", c.weight_reliability)
    ∷ ("weight_latency", c.weight_latency)
    ∷ ("weight_throughput", c.weight_throughput)
    ∷ ("reward_per_success", c.reward_per_success)
    ∷ ("penalty_per_failure", c.penalty_per_failure)
    ∷ ("max_streak", c.max_streak)
    ∷ ("latency_good_ms", c.latency_good_ms)
    ∷ ("latency_bad_ms", c.latency_bad_ms)
    ∷ ("throughput_good_kbps", c.throughput_good_kbps)
    ∷ ("tie_margin_points", c.tie_margin_points)
    ∷ ("breaker_failures", c.breaker_failures)
    ∷ ("breaker_delay_seconds", c.breaker_delay_seconds)
    ∷ ("breaker_successes", c.breaker_successes)
    ∷ ("stale_hours", c.stale_hours)
    ∷ []

-- The checks behind the one of the signs, in their order, with what is refused where one is true.
abbrev pub range_checks : Config → List (Bool × Fault)
range_checks c =
    (exceeds c.min_samples 1000, too_large "min_samples")
    ∷ (leb (lat_bad c) (lat_good c), latency_order (lat_good c) (lat_bad c))
    ∷ (exceeds c.tie_margin_points 100, too_large "tie_margin_points")
    ∷ (exceeds c.reward_per_success 100 || exceeds c.penalty_per_failure 100, reward_or_penalty)
    ∷ (exceeds c.max_streak 100, too_large "max_streak")
    ∷ (exceeds c.breaker_delay_seconds 3600, too_large "breaker_delay_seconds")
    ∷ (exceeds c.stale_hours 720, too_large "stale_hours")
    ∷ (ltb_ℤ c.blackhole_streak (negsuc 0), below_off "blackhole_streak")
    ∷ (exceeds c.blackhole_streak 100, too_large "blackhole_streak")
    ∷ (ltb_ℤ c.stream_stall_sec (negsuc 0), below_off "stream_stall_sec")
    ∷ (exceeds c.stream_stall_sec 600, too_large "stream_stall_sec")
    ∷ (
      is_negative c.stream_stall_min_upload || exceeds c.stream_stall_min_upload 52428800,
      out_of_range "stream_stall_min_upload",
    )
    ∷ (
      is_negative c.stream_stall_min_age_sec || exceeds c.stream_stall_min_age_sec 600,
      out_of_range "stream_stall_min_age_sec",
    )
    ∷ []

unfoldable pub first_true : List (Bool × Fault) → Option Fault
first_true [] = none
first_true ((failed, e) ∷ checks) = if failed then some e else first_true checks

unfoldable pub check_ranges : Config → Option Fault
unfolding first_true or_default
check_ranges c = first_true (range_checks c)

abbrev pub first_fault : Option Fault → Option Fault → Option Fault
first_fault none g = g
first_fault (some e) g = some e

unfoldable pub validate : Config → Option Fault
unfolding first_negative check_ranges
validate c = first_fault (first_negative (sign_checked c)) (check_ranges c)
