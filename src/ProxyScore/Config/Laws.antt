-- ===== src/ProxyScore/Config/Laws.antt =====
-- internal/proxyscore/config.go: what is in force under settings that Validate accepts, and what a
-- resolved copy of the settings says.
use trust_proxy.Base.{
  ℕ, zero, suc, ◌≤◌, ◌<◌, ◌*◌, Bool, true, false, Option, none, some, ◌≡◌, refl, arith,
  if◌then◌else◌, Bool-cases, inl, inr, ◌||◌, All, List, [], ◌∷◌,
}
use trust_proxy.Base.Int.{ℤ, pos, negsuc, is_negative, exceeds}
use trust_proxy.ProxyScore.Config.{
  Config, Fault, or_default, or_off, zero_weights, w_rel, w_lat, w_tp, min_samples_of, reward,
  penalty, streak, lat_good, lat_bad, tp_good, tie_margin, break_fails, break_delay, break_oks,
  stale, blackhole, stream_stall, stall_min_upload, stall_min_age, resolved, validate, check_ranges,
  first_fault, first_negative, sign_checked, range_checks, first_true,
}

-- All that is read from the settings.
pub record InForce : Type 0 where
  pub disabled : Bool
  pub samples : ℕ
  pub weights : ℤ × ℤ × ℤ
  pub points : ℕ × ℕ × ℕ
  pub latencies : ℕ × ℕ
  pub throughput : ℕ
  pub margin : ℕ
  pub breakers : ℕ × ℕ × ℕ
  pub hours : ℕ
  pub blackholes : ℕ
  pub stalls : ℕ × ℕ × ℕ

abbrev pub in_force : Config → InForce
in_force c = record {
  disabled = c.disabled;
  samples = min_samples_of c;
  weights = (w_rel c, w_lat c, w_tp c);
  points = (reward c, penalty c, streak c);
  latencies = (lat_good c, lat_bad c);
  throughput = tp_good c;
  margin = tie_margin c;
  breakers = (break_fails c, break_delay c, break_oks c);
  hours = stale c;
  blackholes = blackhole c;
  stalls = (stream_stall c, stall_min_upload c, stall_min_age c);
}

or_default-again : (v : ℤ) (d : ℕ) → 0 < d → or_default (pos (or_default v d)) d ≡ or_default v d
unfolding or_default
or_default-again (pos zero) zero h = refl
or_default-again (pos zero) (suc d) h = refl
or_default-again (pos (suc n)) d h = refl
or_default-again (negsuc n) zero h = refl
or_default-again (negsuc n) (suc d) h = refl

or_off-again :
    (v : ℤ) (d : ℕ) → 0 < d → is_negative v ≡ false → or_off (pos (or_off v d)) d ≡ or_off v d
unfolding or_off
or_off-again (pos n) d h on = or_default-again (pos n) d h
or_off-again (negsuc n) d h on = cc

-- Explicit weights are resolved to themselves.
still_set : (c : Config) → zero_weights c ≡ false → zero_weights (resolved c) ≡ false
unfolding resolved w_rel w_lat w_tp zero_weights
still_set c explicit = rw explicit explicit

passed : (x y : ℤ) (b : Bool) → b ≡ false → (if b then x else y) ≡ y
passed x y b e = rw e

weights-again :
    (c : Config)
    → (w_rel (resolved c) ≡ w_rel c) × (w_lat (resolved c) ≡ w_lat c) × (w_tp (resolved c) ≡ w_tp c)
unfolding resolved w_rel w_lat w_tp
weights-again c = elim (Bool-cases (zero_weights c)) [
  | inl unset ↦ rw unset (refl, refl, refl)
  | inr explicit ↦
      let again = still_set c explicit in
      (
        passed (pos 50) (w_rel c) (zero_weights (resolved c)) again,
        passed (pos 30) (w_lat c) (zero_weights (resolved c)) again,
        passed (pos 20) (w_tp c) (zero_weights (resolved c)) again,
      )
]

-- The resolved copy of the settings has the same in force as the settings themselves, where neither
-- the detection of blackholes nor that of stalls is turned off.
pub in_force-resolved :
    (c : Config)
    → is_negative c.blackhole_streak ≡ false
    → is_negative c.stream_stall_sec ≡ false
    → in_force (resolved c) ≡ in_force c
unfolding resolved
in_force-resolved c hole stall =
    let (rel, lat, tp) = weights-again c in
    λ i. record {
      disabled = c.disabled;
      samples = or_default-again c.min_samples 10 (omega arith) i;
      weights = (rel i, lat i, tp i);
      points = (
        or_default-again c.reward_per_success 2 (omega arith) i,
        or_default-again c.penalty_per_failure 8 (omega arith) i,
        or_default-again c.max_streak 5 (omega arith) i,
      );
      latencies = (
        or_default-again c.latency_good_ms 80 (omega arith) i,
        or_default-again c.latency_bad_ms 800 (omega arith) i,
      );
      throughput = or_default-again c.throughput_good_kbps 2000 (omega arith) i;
      margin = or_default-again c.tie_margin_points 5 (omega arith) i;
      breakers = (
        or_default-again c.breaker_failures 5 (omega arith) i,
        or_default-again c.breaker_delay_seconds 30 (omega arith) i,
        or_default-again c.breaker_successes 2 (omega arith) i,
      );
      hours = or_default-again c.stale_hours 6 (omega arith) i;
      blackholes = or_off-again c.blackhole_streak 3 (omega arith) hole i;
      stalls = (
        or_off-again c.stream_stall_sec 20 (omega arith) stall i,
        or_default-again c.stream_stall_min_upload (64 * 1024) (omega arith) i,
        or_default-again c.stream_stall_min_age_sec 8 (omega arith) i,
      );
    }

-- A resolved copy turns on the detection of blackholes where the settings turn it off: what it holds
-- is read as left out.
pub resolved_turns_on :
    (c : Config)
    → is_negative c.blackhole_streak ≡ true
    → (blackhole c ≡ 0) × (blackhole (resolved c) ≡ 3)
unfolding resolved or_off or_default
resolved_turns_on c off = rw off (refl, refl)

first_true-none :
    (checks : List (Bool × Fault)) → first_true checks ≡ none → All (λ c. c.0 ≡ false) checks
unfolding first_true
first_true-none [] h = tt
first_true-none ((true, e) ∷ checks) h = cc
first_true-none ((false, e) ∷ checks) h = (refl, first_true-none checks h)

or_default-le : (v : ℤ) (d bound : ℕ) → d ≤ bound → exceeds v bound ≡ false → or_default v d ≤ bound
unfolding or_default
or_default-le (pos zero) d bound h k = h
or_default-le (pos (suc n)) d bound h k = ground arith
or_default-le (negsuc n) d bound h k = h

or_off-le : (v : ℤ) (d bound : ℕ) → d ≤ bound → exceeds v bound ≡ false → or_off v d ≤ bound
unfolding or_off
or_off-le (pos n) d bound h k = or_default-le (pos n) d bound h k
or_off-le (negsuc n) d bound h k = omega arith

or_default-pos : (v : ℤ) (d : ℕ) → 0 < d → 0 < or_default v d
unfolding or_default
or_default-pos (pos zero) d h = h
or_default-pos (pos (suc n)) d h = omega arith
or_default-pos (negsuc n) d h = h

-- The bounds of what is in force.
pub record IsBounded (c : Config) : Type 0 where
  pub samples : min_samples_of c ≤ 1000
  pub order : lat_good c < lat_bad c
  pub margin : tie_margin c ≤ 100
  pub gain : reward c ≤ 100
  pub loss : penalty c ≤ 100
  pub steps : streak c ≤ 100
  pub delay : break_delay c ≤ 3600
  pub hours : stale c ≤ 720
  pub dead : blackhole c ≤ 100
  pub silence : stream_stall c ≤ 600
  pub upload : stall_min_upload c ≤ 52428800
  pub age : stall_min_age c ≤ 600

first_fault-none : (a b : Option Fault) → first_fault a b ≡ none → b ≡ none
first_fault-none none b h = h
first_fault-none (some e) b h = cc

neither : (a b : Bool) → (a || b) ≡ false → (a ≡ false) × (b ≡ false)
neither true b h = cc
neither false b h = (refl, h)

-- Settings that Validate accepts have in force: latencies that are in order, points and streaks of at
-- most 100, a delay of an hour at most, at most 30 days until a record is stale, and the other bounds.
pub validate-IsBounded : (c : Config) → validate c ≡ none → IsBounded c
unfolding validate check_ranges
validate-IsBounded c valid =
    let (samples, first) =
      first_true-none (range_checks c)
        (first_fault-none (first_negative (sign_checked c)) (check_ranges c) valid) in
    let (order, second) = first in
    let (margin, third) = second in
    let (points, fourth) = third in
    let (steps, fifth) = fourth in
    let (delay, sixth) = fifth in
    let (hours, seventh) = sixth in
    let (dead, ninth) = seventh.1 in
    let (silence, eleventh) = ninth.1 in
    let (upload, twelfth) = eleventh in
    let age = twelfth.0 in
    record {
      samples = or_default-le c.min_samples 10 1000 (omega arith) samples;
      order = ground (arith, order);
      margin = or_default-le c.tie_margin_points 5 100 (omega arith) margin;
      gain = or_default-le c.reward_per_success 2 100 (omega arith) (neither _ _ points).0;
      loss = or_default-le c.penalty_per_failure 8 100 (omega arith) (neither _ _ points).1;
      steps = or_default-le c.max_streak 5 100 (omega arith) steps;
      delay = or_default-le c.breaker_delay_seconds 30 3600 (omega arith) delay;
      hours = or_default-le c.stale_hours 6 720 (omega arith) hours;
      dead = or_off-le c.blackhole_streak 3 100 (omega arith) dead;
      silence = or_off-le c.stream_stall_sec 20 600 (omega arith) silence;
      upload =
          or_default-le c.stream_stall_min_upload (64 * 1024) 52428800 (omega arith)
            (neither (is_negative c.stream_stall_min_upload) _ upload).1;
      age =
          or_default-le c.stream_stall_min_age_sec 8 600 (omega arith)
            (neither (is_negative c.stream_stall_min_age_sec) _ age).1;
    }
