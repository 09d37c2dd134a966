-- ===== src/ProxyScore.antt =====
-- internal/proxyscore: scores of outbound nodes from real traffic. Config.antt is config.go, the other
-- modules are store.go. The circuit breakers of failsafe-go and the float64 arithmetic are parameters.
-- Times are numbers of nanoseconds, `none` the zero time. The map of the records is a list of records
-- with distinct tags. Reliability is a whole number, as the store itself only adds whole numbers to it
-- and clamps it; latencies and byte counts are not negative.
pub mod Config
pub mod Tags
pub mod Operations
pub mod Files
pub mod Scores
pub mod Records
pub mod Histories
pub mod Bounds
pub mod Reports
pub mod Fields
pub mod Runs
pub mod Penalties
pub mod Evidence
pub mod Blackholes
pub mod Breaking
pub mod Unsaved
pub mod Samples
mod Tests
use trust_proxy.Base.{
  ℕ, ◌+◌, ◌*◌, ◌^◌, ◌<◌, ◌≡◌, String, Bool, true, false, List, [], ◌∷◌, Option, none, some, ◌==◌,
  if◌then◌else◌, ltb, leb,
}
use trust_proxy.Base.Int.{ℤ, pos}

-- What the program uses of failsafe-go. The first number of each operation is the time of the call.
pub record Breakers : Type 1 where
  pub Breaker : Type 0
  -- failures that open it, the delay in nanoseconds, successes that close it
  pub build : ℕ → ℕ → ℕ → Breaker
  pub try_acquire : ℕ → Breaker → Breaker × Bool
  pub record_success : ℕ → Breaker → Breaker
  pub record_failure : ℕ → Breaker → Breaker
  pub is_open : Breaker → Bool
  pub is_half_open : Breaker → Bool
  pub remaining : ℕ → Breaker → ℕ

-- float64, with comparisons that are exact on whole numbers below 2 ^ 53.
pub record Floats : Type 1 where
  pub Float : Type 0
  pub of_int : ℤ → Float
  pub add : Float → Float → Float
  pub sub : Float → Float → Float
  pub mul : Float → Float → Float
  pub div : Float → Float → Float
  pub less : Float → Float → Bool
  pub leq : Float → Float → Bool
  -- the conversion to int, towards 0
  pub trunc : Float → ℤ
  pub less-of_int :
      (a b : ℕ) → a < 2 ^ 53 → b < 2 ^ 53 → less (of_int (pos a)) (of_int (pos b)) ≡ ltb a b
  pub leq-of_int :
      (a b : ℕ) → a < 2 ^ 53 → b < 2 ^ 53 → leq (of_int (pos a)) (of_int (pos b)) ≡ leb a b

pub record Outcome : Type 0 where
  pub success : Bool
  pub latency : ℕ
  pub err : String

pub record Transfer : Type 0 where
  pub upload : ℕ
  pub download : ℕ
  pub duration : ℕ
  pub handshook : Bool

-- The record of one tag. `breaker` is `none` for the nil of a record that was loaded.
pub record Stats (B F : Type 0) : Type 0 where
  pub tag : String
  pub reliability : ℕ
  pub samples : ℕ
  pub ok_streak : ℕ
  pub fail_streak : ℕ
  pub latency_ms : List ℕ
  pub throughput_kbps : List F
  pub blackhole_streak : ℕ
  pub blackholed_at : Option ℕ
  pub last_ok : Bool
  pub last_err : String
  pub updated_at : Option ℕ
  pub breaker : Option B

module _ {B F : Type 0} where
  -- The lookup of the map.
  unfoldable pub find : String → List (Stats B F) → Option (Stats B F)
  find tag [] = none
  find tag (st ∷ sts) = if st.tag == tag then some st else find tag sts

  -- The assignment to the map under the record's own tag.
  unfoldable pub put : Stats B F → List (Stats B F) → List (Stats B F)
  put st [] = st ∷ []
  put st (x ∷ xs) = if x.tag == st.tag then st ∷ xs else x ∷ put st xs

abbrev pub second : ℕ
second = 10 ^ 9

abbrev pub hour : ℕ
hour = 3600 * second

abbrev pub max_series : ℕ
max_series = 20

abbrev pub neutral_reliability : ℕ
neutral_reliability = 50

abbrev pub max_breaker_trip : ℕ
max_breaker_trip = 64

abbrev pub min_throughput_bytes : ℕ
min_throughput_bytes = 64 * 1024
