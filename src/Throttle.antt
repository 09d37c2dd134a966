-- ===== src/Throttle.antt =====
-- internal/api/throttle.go: the limits on logins. Times are numbers of nanoseconds. The lock is held
-- for a whole call. The map of the buckets is an association list.
pub mod Budget
mod Tests
use trust_proxy.Base.{
  ℕ, suc, ◌+◌, ◌-◌, String, Bool, true, false, List, [], ◌∷◌, Option, none, some, ◌==◌, not, ltb,
  leb, filter, length, if◌then◌else◌,
}

pub record Bucket : Type 0 where
  pub count : ℕ
  pub reset : ℕ

-- `busy` is the number of slots that are taken, of `capacity`.
pub record Throttle : Type 0 where
  pub capacity : ℕ
  pub busy : ℕ
  pub limit : ℕ
  pub window : ℕ
  pub seen : List (String × Bucket)
  pub last_gc : ℕ

abbrev pub new_throttle : ℕ → ℕ → ℕ → Throttle
new_throttle concurrency attempts window = record {
  capacity = concurrency;
  busy = 0;
  limit = attempts;
  window = window;
  seen = [];
  last_gc = 0;
}

-- Whether a slot was free.
unfoldable pub acquire : Throttle → Throttle × Bool
acquire t = if ltb t.busy t.capacity then (record t { busy = suc t.busy }, true) else (t, false)

unfoldable pub release : Throttle → Throttle
release t = record t { busy = t.busy - 1 }

unfoldable lookup : String → List (String × Bucket) → Option Bucket
lookup k [] = none
lookup k ((j, b) ∷ m) = if j == k then some b else lookup k m

pub store : String → Bucket → List (String × Bucket) → List (String × Bucket)
store k b [] = (k, b) ∷ []
store k b ((j, c) ∷ m) = if j == k then (k, b) ∷ m else (j, c) ∷ store k b m

-- now.After(reset)
abbrev pub is_over : ℕ → Bucket → Bool
is_over now b = ltb b.reset now

pub live : ℕ → List (String × Bucket) → List (String × Bucket)
live now [] = []
live now ((k, b) ∷ m) = if is_over now b then live now m else (k, b) ∷ live now m

unfoldable gc : ℕ → Throttle → Throttle
unfolding live
gc now t =
    if ltb now (t.last_gc + t.window) then t else record t { last_gc = now; seen = live now t.seen }

abbrev pub fresh_bucket : ℕ → String → Throttle → Throttle × Bool
fresh_bucket now client t =
    (record t { seen = store client (record { count = 1; reset = now + t.window }) t.seen }, true)

abbrev pub allow_of : ℕ → String → Throttle → Option Bucket → Throttle × Bool
allow_of now client t none = fresh_bucket now client t
allow_of now client t (some b) =
    if is_over now b
    then fresh_bucket now client t
    else if leb t.limit b.count
    then (t, false)
    else (record t { seen = store client (record b { count = suc b.count }) t.seen }, true)

pub allow : ℕ → String → Throttle → Throttle × Bool
unfolding gc lookup store
allow now client t = let t' = gc now t in allow_of now client t' (lookup client t'.seen)
