-- ===== src/Throttle/Tests.antt =====
-- The theorems on the login throttle at a few calls.
use trust_proxy.Base.{ℕ, String, [], ◌∷◌, List, refl, ◌≤◌, ◌+◌, arith}
use trust_proxy.Throttle.{Bucket, Throttle, lookup}
use trust_proxy.Throttle.Budget.{granted, granted-limit}

abbrev bucket : Bucket
bucket = record { count = 1; reset = 60 }

abbrev throttle : Throttle
throttle = record {
  capacity = 2;
  busy = 1;
  limit = 2;
  window = 60;
  seen = ("10.0.0.9", bucket) ∷ [];
  last_gc = 0;
}

abbrev calls : List (ℕ × String)
calls = (10, "10.0.0.9") ∷ (20, "10.0.0.7") ∷ (30, "10.0.0.9") ∷ (60, "10.0.0.9") ∷ []

granted-limit_example : granted "10.0.0.9" calls throttle + 1 ≤ 2
unfolding lookup
granted-limit_example =
    granted-limit calls "10.0.0.9" throttle bucket 2 refl (refl, (refl, (refl, (refl, tt))))
      (omega arith) (omega arith)
