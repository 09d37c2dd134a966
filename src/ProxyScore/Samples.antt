-- ===== src/ProxyScore/Samples.antt =====
-- internal/proxyscore/store.go: a store of two nodes for the tests. The breakers here count failures,
-- and the floats are whole numbers.
use trust_proxy.Base.{
  ℕ, suc, ◌+◌, ◌-◌, ◌/◌, Bool, true, false, [], ◌∷◌, none, some, ◌≡◌, arith, nat_eq, ltb, leb, not,
  if◌then◌else◌,
}
use trust_proxy.Base.Int.{ℤ, pos, negsuc, ◌+ℤ◌, ◌-ℤ◌, ◌*ℤ◌, ltb_ℤ}
use trust_proxy.ProxyScore.{Breakers, Floats, Stats}
use trust_proxy.ProxyScore.Config.{unset}
use trust_proxy.ProxyScore.Operations.{Store}
use trust_proxy.ProxyScore.Files.{Saved}

pub record Gauge : Type 0 where
  limit : ℕ
  pub left : ℕ
  delay : ℕ
  opened : ℕ

abbrev pub asked : ℕ → Gauge → Gauge × Bool
asked now b =
    if nat_eq b.left 0
    then if ltb now (b.opened + b.delay) then (b, false) else (record b { left = 1 }, true)
    else (b, true)

abbrev pub breakers : Breakers
breakers = record {
  Breaker = Gauge;
  build = λ fails delay oks. record { limit = fails; left = fails; delay = delay; opened = 0 };
  try_acquire = asked;
  record_success = λ now b. if nat_eq b.left 0 then b else record b { left = b.limit };
  record_failure = λ now b. record b { left = b.left - 1; opened = now };
  is_open = λ b. nat_eq b.left 0;
  is_half_open = λ b. false;
  remaining = λ now b. b.opened + b.delay - now;
}

abbrev quotient : ℤ → ℤ → ℤ
quotient (pos n) (pos (suc m)) = pos (n / suc m)
quotient a b = pos 0

pub less_exact : (a b : ℕ) → ltb_ℤ (pos a) (pos b) ≡ ltb a b
less_exact a b = ground arith

pub leq_exact : (a b : ℕ) → not (ltb_ℤ (pos b) (pos a)) ≡ leb a b
leq_exact a b = ground arith

abbrev pub floats : Floats
floats = record {
  Float = ℤ;
  of_int = λ a. a;
  add = ◌+ℤ◌;
  sub = ◌-ℤ◌;
  mul = ◌*ℤ◌;
  div = quotient;
  less = ltb_ℤ;
  leq = λ a b. not (ltb_ℤ b a);
  trunc = λ a. a;
  less-of_int = λ a b _ _. less_exact a b;
  leq-of_int = λ a b _ _. leq_exact a b;
}

abbrev pub tokyo : Stats Gauge ℤ
tokyo = record {
  tag = "tokyo";
  reliability = 90;
  samples = 12;
  ok_streak = 0;
  fail_streak = 2;
  latency_ms = 120 ∷ 80 ∷ [];
  throughput_kbps = [];
  blackhole_streak = 3;
  blackholed_at = some 5;
  last_ok = false;
  last_err = "";
  updated_at = some 5;
  breaker = none;
}

abbrev pub store : Store breakers floats
store = record { cfg = unset; stats = tokyo ∷ []; dirty = true }

-- A store to which nothing is known, with nothing to write.
abbrev pub empty : Store breakers floats
empty = record { cfg = unset; stats = []; dirty = false }

abbrev pub broken : Saved Gauge ℤ
broken = record { stats = tokyo; reliability = negsuc 4; samples = pos 7 }
