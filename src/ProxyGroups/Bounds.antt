-- ===== src/ProxyGroups/Bounds.antt =====
-- internal/proxygroups/store.go: the bounds of the failover settings, and the form of a country code.
use Prim.Native.Char.{Char, code}
use trust_proxy.Base.{
  ℕ, ◌≤◌, String, Bool, true, false, Option, none, some, ◌≡◌, refl, arith, ◌&&◌, ◌||◌, not,
  if◌then◌else◌, ltb,
}
use trust_proxy.Base.Int.{ℤ, pos, negsuc, is_negative, exceeds}
use trust_proxy.ProxyGroups.{
  Failover, Error, validate_failover, interval, tolerance, idle_timeout, is_code,
}
use trust_proxy.ProxyScore.Config.{or_default}

-- No field is negative; what is in force is at least 10 seconds between probes, a margin of a minute at
-- most, and no longer an interval than the time after which an idle group is not probed.
pub record IsSteady (f : Failover) : Type 0 where
  pub probe_sign : is_negative f.probe_interval_seconds ≡ false
  pub margin_sign : is_negative f.tolerance_ms ≡ false
  pub idle_sign : is_negative f.idle_timeout_seconds ≡ false
  pub apart : 10 ≤ interval f
  pub margin : tolerance f ≤ 60000
  pub order : interval f ≤ idle_timeout f

past :
    (b : Bool) (e : Error) (o : Option Error)
    → (if b then some e else o) ≡ none
    → (b ≡ false) × (o ≡ none)
past true e o h = cc
past false e o h = (refl, h)

probe_apart :
    (v : ℤ)
    → is_negative v ≡ false
    → (exceeds v 0 && not (exceeds v 9)) ≡ false
    → 10 ≤ or_default v 30
unfolding or_default
probe_apart (pos ℕ.zero) s h = omega arith
probe_apart (pos (ℕ.suc n)) s h = ground arith
probe_apart (negsuc n) s h = cc

margin_bound : (v : ℤ) → exceeds v 60000 ≡ false → or_default v 150 ≤ 60000
unfolding or_default
margin_bound (pos ℕ.zero) h = omega arith
margin_bound (pos (ℕ.suc n)) h = ground arith
margin_bound (negsuc n) h = omega arith

no_sign : (a b c : Bool) → (a || b || c) ≡ false → (a ≡ false) × (b ≡ false) × (c ≡ false)
no_sign a b c h = (ground arith, ground arith, ground arith)

in_order : (a b : ℕ) → ltb b a ≡ false → a ≤ b
in_order a b h = ground arith

pub validate_failover-IsSteady : (f : Failover) → validate_failover f ≡ none → IsSteady f
unfolding validate_failover interval tolerance
validate_failover-IsSteady f h =
    let (signs, h₁) = past _ _ _ h in
    let (probe, h₂) = past _ _ _ h₁ in
    let (wide, h₃) = past _ _ _ h₂ in
    let (order, h₄) = past _ _ _ h₃ in
    let (probe_sign, margin_sign, idle_sign) = no_sign _ _ _ signs in
    record {
      probe_sign = probe_sign;
      margin_sign = margin_sign;
      idle_sign = idle_sign;
      apart = probe_apart f.probe_interval_seconds probe_sign probe;
      margin = margin_bound f.tolerance_ms wide;
      order = in_order _ _ order;
    }

-- Two letters from A to Z.
pub record IsCode (s : String) : Type 0 where
  pub first : Char
  pub second : Char
  pub letters : s ≡ String.◌∷◌ first (String.◌∷◌ second String.[])
  pub from_first : b'A' ≤ code first
  pub to_first : code first ≤ b'Z'
  pub from_second : b'A' ≤ code second
  pub to_second : code second ≤ b'Z'

pub is_code-IsCode : (s : String) → is_code s ≡ true → IsCode s
unfolding is_code
is_code-IsCode String.[] h = cc
is_code-IsCode (String.◌∷◌ c String.[]) h = cc
is_code-IsCode (String.◌∷◌ c (String.◌∷◌ d String.[])) h = record {
  first = c;
  second = d;
  letters = refl;
  from_first = ground arith;
  to_first = ground arith;
  from_second = ground arith;
  to_second = ground arith;
}
is_code-IsCode (String.◌∷◌ c (String.◌∷◌ d (String.◌∷◌ e s))) h = cc
