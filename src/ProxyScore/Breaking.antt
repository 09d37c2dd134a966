-- ===== src/ProxyScore/Breaking.antt =====
-- internal/proxyscore/store.go: whether forceBreakerOpen opens the breaker.
use trust_proxy.Base.{
  ℕ, zero, suc, ◌-◌, String, Bool, true, false, Option, none, some, ◌≡◌, ap, ◌∙◌, arith, nat_eq,
  leb, Bool-cases, inl, inr,
}
use trust_proxy.ProxyScore.{Breakers, Floats, Stats, find, max_breaker_trip}
use trust_proxy.ProxyScore.Config.{break_fails, stream_stall}
use trust_proxy.ProxyScore.Fields.{stalled-KeepsTag}
use trust_proxy.ProxyScore.Histories.{halt}
use trust_proxy.ProxyScore.Operations.{
  Store, trip, stalled, force_breaker_open, record_stream_stall, stat_locked, found_or_new,
  breaker_of,
}
use trust_proxy.ProxyScore.Records.{known, passed, known-change_self, guarded-on}
use trust_proxy.ProxyScore.Tags.{normalize_tag, scorable}

-- What failsafe-go documents of a breaker with a failure threshold: it is closed while failures are
-- left, and a failure that is recorded behind a permit takes one off.
pub record CountsDown (B : Breakers) : Type 0 where
  pub left : B.Breaker → ℕ
  pub left-build : (fails delay oks : ℕ) → left (B.build fails delay oks) ≡ fails
  pub is_open-left : (b : B.Breaker) → B.is_open b ≡ nat_eq (left b) 0
  pub left-failure :
      (now : ℕ) (b : B.Breaker)
      → B.is_open b ≡ false
      → left (B.record_failure now (B.try_acquire now b).0) ≡ left b - 1

module _ (B : Breakers) (F : Floats) (C : CountsDown B) where
  open B use {Breaker, is_open, build}
  open F use {Float}
  open C use {left, left-build, is_open-left, left-failure}

  -- The loop ends with an open breaker exactly if its rounds are as many as the failures left.
  trip-is_open :
      (now rounds : ℕ) (b : Breaker) → is_open (trip B F now rounds b) ≡ leb (left b) rounds
  unfolding trip
  trip-is_open now zero b = is_open-left b ∙ ground arith
  trip-is_open now (suc k) b = elim (Bool-cases (is_open b)) [
    | inl opened ↦ rw (opened, trip) (opened ∙ ground (arith, is_open-left b, opened))
    | inr closed ↦
        rw (closed, trip)
          (trip-is_open now k (B.record_failure now (B.try_acquire now b).0)
            ∙ ground (arith, is_open-left b, closed, left-failure now b closed))
  ]

  abbrev pub breaker_open : Option Breaker → Bool
  breaker_open none = false
  breaker_open (some b) = is_open b

  -- A stall of a node of which the store knew nothing opens its breaker exactly if the failures
  -- after which the settings open it are at most 64: with more, the loop ends while it is closed.
  pub stall_opens :
      (now : ℕ) (tag : String) (s : Store B F)
      → scorable (normalize_tag tag) ≡ true
      → s.cfg.disabled ≡ false
      → nat_eq (stream_stall s.cfg) 0 ≡ false
      → find (normalize_tag tag) s.stats ≡ none
      → breaker_open (known B F (normalize_tag tag) (record_stream_stall B F now tag s)).breaker
        ≡ leb (break_fails s.cfg) max_breaker_trip
  unfolding record_stream_stall stalled force_breaker_open stat_locked
  stall_opens now tag s node on watched absent =
      ap (λ x. breaker_open (known B F (normalize_tag tag) x).breaker)
        (guarded-on B F tag (halt B F now) s node on ∙ passed s _ _ watched)
      ∙ ap (λ x. breaker_open x.breaker)
          (known-change_self B F (stalled B F now) (stalled-KeepsTag B F now) true
            (normalize_tag tag) s)
      ∙ trip-is_open now max_breaker_trip (breaker_of B F s.cfg (found (find key s.stats)))
      ∙ ap (λ o. leb (left (breaker_of B F s.cfg (found o))) max_breaker_trip) absent
      ∙ ap (λ n. leb n max_breaker_trip) (left-build (break_fails s.cfg) _ _)
    where
      key : String
      key = normalize_tag tag

      found : Option (Stats Breaker Float) → Stats Breaker Float
      found o = found_or_new B F key o
