-- ===== src/ProxyScore/Fields.antt =====
-- internal/proxyscore/store.go: what the operations on one record make of its tag and of its streak of
-- unanswered connections.
use trust_proxy.Base.{ℕ, suc, ◌≡◌, refl, ◌∙◌, arith, ltb, if◌then◌else◌}
use trust_proxy.ProxyScore.{Breakers, Floats, Outcome, Transfer, Stats}
use trust_proxy.ProxyScore.Config.{Config}
use trust_proxy.ProxyScore.Operations.{
  dialled, count_dial, transferred, judged, measured, unanswered, force_breaker_open, probed, heal,
  stalled, relevant,
}
use trust_proxy.ProxyScore.Records.{KeepsTag}

module _ (B : Breakers) (F : Floats) where
  open B use {Breaker}
  open F use {Float}

  pub dialled-streak :
      (now : ℕ) (o : Outcome) (cfg : Config) (st : Stats Breaker Float)
      → (dialled B F now o cfg st).blackhole_streak ≡ st.blackhole_streak
  unfolding dialled count_dial
  dialled-streak now o cfg st = ground arith

  pub measured-streak :
      (now : ℕ) (t : Transfer) (st : Stats Breaker Float)
      → (measured B F now t st).blackhole_streak ≡ st.blackhole_streak
  unfolding measured
  measured-streak now t st = ground arith

  pub unanswered-streak :
      (now : ℕ) (cfg : Config) (st : Stats Breaker Float)
      → (unanswered B F now cfg st).blackhole_streak ≡ suc st.blackhole_streak
  unfolding unanswered force_breaker_open
  unanswered-streak now cfg st = ground arith

  pub judged-streak :
      (now : ℕ) (t : Transfer) (cfg : Config) (st : Stats Breaker Float)
      → (judged B F now t cfg st).blackhole_streak ≡ (
          if relevant B F cfg t
          then if ltb 0 t.download then 0 else suc st.blackhole_streak
          else st.blackhole_streak)
  unfolding judged
  judged-streak now t cfg st = ground (arith, unanswered-streak now cfg st)

  pub dialled-KeepsTag : (now : ℕ) (o : Outcome) → KeepsTag B F (dialled B F now o)
  unfolding dialled count_dial
  dialled-KeepsTag now o cfg st = ground arith

  pub measured-tag :
      (now : ℕ) (t : Transfer) (st : Stats Breaker Float) → (measured B F now t st).tag ≡ st.tag
  unfolding measured
  measured-tag now t st = ground arith

  pub unanswered-KeepsTag : (now : ℕ) → KeepsTag B F (unanswered B F now)
  unfolding unanswered force_breaker_open
  unanswered-KeepsTag now cfg st = ground arith

  pub judged-KeepsTag : (now : ℕ) (t : Transfer) → KeepsTag B F (judged B F now t)
  unfolding judged
  judged-KeepsTag now t cfg st = ground (arith, unanswered-KeepsTag now cfg st)

  pub transferred-KeepsTag : (now : ℕ) (t : Transfer) → KeepsTag B F (transferred B F now t)
  transferred-KeepsTag now t cfg st = judged-KeepsTag now t cfg _ ∙ measured-tag now t st

  pub probed-KeepsTag : (now latency : ℕ) → KeepsTag B F (probed B F now latency)
  unfolding probed heal
  probed-KeepsTag now latency cfg st = refl

  pub stalled-KeepsTag : (now : ℕ) → KeepsTag B F (stalled B F now)
  unfolding stalled force_breaker_open
  stalled-KeepsTag now cfg st = refl

  pub stalled-streak :
      (now : ℕ) (cfg : Config) (st : Stats Breaker Float)
      → (stalled B F now cfg st).blackhole_streak ≡ st.blackhole_streak
  unfolding stalled force_breaker_open
  stalled-streak now cfg st = refl
