-- ===== src/ProxyScore/Scores/Laws.antt =====
-- internal/proxyscore/store.go: the range of the scores, and where a blackhole stands among them.
use trust_proxy.Base.{
  ℕ, ◌<◌, Bool, true, false, String, Option, none, some, ◌≡◌, refl, ap, ◌∙◌, arith, ltb,
  if◌then◌else◌, Bool-cases, inl, inr,
}
use trust_proxy.ProxyScore.{Breakers, Floats, Stats, find}
use trust_proxy.ProxyScore.Config.{Config, min_samples_of}
use trust_proxy.ProxyScore.Operations.{Store, blackholed, clamp100 as clamp_nat}
use trust_proxy.ProxyScore.Scores.{clamp100, composite, score_locked, score, score_found, num}
use trust_proxy.ProxyScore.Tags.{normalize_tag}

module _ (B : Breakers) (F : Floats) where
  open B use {Breaker}
  open F use {Float, less, leq, less-of_int}

  -- From 0 to 100.
  abbrev pub IsScore : Float → Type 0
  IsScore v = (less v (num B F 0) ≡ false) × (less (num B F 100) v ≡ false)

  num-IsScore : (n : ℕ) → n < 101 → IsScore (num B F n)
  num-IsScore n h = (
    less-of_int n 0 (omega arith) (omega arith) ∙ ground arith,
    less-of_int 100 n (omega arith) (omega arith) ∙ ground arith,
  )

  clamp100-IsScore : (v : Float) → IsScore (clamp100 B F v)
  unfolding clamp100
  clamp100-IsScore v = elim (Bool-cases (less v (num B F 0))) [
    | inl low ↦ rw low (num-IsScore 0 (omega arith))
    | inr not_low ↦ elim (Bool-cases (less (num B F 100) v)) [
      | inl high ↦ rw (not_low, high) (num-IsScore 100 (omega arith))
      | inr not_high ↦ rw (not_low, not_high) (not_low, not_high)
    ]
  ]

  chosen-IsScore : (b : Bool) (v w : Float) → IsScore v → IsScore w → IsScore (if b then v else w)
  chosen-IsScore true v w h k = h
  chosen-IsScore false v w h k = k

  composite-IsScore : (cfg : Config) (st : Stats Breaker Float) → IsScore (composite B F cfg st)
  unfolding composite
  composite-IsScore cfg st =
      chosen-IsScore _ (num B F (clamp_nat st.reliability)) _
        (num-IsScore (clamp_nat st.reliability) (ground arith)) (clamp100-IsScore _)

  score_locked-IsScore :
      (cfg : Config) (st : Stats Breaker Float) → IsScore (score_locked B F cfg st)
  unfolding score_locked
  score_locked-IsScore cfg st =
      chosen-IsScore (blackholed B F cfg st) (num B F 0) _ (num-IsScore 0 (omega arith)) (
        chosen-IsScore (ltb st.samples (min_samples_of cfg)) (num B F 100) (composite B F cfg st)
          (num-IsScore 100 (omega arith)) (composite-IsScore cfg st))

  score_found-IsScore :
      (now : ℕ) (cfg : Config) (o : Option (Stats Breaker Float))
      → IsScore (score_found B F now cfg o).0
  score_found-IsScore now cfg none = num-IsScore 100 (omega arith)
  score_found-IsScore now cfg (some st) = score_locked-IsScore cfg st

  -- The score that the data plane is given, for any tag and in any store, is not below 0 and not above
  -- 100, whatever the arithmetic of the floats makes of the terms.
  pub score-IsScore : (now : ℕ) (tag : String) (s : Store B F) → IsScore (score B F now tag s).0
  unfolding score
  score-IsScore now tag s = branch s.cfg.disabled
    where
      branch :
          (b : Bool)
          → IsScore (
              let r : Float × Bool =
                if b
                then (num B F 0, true)
                else score_found B F now s.cfg (find (normalize_tag tag) s.stats) in
              r.0)
      branch true = num-IsScore 0 (omega arith)
      branch false = score_found-IsScore now s.cfg (find (normalize_tag tag) s.stats)

  -- Where the record of a tag is a blackhole, no tag has a score below that of the tag, warm-up or
  -- not.
  pub blackhole_ranks_last :
      (now : ℕ) (tag other : String) (s : Store B F) (st : Stats Breaker Float)
      → find (normalize_tag tag) s.stats ≡ some st
      → blackholed B F s.cfg st ≡ true
      → less (score B F now other s).0 (score B F now tag s).0 ≡ false
  unfolding score_locked
  blackhole_ranks_last now tag other s st found hole =
      ap (less (score B F now other s).0) scored ∙ (score-IsScore now other s).0
    where
      lowest :
          (o : Option (Stats Breaker Float)) (b : Bool)
          → o ≡ some st
          → (let r : Float × Bool = if b then (num B F 0, true) else score_found B F now s.cfg o in
              r.0)
            ≡ num B F 0
      lowest o true e = refl
      lowest o false e = ap (λ x. (score_found B F now s.cfg x).0) e ∙ rw hole refl

      scored : (score B F now tag s).0 ≡ num B F 0
      scored = unfold score in lowest (find (normalize_tag tag) s.stats) s.cfg.disabled found
