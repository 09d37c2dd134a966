-- ===== src/ProxyScore/Penalties.antt =====
-- internal/proxyscore/store.go: what a run of failures costs, and how probes bring a node back.
use trust_proxy.Base.{
  ℕ, zero, suc, ◌+◌, ◌-◌, ◌*◌, ◌≤◌, String, true, false, List, [], ◌∷◌, ◌≡◌, refl, ap, ◌∙◌,
  if◌then◌else◌, ltb, arith, length,
}
use native.Mathlib.Nat.{mul-add}
use trust_proxy.ProxyScore.{Breakers, Floats, Outcome, Stats, neutral_reliability}
use trust_proxy.ProxyScore.Config.{Config, penalty, streak}
use trust_proxy.ProxyScore.Operations.{
  Store, observe, dialled, count_dial, note_probe, probed, heal, min, blackholed,
}
use trust_proxy.ProxyScore.Records.{known, known-run_self, cfg-run, remade, KeepsTag}
use trust_proxy.ProxyScore.Tags.{normalize_tag, scorable}

-- The sum of the weights of `n` failures behind `f` others: the k-th in a row weighs k, `cap` at most.
pub escalation : ℕ → ℕ → ℕ → ℕ
escalation cap f zero = 0
escalation cap f (suc n) = min (suc f) cap + escalation cap (suc f) n

module _ (B : Breakers) (F : Floats) where
  open B use {Breaker}
  open F use {Float}

  -- Dials that fail, at the times and with the errors of the list.
  pub failures : String → List (ℕ × String) → Store B F → Store B F
  failures tag [] s = s
  failures tag ((now, why) ∷ fs) s =
      failures tag fs (observe B F now tag (record { success = false; latency = 0; err = why }) s)

  -- Probes that succeed, at the times and with the latencies of the list.
  pub probes : String → List (ℕ × ℕ) → Store B F → Store B F
  probes tag [] s = s
  probes tag ((now, latency) ∷ ps) s = probes tag ps (note_probe B F now tag true latency s)

  module _ (tag : String) (node : scorable (normalize_tag tag) ≡ true) where
    abbrev key : String
    key = normalize_tag tag

    abbrev failed : String → Outcome
    failed why = record { success = false; latency = 0; err = why }

    -- One more failure, seen from the record of its node.
    failure-known :
        (now : ℕ) (why : String) (s : Store B F)
        → s.cfg.disabled ≡ false
        → (known B F key s).reliability ≤ 100
        → ((known B F key (observe B F now tag (failed why) s)).reliability
            ≡ (known B F key s).reliability
              - penalty s.cfg * min (suc (known B F key s).fail_streak) (streak s.cfg))
          × ((known B F key (observe B F now tag (failed why) s)).fail_streak
              ≡ suc (known B F key s).fail_streak)
          × ((observe B F now tag (failed why) s).cfg ≡ s.cfg)
    unfolding observe dialled count_dial
    failure-known now why s on within =
        let e =
          known-run_self B F (dialled B F now (failed why)) (keeps now why) true tag s node on in
        (
          ap (λ st. st.reliability) e ∙ cost s (known B F key s) within,
          ap (λ st. st.fail_streak) e ∙ count s (known B F key s),
          cfg-run B F (dialled B F now (failed why)) (keeps now why) true tag s,
        )
      where
        keeps : (now : ℕ) (why : String) → KeepsTag B F (dialled B F now (failed why))
        keeps now why cfg st = refl

        cost :
            (s : Store B F) (st : Stats Breaker Float)
            → st.reliability ≤ 100
            → (remade B F s.cfg (dialled B F now (failed why) s.cfg st)).reliability
              ≡ st.reliability - penalty s.cfg * min (suc st.fail_streak) (streak s.cfg)
        cost s st h = ground arith

        count :
            (s : Store B F) (st : Stats Breaker Float)
            → (remade B F s.cfg (dialled B F now (failed why) s.cfg st)).fail_streak
              ≡ suc st.fail_streak
        count s st = refl

    -- A run of failed dials takes off the reliability of a node the penalty times the sum of the
    -- weights of the failures, each weighing its place in the run up to the largest streak, and stops
    -- at 0; and it counts every failure.
    pub failures_cost :
        (fs : List (ℕ × String)) (s : Store B F)
        → s.cfg.disabled ≡ false
        → (known B F key s).reliability ≤ 100
        → ((known B F key (failures tag fs s)).reliability
            ≡ (known B F key s).reliability
              - penalty s.cfg * escalation (streak s.cfg) (known B F key s).fail_streak (length fs))
          × ((known B F key (failures tag fs s)).fail_streak
              ≡ (known B F key s).fail_streak + length fs)
    unfolding failures escalation
    failures_cost [] s on within = (omega arith, omega arith)
    failures_cost ((now, why) ∷ fs) s on within =
        let next = observe B F now tag (failed why) s in
        let (cost, count, same) = failure-known now why s on within in
        let (rest, counted) =
          failures_cost fs next (ap (λ c. c.disabled) same ∙ on) (omega (arith, cost)) in
        let spread =
          mul-add (penalty s.cfg) (min (suc (known B F key s).fail_streak) (streak s.cfg))
            (escalation (streak s.cfg) (suc (known B F key s).fail_streak) (length fs)) in
        (
          rest
              ∙ ap
                  (λ (c : Config).
                    (known B F key next).reliability
                    - penalty c
                      * escalation (streak c) (known B F key next).fail_streak (length fs))
                  same
              ∙ ap
                  (λ (n : ℕ).
                    (known B F key next).reliability
                    - penalty s.cfg * escalation (streak s.cfg) n (length fs))
                  count
              ∙ omega (arith, cost, spread),
          omega (arith, counted, count),
        )

    probe-known :
        (now latency : ℕ) (s : Store B F)
        → s.cfg.disabled ≡ false
        → ((known B F key (note_probe B F now tag true latency s)).reliability ≡ (
            if ltb (known B F key s).reliability neutral_reliability
            then neutral_reliability
            else (known B F key s).reliability))
          × ((known B F key (note_probe B F now tag true latency s)).fail_streak
              ≡ (known B F key s).fail_streak - 1)
          × ((known B F key (note_probe B F now tag true latency s)).blackhole_streak ≡ 0)
          × ((note_probe B F now tag true latency s).cfg ≡ s.cfg)
    unfolding note_probe probed heal
    probe-known now latency s on =
        let e = known-run_self B F (probed B F now latency) keeps true tag s node on in
        (
          ap (λ st. st.reliability) e,
          ap (λ st. st.fail_streak) e,
          ap (λ st. st.blackhole_streak) e,
          cfg-run B F (probed B F now latency) keeps true tag s,
        )
      where
        keeps : KeepsTag B F (probed B F now latency)
        keeps cfg st = refl

    -- What probes that succeed make of a node, however many: the reliability is lifted to the
    -- neutral one where it was below it and is left alone otherwise, a failure is taken off the
    -- streak for each, and the node is no blackhole.
    pub probes_recover :
        (p : ℕ × ℕ) (ps : List (ℕ × ℕ)) (s : Store B F)
        → s.cfg.disabled ≡ false
        → ((known B F key (probes tag (p ∷ ps) s)).reliability ≡ (
            if ltb (known B F key s).reliability neutral_reliability
            then neutral_reliability
            else (known B F key s).reliability))
          × ((known B F key (probes tag (p ∷ ps) s)).fail_streak
              ≡ (known B F key s).fail_streak - suc (length ps))
          × (blackholed B F (probes tag (p ∷ ps) s).cfg (known B F key (probes tag (p ∷ ps) s))
              ≡ false)
    unfolding probes
    probes_recover (now, latency) [] s on =
        let (rel, fails, hole, same) = probe-known now latency s on in
        (rel, fails, ground (arith, hole))
    probes_recover (now, latency) (p ∷ ps) s on =
        let (rel, fails, hole, same) = probe-known now latency s on in
        let (rel', fails', clear) =
          probes_recover p ps (note_probe B F now tag true latency s)
            (ap (λ c. c.disabled) same ∙ on) in
        (ground (arith, rel, rel'), omega (arith, fails, fails'), clear)
