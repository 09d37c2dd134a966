-- ===== src/ProxyScore/Reports.antt =====
-- internal/proxyscore/store.go: what the reports of the data plane keep of the records.
use trust_proxy.Base.{
  ℕ, suc, String, Bool, true, false, List, Option, none, some, ◌≡◌, refl, arith, All, ltb, leb,
  if◌then◌else◌, Bool-cases, inl, inr,
}
use trust_proxy.ProxyScore.{Breakers, Floats, Outcome, Transfer, Stats, find}
use trust_proxy.ProxyScore.Config.{Config, blackhole}
use trust_proxy.ProxyScore.Operations.{
  Store, rate, change, countable, relevant, stat_locked, dialled, count_dial, transferred, judged,
  measured, unanswered, force_breaker_open, probed, heal, stalled, found_or_new,
}
use trust_proxy.ProxyScore.Histories.{
  Report, about, Effect, nothing, dialling, transferring, probing, stalling,
}
use trust_proxy.ProxyScore.Tags.{scorable}
use trust_proxy.ProxyScore.Bounds.{
  IsWithin, AreWithin, put-IsWithin, put-AreDistinct, find-IsWithin, push-le, grown_if-le,
}

module _ (B : Breakers) (F : Floats) where
  open B use {Breaker}
  open F use {Float}

  abbrev Change : Type 0
  Change = Config → Stats Breaker Float → Stats Breaker Float

  abbrev Preserves : Change → Type 0
  Preserves f = (cfg : Config) (st : Stats Breaker Float) → IsWithin st → IsWithin (f cfg st)

  found-IsWithin :
      (tag : String) (o : Option (Stats Breaker Float))
      → scorable tag ≡ true
      → ((st : Stats Breaker Float) → o ≡ some st → IsWithin st)
      → IsWithin (found_or_new B F tag o)
  found-IsWithin tag none node h = record {
    reliable = omega arith;
    latencies = omega arith;
    rates = omega arith;
    node = node;
  }
  found-IsWithin tag (some st) node h = h st refl

  stat_locked-IsWithin :
      (cfg : Config) (tag : String) (sts : List (Stats Breaker Float))
      → scorable tag ≡ true
      → All IsWithin sts
      → IsWithin (stat_locked B F cfg tag sts)
  unfolding stat_locked
  stat_locked-IsWithin cfg tag sts node hs =
      let h =
        found-IsWithin tag (find tag sts) node (λ st found. find-IsWithin tag sts st hs found) in
      record { reliable = h.reliable; latencies = h.latencies; rates = h.rates; node = h.node }

  change-AreWithin :
      (f : Change) (d : Bool) (tag : String) (s : Store B F)
      → scorable tag ≡ true
      → Preserves f
      → AreWithin s.stats
      → AreWithin (change B F f d tag s).stats
  unfolding change
  change-AreWithin f d tag s node keep h = record {
    each =
        put-IsWithin _ s.stats (keep s.cfg _ (stat_locked-IsWithin s.cfg tag s.stats node h.each))
          h.each;
    distinct = put-AreDistinct _ s.stats h.distinct;
  }

  dialled-Preserves : (now : ℕ) (o : Outcome) → Preserves (dialled B F now o)
  unfolding dialled count_dial
  dialled-Preserves now o cfg st h = elim (Bool-cases o.success) [
    | inl good ↦ rw good (record {
      reliable = ground arith;
      latencies = grown_if-le (ltb 0 o.latency) _ _ h.latencies;
      rates = h.rates;
      node = h.node;
    })
    | inr bad ↦ rw bad (record {
      reliable = ground arith;
      latencies = h.latencies;
      rates = h.rates;
      node = h.node;
    })
  ]

  measured-IsWithin :
      (now : ℕ) (t : Transfer) (st : Stats Breaker Float)
      → IsWithin st
      → IsWithin (measured B F now t st)
  unfolding measured
  measured-IsWithin now t st h = elim (Bool-cases (countable B F t)) [
    | inl long ↦ rw long (record {
      reliable = h.reliable;
      latencies = h.latencies;
      rates = push-le st.throughput_kbps (rate B F t);
      node = h.node;
    })
    | inr short ↦ rw short h
  ]

  unanswered-Preserves : (now : ℕ) → Preserves (unanswered B F now)
  unfolding unanswered force_breaker_open
  unanswered-Preserves now cfg st h =
      elim (Bool-cases (leb (blackhole cfg) (suc st.blackhole_streak))) [
        | inl confirmed ↦ rw confirmed (record {
          reliable = omega arith;
          latencies = h.latencies;
          rates = h.rates;
          node = h.node;
        })
        | inr open_yet ↦ rw open_yet (record {
          reliable = h.reliable;
          latencies = h.latencies;
          rates = h.rates;
          node = h.node;
        })
      ]

  judged-Preserves : (now : ℕ) (t : Transfer) → Preserves (judged B F now t)
  unfolding judged
  judged-Preserves now t cfg st h = branch (relevant B F cfg t) (ltb 0 t.download)
    where
      branch :
          (a b : Bool)
          → IsWithin (
              if a
              then if b
                then record st { blackhole_streak = 0; blackholed_at = none }
                else unanswered B F now cfg st
              else st)
      branch true true = record {
        reliable = h.reliable;
        latencies = h.latencies;
        rates = h.rates;
        node = h.node;
      }
      branch true false = unanswered-Preserves now cfg st h
      branch false b = h

  transferred-Preserves : (now : ℕ) (t : Transfer) → Preserves (transferred B F now t)
  transferred-Preserves now t cfg st h = judged-Preserves now t cfg _ (measured-IsWithin now t st h)

  probed-Preserves : (now latency : ℕ) → Preserves (probed B F now latency)
  unfolding probed heal
  probed-Preserves now latency cfg st h = record {
    reliable = ground (arith, h.reliable);
    latencies = grown_if-le (ltb 0 latency) _ _ h.latencies;
    rates = h.rates;
    node = h.node;
  }

  stalled-Preserves : (now : ℕ) → Preserves (stalled B F now)
  unfolding stalled force_breaker_open
  stalled-Preserves now cfg st h = record {
    reliable = ground arith;
    latencies = h.latencies;
    rates = h.rates;
    node = h.node;
  }

  pub Effect-AreWithin :
      (r : Report) {s s' : Store B F}
      → Effect B F s r s'
      → scorable (about r) ≡ true
      → AreWithin s.stats
      → AreWithin s'.stats
  unfolding about
  Effect-AreWithin _ nothing node h = h
  Effect-AreWithin _ (dialling now tag o) node h =
      change-AreWithin _ true _ _ node (dialled-Preserves now o) h
  Effect-AreWithin _ (transferring now tag t) node h =
      change-AreWithin _ _ _ _ node (transferred-Preserves now t) h
  Effect-AreWithin _ (probing now tag ok latency) node h =
      change-AreWithin _ true _ _ node (probed-Preserves now latency) h
  Effect-AreWithin _ (stalling now tag) node h =
      change-AreWithin _ true _ _ node (stalled-Preserves now) h
