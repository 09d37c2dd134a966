-- ===== src/ProxyScore/Runs.antt =====
-- internal/proxyscore/store.go: what holds of every record, whatever the file held and whatever the
-- store went through.
use trust_proxy.Base.{
  ℕ, String, Bool, true, false, List, [], ◌∷◌, Option, none, some, ◌≡◌, refl, subst, sym, ◌⊎◌,
  arith, All-filter, filter, map, if◌then◌else◌, Bool-cases, if-cases, inl, inr, not,
}
use trust_proxy.ProxyScore.{Breakers, Floats, Stats, find, put}
use trust_proxy.ProxyScore.Bounds.{
  IsWithin, AreDistinct, AreWithin, put-IsWithin, put-AreDistinct, last_series-le,
}
use trust_proxy.ProxyScore.Config.{Config}
use trust_proxy.ProxyScore.Files.{
  Saved, load_all, load_one, load, new, repair, flush, reset, before, write_out,
}
use trust_proxy.ProxyScore.Histories.{Report, report, about, report-Effect, report-pseudo}
use trust_proxy.ProxyScore.Operations.{Store, set_config, without_breaker, same_breakers}
use trust_proxy.ProxyScore.Reports.{Effect-AreWithin}
use trust_proxy.ProxyScore.Tags.{scorable}

module _ {B F : Type 0} where
  pub find-filter-none :
      (p : Stats B F → Bool) (t : String) (sts : List (Stats B F))
      → find t sts ≡ none
      → find t (filter p sts) ≡ none
  unfolding find
  find-filter-none p t [] h = refl
  find-filter-none p t (x ∷ xs) h = ground (arith, find-filter-none p t xs)

  pub filter-AreDistinct :
      (p : Stats B F → Bool) (sts : List (Stats B F)) → AreDistinct sts → AreDistinct (filter p sts)
  filter-AreDistinct p [] h = tt
  filter-AreDistinct p (x ∷ xs) h = elim (Bool-cases (p x)) [
    | inl kept ↦ rw kept (find-filter-none p x.tag xs h.0, filter-AreDistinct p xs h.1)
    | inr gone ↦ rw gone (filter-AreDistinct p xs h.1)
  ]

module _ (B : Breakers) (F : Floats) where
  open B use {Breaker}
  open F use {Float}

  pub find-stripped-none :
      (t : String) (sts : List (Stats Breaker Float))
      → find t sts ≡ none
      → find t (map (without_breaker B F) sts) ≡ none
  unfolding find
  find-stripped-none t [] h = refl
  find-stripped-none t (x ∷ xs) h = ground (arith, find-stripped-none t xs)

  stripped-AreWithin :
      (sts : List (Stats Breaker Float)) → AreWithin sts → AreWithin (map (without_breaker B F) sts)
  stripped-AreWithin [] h = record { each = tt; distinct = tt }
  stripped-AreWithin (x ∷ xs) h =
      let rest = stripped-AreWithin xs (record { each = h.each.1; distinct = h.distinct.1 }) in
      record {
        each = (
          record {
            reliable = h.each.0.reliable;
            latencies = h.each.0.latencies;
            rates = h.each.0.rates;
            node = h.each.0.node;
          },
          rest.each,
        );
        distinct = (find-stripped-none x.tag xs h.distinct.0, rest.distinct);
      }

  repair-IsWithin :
      (r : Saved Breaker Float) → scorable (repair B F r).tag ≡ true → IsWithin (repair B F r)
  unfolding repair
  repair-IsWithin r node = record {
    reliable = ground arith;
    latencies = last_series-le r.stats.latency_ms;
    rates = last_series-le r.stats.throughput_kbps;
    node = node;
  }

  load_one-AreWithin :
      (cutoff : ℕ) (r : Saved Breaker Float) (sts : List (Stats Breaker Float))
      → AreWithin sts
      → AreWithin (load_one B F cutoff r sts)
  unfolding load_one
  load_one-AreWithin cutoff r sts h =
      branch (before r.stats.updated_at cutoff) (Bool-cases (scorable (repair B F r).tag)) _
    where
      branch :
          (a : Bool)
          → (scorable (repair B F r).tag ≡ true) ⊎ (scorable (repair B F r).tag ≡ false)
          → (c : Bool)
          → AreWithin (
              if a
              then sts
              else if not (scorable (repair B F r).tag)
              then sts
              else if c
              then sts
              else put (repair B F r) sts)
      branch true b c = h
      branch false (inr pseudo) c = rw pseudo h
      branch false (inl node) true = rw node h
      branch false (inl node) false = rw node (record {
        each = put-IsWithin (repair B F r) sts (repair-IsWithin r node) h.each;
        distinct = put-AreDistinct (repair B F r) sts h.distinct;
      })

  load_all-AreWithin :
      (cutoff : ℕ) (rs : List (Saved Breaker Float)) (sts : List (Stats Breaker Float))
      → AreWithin sts
      → AreWithin (load_all B F cutoff rs sts)
  unfolding load_all
  load_all-AreWithin cutoff [] sts h = h
  load_all-AreWithin cutoff (r ∷ rs) sts h =
      load_all-AreWithin cutoff rs (load_one B F cutoff r sts) (load_one-AreWithin cutoff r sts h)

  load-AreWithin :
      (now : ℕ) (cfg : Config) (file : Option (List (Saved Breaker Float)))
      → AreWithin (load B F now cfg file)
  unfolding load
  load-AreWithin now cfg none = record { each = tt; distinct = tt }
  load-AreWithin now cfg (some rs) =
      load_all-AreWithin _ rs [] (record { each = tt; distinct = tt })

  pub data Action : Type 0 where
    reported : Report → Action
    configured : Config → Action
    flushed : ℕ → Action
    cleared : ℕ → Action

  unfoldable pub act : Action → Store B F → Store B F
  act (reported r) s = report B F r s
  act (configured cfg) s = set_config B F cfg s
  act (flushed now) s = (flush B F now s).0
  act (cleared now) s = (reset B F now s).0

  unfoldable pub acts : List Action → Store B F → Store B F
  unfolding act
  acts [] s = s
  acts (a ∷ rest) s = acts rest (act a s)

  report-AreWithin :
      (r : Report) (s : Store B F) → AreWithin s.stats → AreWithin (report B F r s).stats
  report-AreWithin r s h = elim (Bool-cases (scorable (about r))) [
    | inl node ↦ Effect-AreWithin B F r (report-Effect B F r s) node h
    | inr pseudo ↦ subst (λ s'. AreWithin s'.stats) (sym (report-pseudo B F r s pseudo)) h
  ]

  flush-AreWithin :
      (now : ℕ) (s : Store B F) → AreWithin s.stats → AreWithin (flush B F now s).0.stats
  unfolding flush write_out
  flush-AreWithin now s h = elim (if-cases (not s.dirty) (s, none) (write_out B F now s)) [
    | inl clean ↦ subst (λ r. AreWithin r.0.stats) (sym clean) h
    | inr dirty ↦
        subst (λ r. AreWithin r.0.stats) (sym dirty)
          (record {
            each = All-filter IsWithin _ s.stats h.each;
            distinct = filter-AreDistinct _ s.stats h.distinct;
          })
  ]

  act-AreWithin : (a : Action) (s : Store B F) → AreWithin s.stats → AreWithin (act a s).stats
  unfolding act set_config reset
  act-AreWithin (reported r) s h = report-AreWithin r s h
  act-AreWithin (configured cfg) s h = branch (same_breakers B F s.cfg cfg)
    where
      branch : (b : Bool) → AreWithin (if b then s.stats else map (without_breaker B F) s.stats)
      branch true = h
      branch false = stripped-AreWithin s.stats h
  act-AreWithin (flushed now) s h = flush-AreWithin now s h
  act-AreWithin (cleared now) s h =
      flush-AreWithin now (record s { stats = []; dirty = true })
        (record { each = tt; distinct = tt })

  acts-AreWithin :
      (history : List Action) (s : Store B F) → AreWithin s.stats → AreWithin (acts history s).stats
  unfolding acts
  acts-AreWithin [] s h = h
  acts-AreWithin (a ∷ rest) s h = acts-AreWithin rest (act a s) (act-AreWithin a s h)

  -- Whatever the file held, and after any sequence of reports, changes of the settings, flushes and
  -- resets: every record has a reliability of 100 at most and at most 20 latencies and rates, none is
  -- of a pseudo-outbound, and no two have one tag.
  pub started-AreWithin :
      (now : ℕ) (cfg : Config) (file : Option (List (Saved Breaker Float))) (history : List Action)
      → AreWithin (acts history (new B F now cfg file)).stats
  unfolding new
  started-AreWithin now cfg file history = acts-AreWithin history _ (load-AreWithin now cfg file)
