-- ===== src/ProxyScore/Unsaved.antt =====
-- internal/proxyscore/store.go: a change that RecordTransfer does not mark to be saved.
use trust_proxy.Base.{
  ℕ, ◌+◌, ◌<◌, String, true, false, none, ◌≡◌, ap, ◌∙◌, arith, nat_eq, ltb, leb, not, ◌&&◌, ◌||◌,
}
use trust_proxy.ProxyScore.{Breakers, Floats, Transfer, min_throughput_bytes}
use trust_proxy.ProxyScore.Config.{blackhole}
use trust_proxy.ProxyScore.Fields.{transferred-KeepsTag, judged-streak}
use trust_proxy.ProxyScore.Files.{write_out, flush}
use trust_proxy.ProxyScore.Histories.{hear}
use trust_proxy.ProxyScore.Operations.{
  Store, record_transfer, measured, transferred, change, blackholed, countable, relevant, dirties,
}
use trust_proxy.ProxyScore.Records.{known, taken, passed, known-change_self, guarded-on}
use trust_proxy.ProxyScore.Tags.{normalize_tag, scorable}

module _ (B : Breakers) (F : Floats) where
  open B use {Breaker}
  open F use {Float}

  -- A store of which the file has all, and a connection that is answered with fewer bytes than are
  -- measured: the node is no blackhole in memory, and no later flush writes that down. So a restart
  -- reads the file as it was, the blackhole in it included.
  pub answer_not_saved :
      (now later : ℕ) (tag : String) (t : Transfer) (s : Store B F)
      → scorable (normalize_tag tag) ≡ true
      → s.cfg.disabled ≡ false
      → s.dirty ≡ false
      → nat_eq t.duration 0 ≡ false
      → t.handshook ≡ true
      → 0 < t.download
      → t.upload + t.download < min_throughput_bytes
      → 0 < blackhole s.cfg
      → (blackholed B F s.cfg (known B F (normalize_tag tag) (record_transfer B F now tag t s))
          ≡ false)
        × ((flush B F later (record_transfer B F now tag t s)).1 ≡ none)
  unfolding record_transfer change flush
  answer_not_saved now later tag t s node on clean timed shook answered short limited = (
    ap (λ (n : ℕ). ltb 0 (blackhole s.cfg) && leb (blackhole s.cfg) n) forgotten
        ∙ ground (arith, limited),
    clean_flush (record_transfer B F now tag t s) (ap (λ x. x.dirty) ran ∙ still_clean),
  )
    where
      key : String
      key = normalize_tag tag

      heard : (not (countable B F t) && not (relevant B F s.cfg t)) ≡ false
      heard = ground (arith, shook, answered, limited)

      ran :
          record_transfer B F now tag t s
          ≡ change B F (transferred B F now t) (dirties B F t) (normalize_tag tag) s
      ran = passed s _ _ timed ∙ guarded-on B F tag (hear B F now t) s node on ∙ passed s _ _ heard

      forgotten : (known B F key (record_transfer B F now tag t s)).blackhole_streak ≡ 0
      forgotten =
          ap (λ x. (known B F key x).blackhole_streak) ran
          ∙ ap (λ st. st.blackhole_streak)
              (known-change_self B F (transferred B F now t) (transferred-KeepsTag B F now t)
                (dirties B F t) key s)
          ∙ judged-streak B F now t s.cfg (measured B F now t (known B F key s))
          ∙ ground (arith, shook, answered, limited)

      still_clean : (s.dirty || dirties B F t) ≡ false
      still_clean = ground (arith, clean, answered, short)

      clean_flush : (x : Store B F) → x.dirty ≡ false → (flush B F later x).1 ≡ none
      clean_flush x h = ap (λ r. r.1) (taken (x, none) (write_out B F later x) _ (ap not h))
