-- ===== src/ProxyScore/Blackholes.antt =====
-- internal/proxyscore/store.go: which reports make a blackhole of a node, and which unmake it.
use trust_proxy.Base.{
  ℕ, suc, ◌<◌, String, Bool, true, false, List, [], ◌∷◌, none, some, ◌≡◌, refl, sym, ap, subst, ◌∙◌,
  arith, ◌==◌, eq_iff, eq_refl, not, ◌&&◌, nat_eq, ltb, leb, if◌then◌else◌, Bool-cases, if-cases,
  inl, inr,
}
use trust_proxy.ProxyScore.{Breakers, Floats, Outcome, Transfer, find}
use trust_proxy.ProxyScore.Config.{blackhole, stream_stall}
use trust_proxy.ProxyScore.Fields.{
  dialled-streak, measured-streak, judged-streak, stalled-streak, dialled-KeepsTag,
  transferred-KeepsTag, probed-KeepsTag, stalled-KeepsTag,
}
use trust_proxy.ProxyScore.Histories.{
  Report, dial, transfer, probe, stall, about, report, reports, hear, halt, Effect, report-Effect,
  nothing, dialling, transferring, probing, stalling,
}
use trust_proxy.ProxyScore.Operations.{
  Store, observe, record_transfer, note_probe, record_stream_stall, dialled, transferred, probed,
  heal, stalled, change, blackholed, countable, relevant, dirties, stat_locked, found_or_new,
}
use trust_proxy.ProxyScore.Records.{
  known, known-run_self, guarded-on, known-change_self, known-change_other,
}
use trust_proxy.ProxyScore.Tags.{normalize_tag, scorable}
use trust_proxy.ProxyScore.Evidence.{
  speaks, evidence, all_evidence, all_against, lead, all_against-lead, after, evidence_other,
  lead-and_then,
}

module _ (B : Breakers) (F : Floats) where
  open B use {Breaker}
  open F use {Float}

  abbrev streak_of : String → Store B F → ℕ
  streak_of key s = (known B F key s).blackhole_streak

  -- A report on another node leaves the streak alone.
  effect_other :
      (r : Report) {s s' : Store B F} (key : String)
      → Effect B F s r s'
      → (about r == key) ≡ false
      → known B F key s' ≡ known B F key s
  unfolding about
  effect_other r key nothing other = refl
  effect_other r {s} key (dialling now tag o) other =
      known-change_other B F (dialled B F now o) (dialled-KeepsTag B F now o) true _ s key other
  effect_other r {s} key (transferring now tag t) other =
      known-change_other B F (transferred B F now t) (transferred-KeepsTag B F now t)
        (dirties B F t) _ s key other
  effect_other r {s} key (probing now tag ok latency) other =
      known-change_other B F (probed B F now latency) (probed-KeepsTag B F now latency) true _ s key
        other
  effect_other r {s} key (stalling now tag) other =
      known-change_other B F (stalled B F now) (stalled-KeepsTag B F now) true _ s key other

  module _ (s : Store B F) (on : s.cfg.disabled ≡ false) (limited : 0 < blackhole s.cfg) where
    dial_self :
        (now : ℕ) (tag : String) (o : Outcome)
        → scorable (normalize_tag tag) ≡ true
        → streak_of (normalize_tag tag) (report B F (dial now tag o) s)
          ≡ streak_of (normalize_tag tag) s
    unfolding report observe
    dial_self now tag o node =
        ap (λ st. st.blackhole_streak)
          (known-run_self B F (dialled B F now o) (dialled-KeepsTag B F now o) true tag s node on)
        ∙ dialled-streak B F now o s.cfg (known B F (normalize_tag tag) s)

    probe_self :
        (now : ℕ) (tag : String) (latency : ℕ)
        → scorable (normalize_tag tag) ≡ true
        → streak_of (normalize_tag tag) (report B F (probe now tag true latency) s) ≡ 0
    unfolding report note_probe probed heal
    probe_self now tag latency node =
        ap (λ st. st.blackhole_streak)
          (known-run_self B F (probed B F now latency) (probed-KeepsTag B F now latency) true tag s
            node on)

    probe_failed :
        (now : ℕ) (tag : String) (latency : ℕ) → report B F (probe now tag false latency) s ≡ s
    unfolding report note_probe
    probe_failed now tag latency = refl

    stall_self :
        (now : ℕ) (tag : String)
        → scorable (normalize_tag tag) ≡ true
        → streak_of (normalize_tag tag) (report B F (stall now tag) s)
          ≡ streak_of (normalize_tag tag) s
    unfolding report record_stream_stall
    stall_self now tag node =
        ap (streak_of (normalize_tag tag)) (guarded-on B F tag (halt B F now) s node on)
        ∙ elim (if-cases (nat_eq (stream_stall s.cfg) 0) s
            (change B F (stalled B F now) true (normalize_tag tag) s)) [
              | inl off ↦ ap (streak_of (normalize_tag tag)) off
              | inr ran ↦
                  ap (streak_of (normalize_tag tag)) ran
                  ∙ ap (λ st. st.blackhole_streak)
                      (known-change_self B F (stalled B F now) (stalled-KeepsTag B F now) true _ s)
                  ∙ stalled-streak B F now s.cfg (known B F (normalize_tag tag) s)
            ]

    heard_self :
        (now : ℕ) (key : String) (t : Transfer)
        → streak_of key (hear B F now t key s) ≡ (
            if speaks t
            then if ltb 0 t.download then 0 else suc (streak_of key s)
            else streak_of key s)
    heard_self now key t = elim (Bool-cases (not (countable B F t) && not (relevant B F s.cfg t))) [
      | inl silent ↦ rw silent (ground (arith, silent, limited))
      | inr heard ↦ rw heard (
          ap (λ st. st.blackhole_streak)
            (known-change_self B F (transferred B F now t) (transferred-KeepsTag B F now t)
              (dirties B F t) key s)
          ∙ judged-streak B F now t s.cfg _
          ∙ ground (arith, limited, measured-streak B F now t (known B F key s)))
    ]

    transfer_self :
        (now : ℕ) (tag : String) (t : Transfer)
        → scorable (normalize_tag tag) ≡ true
        → streak_of (normalize_tag tag) (report B F (transfer now tag t) s) ≡ (
            if not (nat_eq t.duration 0) && speaks t
            then if ltb 0 t.download then 0 else suc (streak_of (normalize_tag tag) s)
            else streak_of (normalize_tag tag) s)
    unfolding report record_transfer
    transfer_self now tag t node = elim (Bool-cases (nat_eq t.duration 0)) [
      | inl instant ↦ rw instant refl
      | inr timed ↦ rw timed (
          ap (streak_of (normalize_tag tag)) (guarded-on B F tag (hear B F now t) s node on)
          ∙ heard_self now (normalize_tag tag) t)
    ]

    report_self :
        (r : Report)
        → scorable (about r) ≡ true
        → streak_of (about r) (report B F r s)
          ≡ after (evidence (about r) r) (streak_of (about r) s)
    unfolding about evidence
    report_self (dial now tag o) node = dial_self now tag o node
    report_self (transfer now tag t) node =
        transfer_self now tag t node
        ∙ rw (eq_refl (normalize_tag tag)) (
            branch (not (nat_eq t.duration 0) && speaks t) (ltb 0 t.download)
              (streak_of (normalize_tag tag) s))
      where
        branch :
            (a b : Bool) (n : ℕ)
            → (if a then if b then 0 else suc n else n) ≡ after (if a then some (not b) else none) n
        branch true true n = refl
        branch true false n = refl
        branch false b n = refl
    report_self (probe now tag true latency) node =
        probe_self now tag latency node ∙ rw (eq_refl (normalize_tag tag)) refl
    report_self (probe now tag false latency) node =
        ap (streak_of (normalize_tag tag)) (probe_failed now tag latency)
        ∙ rw (eq_refl (normalize_tag tag)) refl
    report_self (stall now tag) node = stall_self now tag node

    -- What a report makes of the streak is what its evidence says.
    report-streak :
        (r : Report) (key : String)
        → scorable key ≡ true
        → streak_of key (report B F r s) ≡ after (evidence key r) (streak_of key s)
    report-streak r key node = elim (Bool-cases (about r == key)) [
      | inr other ↦
          ap (λ st. st.blackhole_streak) (effect_other r key (report-Effect B F r s) other)
          ∙ ap (λ e. after e (streak_of key s)) (sym (evidence_other r key other))
      | inl same ↦
          let e : about r ≡ key = (eq_iff (about r) key).0 same in
          subst (λ k. streak_of k (report B F r s) ≡ after (evidence k r) (streak_of k s)) e
            (report_self r (ap scorable e ∙ node))
    ]

  effect-cfg : (r : Report) {s s' : Store B F} → Effect B F s r s' → s'.cfg ≡ s.cfg
  unfolding change
  effect-cfg r nothing = refl
  effect-cfg r (dialling now tag o) = refl
  effect-cfg r (transferring now tag t) = refl
  effect-cfg r (probing now tag ok latency) = refl
  effect-cfg r (stalling now tag) = refl

  reports-cfg : (rs : List Report) (s : Store B F) → (reports B F rs s).cfg ≡ s.cfg
  unfolding reports
  reports-cfg [] s = refl
  reports-cfg (r ∷ rs) s = effect-cfg r (report-Effect B F r (reports B F rs s)) ∙ reports-cfg rs s

  reports-streak :
      (rs : List Report) (s : Store B F) (key : String)
      → scorable key ≡ true
      → s.cfg.disabled ≡ false
      → 0 < blackhole s.cfg
      → streak_of key s ≡ 0
      → streak_of key (reports B F rs s) ≡ lead (all_evidence key rs)
  unfolding reports all_evidence
  reports-streak [] s key node on limited fresh = fresh
  reports-streak (r ∷ rs) s key node on limited fresh =
      let same = reports-cfg rs s in
      report-streak (reports B F rs s) (ap (λ c. c.disabled) same ∙ on)
        (subst (λ c. 0 < blackhole c) (sym same) limited) r key node
      ∙ ap (after (evidence key r)) (reports-streak rs s key node on limited fresh)
      ∙ sym (lead-and_then (evidence key r) (all_evidence key rs))

  -- After any history of reports, a node of which the store knew nothing is a blackhole exactly if
  -- the detection is on and the newest pieces of evidence, as many as the limit, are all against it:
  -- connections through it that got their handshake and sent bytes to which nothing came back. A
  -- connection that is answered and a probe that succeeds are evidence for it; dials and stalls are
  -- no evidence.
  pub blackholed_by_evidence :
      (rs : List Report) (s : Store B F) (key : String)
      → scorable key ≡ true
      → s.cfg.disabled ≡ false
      → find key s.stats ≡ none
      → blackholed B F s.cfg (known B F key (reports B F rs s))
        ≡ (ltb 0 (blackhole s.cfg) && all_against (blackhole s.cfg) (all_evidence key rs))
  unfolding stat_locked
  blackholed_by_evidence rs s key node on absent = elim (Bool-cases (ltb 0 (blackhole s.cfg))) [
    | inr off ↦ rw off refl
    | inl limited ↦ rw limited (
        ap (leb (blackhole s.cfg)) (
          reports-streak rs s key node on (ground (arith, limited))
            (ap (λ o. (found_or_new B F key o).blackhole_streak) absent))
        ∙ sym (all_against-lead (blackhole s.cfg) (all_evidence key rs)))
  ]
