-- ===== src/ProxyScore/Histories.antt =====
-- internal/proxyscore/store.go: sequences of what the data plane reports, the newest first.
use trust_proxy.Base.{
  ℕ, String, Bool, true, false, List, [], ◌∷◌, ◌≡◌, refl, sym, subst, ◌∙◌, nat_eq, not, ◌&&◌,
  if-cases, inl, inr, if◌then◌else◌,
}
use trust_proxy.ProxyScore.{Breakers, Floats, Outcome, Transfer}
use trust_proxy.ProxyScore.Operations.{
  Store, observe, dialled, record_transfer, transferred, note_probe, probed, record_stream_stall,
  stalled, change, guarded, countable, relevant, dirties,
}
use trust_proxy.ProxyScore.Config.{stream_stall}
use trust_proxy.ProxyScore.Records.{guarded-cases}
use trust_proxy.ProxyScore.Tags.{normalize_tag, scorable}

pub data Report : Type 0 where
  dial : ℕ → String → Outcome → Report
  transfer : ℕ → String → Transfer → Report
  probe : ℕ → String → Bool → ℕ → Report
  stall : ℕ → String → Report

unfoldable pub about : Report → String
unfolding normalize_tag
about (dial now tag o) = normalize_tag tag
about (transfer now tag t) = normalize_tag tag
about (probe now tag ok latency) = normalize_tag tag
about (stall now tag) = normalize_tag tag

module _ (B : Breakers) (F : Floats) where
  open B use {Breaker}
  open F use {Float}

  unfoldable pub report : Report → Store B F → Store B F
  unfolding observe record_transfer note_probe record_stream_stall
  report (dial now tag o) s = observe B F now tag o s
  report (transfer now tag t) s = record_transfer B F now tag t s
  report (probe now tag ok latency) s = note_probe B F now tag ok latency s
  report (stall now tag) s = record_stream_stall B F now tag s

  -- The newest report stands first.
  unfoldable pub reports : List Report → Store B F → Store B F
  unfolding report
  reports [] s = s
  reports (r ∷ rs) s = report r (reports rs s)

  -- A report changes one record by one of four functions, or nothing.
  pub data Effect (s : Store B F) : Report → Store B F → Type 0 where
    nothing : {r : Report} → Effect s r s
    dialling :
        (now : ℕ) (tag : String) (o : Outcome)
        → Effect s (dial now tag o) (change B F (dialled B F now o) true (normalize_tag tag) s)
    transferring :
        (now : ℕ) (tag : String) (t : Transfer)
        → Effect s
            (transfer now tag t)
            (change B F (transferred B F now t) (dirties B F t) (normalize_tag tag) s)
    probing :
        (now : ℕ) (tag : String) (ok : Bool) (latency : ℕ)
        → Effect s
            (probe now tag ok latency)
            (change B F (probed B F now latency) true (normalize_tag tag) s)
    stalling :
        (now : ℕ) (tag : String)
        → Effect s (stall now tag) (change B F (stalled B F now) true (normalize_tag tag) s)

  -- What RecordTransfer does behind its guards.
  abbrev pub hear : ℕ → Transfer → String → Store B F → Store B F
  hear now t key s =
      if not (countable B F t) && not (relevant B F s.cfg t)
      then s
      else change B F (transferred B F now t) (dirties B F t) key s

  -- What RecordStreamStall does behind its guards.
  abbrev pub halt : ℕ → String → Store B F → Store B F
  halt now key s =
      if nat_eq (stream_stall s.cfg) 0 then s else change B F (stalled B F now) true key s

  moved : {s s' s'' : Store B F} (r : Report) → s' ≡ s'' → Effect s r s'' → Effect s r s'
  moved {s} r e effect = subst (Effect s r) (sym e) effect

  pub report-Effect : (r : Report) (s : Store B F) → Effect s r (report r s)
  unfolding report observe record_transfer note_probe record_stream_stall
  report-Effect (dial now tag o) s =
      elim (guarded-cases B F tag (change B F (dialled B F now o) true) s) [
        | inl stopped ↦ moved _ stopped nothing
        | inr ran ↦ moved _ ran (dialling now tag o)
      ]
  report-Effect (transfer now tag t) s =
      elim (if-cases (nat_eq t.duration 0) s (guarded B F tag (hear now t) s)) [
        | inl stopped ↦ moved _ stopped nothing
        | inr timed ↦ elim (guarded-cases B F tag (hear now t) s) [
          | inl stopped ↦ moved _ (timed ∙ stopped) nothing
          | inr ran ↦
              elim (if-cases (not (countable B F t) && not (relevant B F s.cfg t)) s
                (change B F (transferred B F now t) (dirties B F t) (normalize_tag tag) s)) [
                  | inl silent ↦ moved _ (timed ∙ ran ∙ silent) nothing
                  | inr heard ↦ moved _ (timed ∙ ran ∙ heard) (transferring now tag t)
                ]
        ]
      ]
  report-Effect (probe now tag true latency) s =
      elim (guarded-cases B F tag (change B F (probed B F now latency) true) s) [
        | inl stopped ↦ moved _ stopped nothing
        | inr ran ↦ moved _ ran (probing now tag true latency)
      ]
  report-Effect (probe now tag false latency) s = nothing
  report-Effect (stall now tag) s = elim (guarded-cases B F tag (halt now) s) [
    | inl stopped ↦ moved _ stopped nothing
    | inr ran ↦
        elim (if-cases (nat_eq (stream_stall s.cfg) 0) s
          (change B F (stalled B F now) true (normalize_tag tag) s)) [
            | inl off ↦ moved _ (ran ∙ off) nothing
            | inr on ↦ moved _ (ran ∙ on) (stalling now tag)
          ]
  ]

  guarded-pseudo :
      (tag : String) (run : String → Store B F → Store B F) (s : Store B F)
      → scorable (normalize_tag tag) ≡ false
      → guarded B F tag run s ≡ s
  unfolding guarded
  guarded-pseudo tag run s pseudo = rw pseudo

  -- A report on what is no node changes nothing.
  pub report-pseudo : (r : Report) (s : Store B F) → scorable (about r) ≡ false → report r s ≡ s
  unfolding report observe record_transfer note_probe record_stream_stall about
  report-pseudo (dial now tag o) s pseudo =
      guarded-pseudo tag (change B F (dialled B F now o) true) s pseudo
  report-pseudo (transfer now tag t) s pseudo =
      elim (if-cases (nat_eq t.duration 0) s (guarded B F tag (hear now t) s)) [
        | inl stopped ↦ stopped
        | inr timed ↦ timed ∙ guarded-pseudo tag (hear now t) s pseudo
      ]
  report-pseudo (probe now tag true latency) s pseudo =
      guarded-pseudo tag (change B F (probed B F now latency) true) s pseudo
  report-pseudo (probe now tag false latency) s pseudo = refl
  report-pseudo (stall now tag) s pseudo = guarded-pseudo tag (halt now) s pseudo
