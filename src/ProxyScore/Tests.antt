-- ===== src/ProxyScore/Tests.antt =====
-- internal/proxyscore/store.go: the theorems on the scores at a store of two nodes. The breakers here
-- count failures, and the floats are whole numbers.
use Prim.Native.String.{◌++◌ as append}
use trust_proxy.Base.{
  ℕ, ◌+◌, ◌-◌, ◌*◌, String, true, false, List, [], ◌∷◌, none, some, ◌≡◌, ◌≢◌, refl, arith, nat_eq,
  ltb, leb, ◌&&◌,
}
use trust_proxy.Base.Int.{ltb_ℤ}
use trust_proxy.ProxyScore.{Transfer, find, second}
use trust_proxy.ProxyScore.Config.{
  unset, penalty, streak, or_default, or_off, blackhole, break_fails,
}
use trust_proxy.ProxyScore.Operations.{
  Store, stat_locked, blackholed, record_transfer, record_stream_stall,
}
use trust_proxy.ProxyScore.Blackholes.{blackholed_by_evidence}
use trust_proxy.ProxyScore.Evidence.{all_against, all_evidence}
use trust_proxy.ProxyScore.Bounds.{AreWithin}
use trust_proxy.ProxyScore.Breaking.{CountsDown, breaker_open, stall_opens}
use trust_proxy.ProxyScore.Files.{
  saved, new, flush, write_out, is_kept, cutoff_of, sort_by_tag, insert_by_tag,
}
use trust_proxy.ProxyScore.Files.Laws.{strip, restart_keeps}
use trust_proxy.ProxyScore.Files.Sorting.{keep}
use trust_proxy.ProxyScore.Histories.{Report, dial, transfer, reports}
use trust_proxy.ProxyScore.Penalties.{escalation, failures, failures_cost, probes, probes_recover}
use trust_proxy.ProxyScore.Runs.{reported, flushed, acts, started-AreWithin}
use trust_proxy.ProxyScore.Scores.{score}
use trust_proxy.ProxyScore.Scores.Laws.{blackhole_ranks_last}
use trust_proxy.ProxyScore.Tags.Laws.{same_node, split_node}
use trust_proxy.ProxyScore.Unsaved.{answer_not_saved}
use trust_proxy.ProxyScore.Records.{known}
use trust_proxy.ProxyScore.Tags.{normalize_tag, split_slash, scorable}
use trust_proxy.ProxyScore.Samples.{Gauge, asked, breakers, floats, tokyo, store, empty, broken}

started-AreWithin_example :
    AreWithin
      (acts breakers floats
        (reported (dial 7 "tokyo" (record { success = false; latency = 0; err = "EOF" }))
          ∷ flushed 9
          ∷ [])
        (new breakers floats 6 unset (some (broken ∷ [])))).stats
started-AreWithin_example = started-AreWithin breakers floats 6 unset (some (broken ∷ [])) (
    reported (dial 7 "tokyo" (record { success = false; latency = 0; err = "EOF" }))
    ∷ flushed 9
    ∷ [])

abbrev outage : List (ℕ × String)
outage = (6, "EOF") ∷ (7, "timeout") ∷ []

failures_cost_example :
    ((known breakers floats
        (normalize_tag "anytls/tokyo")
        (failures breakers floats "anytls/tokyo" outage store)).reliability
      ≡ (known breakers floats (normalize_tag "anytls/tokyo") store).reliability
        - penalty unset
          * escalation
              (streak unset)
              (known breakers floats (normalize_tag "anytls/tokyo") store).fail_streak
              2)
    × ((known breakers floats
          (normalize_tag "anytls/tokyo")
          (failures breakers floats "anytls/tokyo" outage store)).fail_streak
        ≡ (known breakers floats (normalize_tag "anytls/tokyo") store).fail_streak + 2)
unfolding normalize_tag split_slash scorable stat_locked find
failures_cost_example =
    failures_cost breakers floats "anytls/tokyo" refl outage store refl (omega arith)

abbrev good_probes : List (ℕ × ℕ)
good_probes = (7, 80) ∷ []

probes_recover_example :
    ((known breakers floats
        (normalize_tag "tokyo")
        (probes breakers floats "tokyo" ((6, 90) ∷ good_probes) store)).reliability
      ≡ 90)
    × ((known breakers floats
          (normalize_tag "tokyo")
          (probes breakers floats "tokyo" ((6, 90) ∷ good_probes) store)).fail_streak
        ≡ 0)
    × (blackholed breakers floats
          (probes breakers floats "tokyo" ((6, 90) ∷ good_probes) store).cfg
          (known breakers floats
            (normalize_tag "tokyo")
            (probes breakers floats "tokyo" ((6, 90) ∷ good_probes) store))
        ≡ false)
unfolding normalize_tag split_slash scorable stat_locked find
probes_recover_example = probes_recover breakers floats "tokyo" refl (6, 90) good_probes store refl

abbrev unanswered : Transfer
unanswered = record { upload = 900; download = 0; duration = second; handshook = true }

abbrev answer : Transfer
answer = record { upload = 900; download = 40; duration = second; handshook = true }

-- The newest report stands first.
abbrev history : List Report
history =
    transfer 9 "osaka" unanswered
    ∷ dial 8 "osaka" (record { success = true; latency = 40; err = "" })
    ∷ transfer 7 "vmess/osaka" unanswered
    ∷ transfer 6 "osaka" unanswered
    ∷ []

abbrev saved_store : Store breakers floats
saved_store = record store { dirty = false }

blackholed_by_evidence_example :
    blackholed breakers floats unset
      (known breakers floats "osaka" (reports breakers floats history empty))
    ≡ (ltb 0 (blackhole unset) && all_against (blackhole unset) (all_evidence "osaka" history))
unfolding find scorable
blackholed_by_evidence_example =
    blackholed_by_evidence breakers floats history empty "osaka" refl refl refl

fewer_left : (now : ℕ) (b : Gauge) → nat_eq b.left 0 ≡ false → (asked now b).0.left - 1 ≡ b.left - 1
fewer_left now b closed = ground (arith, closed)

counts : CountsDown breakers
counts = record {
  left = λ b. b.left;
  left-build = λ fails delay oks. refl;
  is_open-left = λ b. refl;
  left-failure = fewer_left;
}

stall_opens_example :
    breaker_open breakers floats counts
      (known breakers floats
        (normalize_tag "osaka")
        (record_stream_stall breakers floats 9 "osaka" empty)).breaker
    ≡ leb (break_fails unset) 64
unfolding normalize_tag split_slash scorable find or_off or_default
stall_opens_example = stall_opens breakers floats counts 9 "osaka" empty refl refl refl refl

answer_not_saved_example :
    (blackholed breakers floats unset (
        known breakers floats
          (normalize_tag "tokyo")
          (record_transfer breakers floats 8 "tokyo" answer saved_store))
      ≡ false)
    × ((flush breakers floats 9 (record_transfer breakers floats 8 "tokyo" answer saved_store)).1
        ≡ none)
unfolding normalize_tag split_slash scorable or_off or_default
answer_not_saved_example =
    answer_not_saved breakers floats 8 9 "tokyo" answer saved_store refl refl refl refl refl
      (omega arith) (omega arith) (omega arith)

blackhole_ranks_last_example :
    ltb_ℤ (score breakers floats 9 "osaka" store).0 (score breakers floats 9 "tokyo" store).0
    ≡ false
unfolding normalize_tag split_slash find or_off or_default
blackhole_ranks_last_example =
    blackhole_ranks_last breakers floats 9 "tokyo" "osaka" store tokyo refl refl

tokyo_within : AreWithin store.stats
unfolding scorable find
tokyo_within = record {
  each = (
    record { reliable = omega arith; latencies = omega arith; rates = omega arith; node = refl },
    tt,
  );
  distinct = (refl, tt);
}

restart_keeps_example :
    find "tokyo" (new breakers floats 9 unset (some (saved breakers floats tokyo ∷ []))).stats
    ≡ strip breakers floats (
        keep breakers floats
          (is_kept breakers floats (cutoff_of breakers floats 9 unset))
          (find "tokyo" store.stats))
unfolding flush write_out sort_by_tag insert_by_tag normalize_tag split_slash or_default
restart_keeps_example =
    restart_keeps breakers floats 7 9 store (saved breakers floats tokyo ∷ []) "tokyo" (omega arith)
      tokyo_within (refl, tt) refl

same_node_example : normalize_tag (append "anytls" (append "/" "tokyo")) ≡ normalize_tag "tokyo"
unfolding normalize_tag split_slash
same_node_example = same_node "anytls" "tokyo" refl refl

split_node_example :
    normalize_tag (append "vmess" (append "/" (append "socks" (append "/" "tokyo"))))
    ≢ normalize_tag (append "socks" (append "/" "tokyo"))
split_node_example = split_node "vmess" "socks" "tokyo" refl refl
