-- ===== src/ProxyScore/Operations.antt =====
-- internal/proxyscore/store.go: what changes the records. Each operation takes the time of its call;
-- the lock is held for a whole operation.
use trust_proxy.Base.{
  nat_eq, ℕ, zero, suc, ◌+◌, ◌-◌, ◌*◌, ◌/◌, ◌%◌, String, Bool, true, false, List, [], ◌∷◌, ◌++◌,
  Option, none, some, not, ◌&&◌, ◌||◌, if◌then◌else◌, ltb, leb, length, drop, map,
}
use trust_proxy.Base.Int.{pos}
use trust_proxy.ProxyScore.{
  Breakers, Floats, Outcome, Transfer, Stats, find, put, second, max_series, neutral_reliability,
  max_breaker_trip, min_throughput_bytes,
}
use trust_proxy.ProxyScore.Config.{
  Config, break_fails, break_delay, break_oks, reward, penalty, streak, blackhole, stream_stall,
}
use trust_proxy.ProxyScore.Tags.{normalize_tag, scorable}

abbrev pub min : ℕ → ℕ → ℕ
min a b = if ltb a b then a else b

-- clamp100 at a sum of whole numbers; below 0 the subtraction on ℕ stops by itself.
abbrev pub clamp100 : ℕ → ℕ
clamp100 v = if ltb 100 v then 100 else v

-- pushInt and pushFloat: the newest elements, `max_series` at most.
unfoldable pub last_series {ℓ} : {A : Type ℓ} → List A → List A
last_series s = if ltb max_series (length s) then drop (length s - max_series) s else s

unfoldable pub push {ℓ} : {A : Type ℓ} → List A → A → List A
unfolding last_series
push s v = last_series (s ++ v ∷ [])

module _ (B : Breakers) (F : Floats) where
  open B use {Breaker, build, try_acquire, record_success, record_failure, is_open}
  open F use {Float, of_int, add, div}

  -- `dirty` is set where the records differ from the file.
  pub record Store : Type 0 where
    pub cfg : Config
    pub stats : List (Stats Breaker Float)
    pub dirty : Bool

  abbrev pub new_stats : String → Stats Breaker Float
  new_stats tag = record {
    tag = tag;
    reliability = 100;
    samples = 0;
    ok_streak = 0;
    fail_streak = 0;
    latency_ms = [];
    throughput_kbps = [];
    blackhole_streak = 0;
    blackholed_at = none;
    last_ok = true;
    last_err = "";
    updated_at = none;
    breaker = none;
  }

  abbrev pub found_or_new : String → Option (Stats Breaker Float) → Stats Breaker Float
  found_or_new tag none = new_stats tag
  found_or_new tag (some st) = st

  abbrev pub breaker_of : Config → Stats Breaker Float → Breaker
  breaker_of cfg st = elim st.breaker [
    | none ↦ build (break_fails cfg) (break_delay cfg * second) (break_oks cfg)
    | some b ↦ b
  ]

  abbrev pub with_breaker : Stats Breaker Float → Breaker → Stats Breaker Float
  with_breaker st b = record st { breaker = some b }

  -- statLocked, without the entry in the map: that is written by the caller.
  unfoldable pub stat_locked : Config → String → List (Stats Breaker Float) → Stats Breaker Float
  stat_locked cfg tag sts =
      let st = found_or_new tag (find tag sts) in with_breaker st (breaker_of cfg st)

  -- A change of the record of a tag, written to the map, and whether it marks the store as dirty.
  unfoldable pub change :
      (Config → Stats Breaker Float → Stats Breaker Float) → Bool → String → Store → Store
  unfolding stat_locked
  change f dirties tag s = record s {
    stats = put (f s.cfg (stat_locked s.cfg tag s.stats)) s.stats;
    dirty = s.dirty || dirties;
  }

  -- The head of an operation: it stops at a tag that is no node, and where scoring is off.
  unfoldable pub guarded : String → (String → Store → Store) → Store → Store
  guarded tag run s =
      let t = normalize_tag tag in
      if not (scorable t) then s else if s.cfg.disabled then s else run t s

  -- What an observed dial does to the record, the breaker left out.
  unfoldable pub count_dial : Config → ℕ → Outcome → Stats Breaker Float → Stats Breaker Float
  unfolding push last_series
  count_dial cfg now o st =
      if o.success
      then record st {
        samples = suc st.samples;
        last_ok = true;
        last_err = o.err;
        updated_at = some now;
        fail_streak = 0;
        ok_streak = suc st.ok_streak;
        reliability = clamp100 (st.reliability + reward cfg * min (suc st.ok_streak) (streak cfg));
        latency_ms =
            if ltb 0 o.latency then push st.latency_ms (o.latency / 1000000) else st.latency_ms;
      }
      else record st {
        samples = suc st.samples;
        last_ok = false;
        last_err = o.err;
        updated_at = some now;
        ok_streak = 0;
        fail_streak = suc st.fail_streak;
        reliability =
            clamp100 (st.reliability - penalty cfg * min (suc st.fail_streak) (streak cfg));
      }

  abbrev pub advance : ℕ → Bool → Breaker → Breaker
  advance now ok b =
      let held = (try_acquire now b).0 in
      if ok then record_success now held else record_failure now held

  abbrev pub on_some : (Breaker → Breaker) → Option Breaker → Option Breaker
  on_some f none = none
  on_some f (some b) = some (f b)

  abbrev pub on_breaker : (Breaker → Breaker) → Stats Breaker Float → Stats Breaker Float
  on_breaker f st = record st { breaker = on_some f st.breaker }

  unfoldable pub dialled : ℕ → Outcome → Config → Stats Breaker Float → Stats Breaker Float
  unfolding count_dial
  dialled now o cfg st = on_breaker (advance now o.success) (count_dial cfg now o st)

  unfoldable pub observe : ℕ → String → Outcome → Store → Store
  unfolding guarded change dialled
  observe now tag o = guarded tag (change (dialled now o) true)

  -- The loop of forceBreakerOpen, with the rounds that are left.
  unfoldable pub trip : ℕ → ℕ → Breaker → Breaker
  trip now zero b = b
  trip now (suc k) b = elim (is_open b) [
    | true ↦ b
    | false ↦ trip now k (record_failure now (try_acquire now b).0)
  ]

  unfoldable pub force_breaker_open : ℕ → Stats Breaker Float → Stats Breaker Float
  unfolding trip
  force_breaker_open now = on_breaker (trip now max_breaker_trip)

  -- float64(bytes) / 1024 / Duration.Seconds()
  unfoldable pub rate : Transfer → Float
  rate t =
      let seconds =
        add (of_int (pos (t.duration / second)))
          (div (of_int (pos (t.duration % second))) (of_int (pos second))) in
      div (div (of_int (pos (t.upload + t.download))) (of_int (pos 1024))) seconds

  abbrev pub countable : Transfer → Bool
  countable t = leb min_throughput_bytes (t.upload + t.download)

  -- Whether a transfer says something on a blackhole.
  abbrev pub relevant : Config → Transfer → Bool
  relevant cfg t = ltb 0 (blackhole cfg) && t.handshook && (ltb 0 t.download || ltb 0 t.upload)

  -- One more connection to which nothing came back.
  unfoldable pub unanswered : ℕ → Config → Stats Breaker Float → Stats Breaker Float
  unfolding force_breaker_open
  unanswered now cfg st =
      let counted = record st {
        blackhole_streak = suc st.blackhole_streak;
        updated_at = some now;
      } in
      if leb (blackhole cfg) (suc st.blackhole_streak)
      then force_breaker_open now (record counted {
        blackholed_at = some now;
        last_ok = false;
        last_err = "blackhole: handshake ok, nothing came back";
        reliability = 0;
        ok_streak = 0;
      })
      else counted

  unfoldable pub judged : ℕ → Transfer → Config → Stats Breaker Float → Stats Breaker Float
  unfolding unanswered
  judged now t cfg st =
      if relevant cfg t
      then if ltb 0 t.download
        then record st { blackhole_streak = 0; blackholed_at = none }
        else unanswered now cfg st
      else st

  unfoldable pub measured : ℕ → Transfer → Stats Breaker Float → Stats Breaker Float
  unfolding rate push last_series
  measured now t st =
      if countable t
      then record st { throughput_kbps = push st.throughput_kbps (rate t); updated_at = some now }
      else st

  abbrev pub transferred : ℕ → Transfer → Config → Stats Breaker Float → Stats Breaker Float
  transferred now t cfg st = judged now t cfg (measured now t st)

  -- An answer that is too short to be measured does not mark the store as dirty.
  abbrev pub dirties : Transfer → Bool
  dirties t = countable t || not (ltb 0 t.download)

  unfoldable pub record_transfer : ℕ → String → Transfer → Store → Store
  unfolding guarded change judged measured
  record_transfer now tag t s =
      if nat_eq t.duration 0
      then s
      else guarded tag
          (λ key s'.
            if not (countable t) && not (relevant s'.cfg t)
            then s'
            else change (transferred now t) (dirties t) key s')
          s

  abbrev pub blackholed : Config → Stats Breaker Float → Bool
  blackholed cfg st = ltb 0 (blackhole cfg) && leb (blackhole cfg) st.blackhole_streak

  abbrev pub trial : ℕ → Breaker → Breaker
  trial now b =
      let asked = try_acquire now b in if asked.1 then record_success now asked.0 else asked.0

  -- What a probe that succeeded does to the record, the breaker left out.
  unfoldable pub heal : ℕ → ℕ → Config → Stats Breaker Float → Stats Breaker Float
  unfolding push last_series
  heal now latency cfg st = record st {
    blackhole_streak = 0;
    blackholed_at = none;
    latency_ms = if ltb 0 latency then push st.latency_ms (latency / 1000000) else st.latency_ms;
    fail_streak = st.fail_streak - 1;
    reliability =
        if ltb st.reliability neutral_reliability then neutral_reliability else st.reliability;
    last_ok = true;
    last_err = if blackholed cfg st then "" else st.last_err;
    updated_at = some now;
  }

  unfoldable pub probed : ℕ → ℕ → Config → Stats Breaker Float → Stats Breaker Float
  unfolding heal
  probed now latency cfg st = on_breaker (trial now) (heal now latency cfg st)

  unfoldable pub note_probe : ℕ → String → Bool → ℕ → Store → Store
  unfolding guarded change probed
  note_probe now tag success latency s =
      if success then guarded tag (change (probed now latency) true) s else s

  unfoldable pub stalled : ℕ → Config → Stats Breaker Float → Stats Breaker Float
  unfolding force_breaker_open
  stalled now cfg st = force_breaker_open now (record st {
    ok_streak = 0;
    fail_streak = suc st.fail_streak;
    reliability = clamp100 (st.reliability - penalty cfg * min (suc st.fail_streak) (streak cfg));
    last_ok = false;
    last_err = "stream stall: upload then silence (conn killed)";
    updated_at = some now;
    samples = suc st.samples;
  })

  unfoldable pub record_stream_stall : ℕ → String → Store → Store
  unfolding guarded change stalled
  record_stream_stall now tag =
      guarded tag
        (λ key s. if nat_eq (stream_stall s.cfg) 0 then s else change (stalled now) true key s)

  abbrev pub without_breaker : Stats Breaker Float → Stats Breaker Float
  without_breaker st = record st { breaker = none }

  abbrev pub same_breakers : Config → Config → Bool
  same_breakers c d =
      nat_eq (break_fails c) (break_fails d)
      && nat_eq (break_delay c) (break_delay d)
      && nat_eq (break_oks c) (break_oks d)

  unfoldable pub set_config : Config → Store → Store
  set_config cfg s = record s {
    cfg = cfg;
    stats = if same_breakers s.cfg cfg then s.stats else map without_breaker s.stats;
  }
