-- ===== src/ProxyScore/Files.antt =====
-- internal/proxyscore/store.go: New with load, Flush and Reset. A file is the list of the records that
-- it holds, `none` where it cannot be read or decoded; a null among them is left out. Marshalling and
-- the write succeed or fail as an argument says.
pub mod Laws
pub mod Sorting
use Prim.Native.String.{compare}
use Prim.Native.Nat.{Ordering}
use trust_proxy.Base.{
  ℕ, suc, ◌+◌, ◌-◌, ◌*◌, String, Bool, true, false, List, [], ◌∷◌, Option, none, some, not, ◌||◌,
  if◌then◌else◌, ltb, filter, map, ◌&&◌, ◌==◌,
}
use trust_proxy.Base.Int.{ℤ, pos, is_negative, exceeds, pos_part}
use trust_proxy.ProxyScore.{Breakers, Floats, Stats, find, put, hour}
use trust_proxy.ProxyScore.Config.{Config, stale}
use trust_proxy.ProxyScore.Operations.{Store, last_series, without_breaker}
use trust_proxy.ProxyScore.Tags.{normalize_tag, scorable}

-- t.Before(cutoff), and t.After(u); the zero time is before all others.
abbrev pub before : Option ℕ → ℕ → Bool
before none cutoff = true
before (some t) cutoff = ltb t cutoff

abbrev pub after : Option ℕ → Option ℕ → Bool
after none u = false
after (some t) none = true
after (some t) (some u) = ltb u t

-- A record as the file has it: what the store makes sure of may be broken there.
pub record Saved (B F : Type 0) : Type 0 where
  pub stats : Stats B F
  pub reliability : ℤ
  pub samples : ℤ

module _ (B : Breakers) (F : Floats) where
  open B use {Breaker}
  open F use {Float}

  abbrev pub Record : Type 0
  Record = Stats Breaker Float

  abbrev pub cutoff_of : ℕ → Config → ℕ
  cutoff_of now cfg = now - stale cfg * hour

  unfoldable pub repair : Saved Breaker Float → Record
  unfolding last_series normalize_tag
  repair r = record r.stats {
    tag = normalize_tag r.stats.tag;
    reliability =
        if is_negative r.reliability || exceeds r.reliability 100
        then 100
        else pos_part r.reliability;
    samples = if is_negative r.samples then 0 else pos_part r.samples;
    latency_ms = last_series r.stats.latency_ms;
    throughput_kbps = last_series r.stats.throughput_kbps;
    breaker = none;
  }

  -- Whether the record that is there already is the newer one.
  abbrev pub is_newer : Option Record → Record → Bool
  is_newer none st = false
  is_newer (some prev) st = after prev.updated_at st.updated_at

  -- A record of the file put into the map; `old` tells that it is stale.
  abbrev pub place : Bool → Record → List Record → List Record
  place old st sts =
      if old
      then sts
      else if not (scorable st.tag)
      then sts
      else if is_newer (find st.tag sts) st
      then sts
      else put st sts

  unfoldable pub load_one : ℕ → Saved Breaker Float → List Record → List Record
  unfolding repair
  load_one cutoff r sts = place (before r.stats.updated_at cutoff) (repair r) sts

  unfoldable pub load_all : ℕ → List (Saved Breaker Float) → List Record → List Record
  unfolding load_one
  load_all cutoff [] sts = sts
  load_all cutoff (r ∷ rs) sts = load_all cutoff rs (load_one cutoff r sts)

  unfoldable pub load : ℕ → Config → Option (List (Saved Breaker Float)) → List Record
  unfolding load_all
  load now cfg none = []
  load now cfg (some rs) = load_all (cutoff_of now cfg) rs []

  unfoldable pub new : ℕ → Config → Option (List (Saved Breaker Float)) → Store B F
  unfolding load
  new now cfg file = record { cfg = cfg; stats = load now cfg file; dirty = false }

  abbrev pub tag_le : Record → Record → Bool
  tag_le a b = elim (compare a.tag b.tag) [ Ordering.gt ↦ false | _ ↦ true ]

  -- sort.Slice by the tags, which differ.
  unfoldable pub insert_by_tag : Record → List Record → List Record
  insert_by_tag st [] = st ∷ []
  insert_by_tag st (x ∷ xs) = if tag_le st x then st ∷ x ∷ xs else x ∷ insert_by_tag st xs

  unfoldable pub sort_by_tag : List Record → List Record
  unfolding insert_by_tag
  sort_by_tag [] = []
  sort_by_tag (st ∷ sts) = insert_by_tag st (sort_by_tag sts)

  abbrev pub saved : Record → Saved Breaker Float
  saved st = record {
    stats = without_breaker B F st;
    reliability = pos st.reliability;
    samples = pos st.samples;
  }

  abbrev pub is_kept : ℕ → Record → Bool
  is_kept cutoff st = not (before st.updated_at cutoff)

  -- Flush behind its guard.
  unfoldable pub write_out : ℕ → Store B F → Store B F × Option (List (Saved Breaker Float))
  unfolding sort_by_tag
  write_out now s =
      let kept = filter (is_kept (cutoff_of now s.cfg)) s.stats in
      (record s { stats = kept; dirty = false }, some (map saved (sort_by_tag kept)))

  -- The store behind a flush, and what is written, `none` where nothing is. A path is always given.
  -- The mark is cleared before the write, whether that succeeds or not.
  unfoldable pub flush : ℕ → Store B F → Store B F × Option (List (Saved Breaker Float))
  unfolding write_out
  flush now s = if not s.dirty then (s, none) else write_out now s

  unfoldable pub reset : ℕ → Store B F → Store B F × Option (List (Saved Breaker Float))
  unfolding flush
  reset now s = flush now (record s { stats = []; dirty = true })
