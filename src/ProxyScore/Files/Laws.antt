-- ===== src/ProxyScore/Files/Laws.antt =====
-- internal/proxyscore/store.go: a restart keeps the records that are not stale, their breakers apart.
use trust_proxy.Base.{
  ℕ, ◌≤◌, String, Bool, true, false, List, [], ◌∷◌, Option, none, some, ◌≡◌, refl, sym, ap, subst,
  ◌∙◌, arith, ◌==◌, eq_iff, not, if◌then◌else◌, filter, map, All, All-filter, Bool-cases, if-cases,
  inl, inr, ◌⊎◌, length, ltb,
}
use trust_proxy.ProxyScore.{Breakers, Floats, Stats, find, put, max_series}
use trust_proxy.ProxyScore.Bounds.{IsWithin, AreDistinct, AreWithin}
use trust_proxy.ProxyScore.Files.{
  Saved, saved, repair, place, load_one, load_all, load, new, sort_by_tag, is_kept, cutoff_of,
  write_out, flush, before,
}
use trust_proxy.ProxyScore.Files.Sorting.{
  keep, ==-flip, find-filter, find-sort, sort-All, sort-AreDistinct,
}
use trust_proxy.ProxyScore.Runs.{filter-AreDistinct}
use trust_proxy.ProxyScore.Operations.{Store, without_breaker, last_series}
use trust_proxy.ProxyScore.Records.{find-put, taken, passed}
use trust_proxy.ProxyScore.Tags.{normalize_tag}

last_series-short {ℓ} : {A : Type ℓ} (s : List A) → length s ≤ max_series → last_series s ≡ s
unfolding last_series
last_series-short s h = ground arith

abbrev pub IsNormal : {B F : Type 0} → Stats B F → Type 0
IsNormal st = normalize_tag st.tag ≡ st.tag

module _ (B : Breakers) (F : Floats) where
  open B use {Breaker}
  open F use {Float}

  abbrev pub strip : Option (Stats Breaker Float) → Option (Stats Breaker Float)
  strip none = none
  strip (some st) = some (without_breaker B F st)

  abbrev or_else :
      Option (Stats Breaker Float) → Option (Stats Breaker Float) → Option (Stats Breaker Float)
  or_else none o = o
  or_else (some st) o = some st

  repair-saved :
      (st : Stats Breaker Float)
      → IsWithin st
      → IsNormal st
      → repair B F (saved B F st) ≡ without_breaker B F st
  unfolding repair normalize_tag last_series
  repair-saved st h normal =
      let whole : (if ltb 100 st.reliability then 100 else st.reliability) ≡ st.reliability =
        ground (arith, h.reliable) in
      λ i. record (without_breaker B F st) {
        tag = normal i;
        reliability = whole i;
        latency_ms = last_series-short st.latency_ms h.latencies i;
        throughput_kbps = last_series-short st.throughput_kbps h.rates i;
      }

  -- One record of a file that the store wrote.
  find-load_one :
      (cutoff : ℕ) (st : Stats Breaker Float) (acc : List (Stats Breaker Float)) (t : String)
      → IsWithin st
      → IsNormal st
      → find st.tag acc ≡ none
      → find t (load_one B F cutoff (saved B F st) acc) ≡ (
          if st.tag == t
          then or_else (strip (keep B F (is_kept B F cutoff) (some st))) (find t acc)
          else find t acc)
  unfolding load_one
  find-load_one cutoff st acc t h normal absent =
      ap (λ x. find t (place B F (before st.updated_at cutoff) x acc)) (repair-saved st h normal)
      ∙ placed (before st.updated_at cutoff)
    where
      put-find :
          find t (put (without_breaker B F st) acc)
          ≡ (if st.tag == t then some (without_breaker B F st) else find t acc)
      put-find = find-put (without_breaker B F st) acc t

      same : (b : Bool) (o : Option (Stats Breaker Float)) → o ≡ (if b then o else o)
      same true o = refl
      same false o = refl

      placed :
          (old : Bool)
          → find t (place B F old (without_breaker B F st) acc) ≡ (
              if st.tag == t
              then or_else (strip (keep B F (λ _. not old) (some st))) (find t acc)
              else find t acc)
      placed true = same (st.tag == t) (find t acc)
      placed false = rw (h.node, absent) put-find

  still_absent :
      (cutoff : ℕ) (x : Stats Breaker Float) (ys acc : List (Stats Breaker Float))
      → IsWithin x
      → IsNormal x
      → find x.tag acc ≡ none
      → find x.tag ys ≡ none
      → All (λ st. find st.tag acc ≡ none) ys
      → All (λ st. find st.tag (load_one B F cutoff (saved B F x) acc) ≡ none) ys
  unfolding find
  still_absent cutoff x [] acc w n a d others = tt
  still_absent cutoff x (y ∷ ys) acc w n a d others = elim (Bool-cases (y.tag == x.tag)) [
    | inl same ↦ cc (sym d ∙ taken (some y) (find x.tag ys) (y.tag == x.tag) same)
    | inr other ↦ (
      find-load_one cutoff x acc y.tag w n a
          ∙ passed _ (find y.tag acc) (x.tag == y.tag) (==-flip y.tag x.tag other)
          ∙ others.0,
      still_absent cutoff x ys acc w n a
          (sym (passed (some y) (find x.tag ys) (y.tag == x.tag) other) ∙ d) others.1,
    )
  ]

  -- The records of a file that the store wrote, over those that are there already.
  find-load_all :
      (cutoff : ℕ) (sts acc : List (Stats Breaker Float)) (t : String)
      → AreDistinct sts
      → All IsWithin sts
      → All IsNormal sts
      → All (λ st. find st.tag acc ≡ none) sts
      → find t (load_all B F cutoff (map (saved B F) sts) acc)
        ≡ or_else (strip (keep B F (is_kept B F cutoff) (find t sts))) (find t acc)
  unfolding load_all find
  find-load_all cutoff [] acc t d w n a = refl
  find-load_all cutoff (x ∷ xs) acc t d w n a =
      find-load_all cutoff xs (load_one B F cutoff (saved B F x) acc) t d.1 w.1 n.1
        (still_absent cutoff x xs acc w.0 n.0 a.0 d.0 a.1)
      ∙ ap (or_else (strip (keep B F (is_kept B F cutoff) (find t xs))))
          (find-load_one cutoff x acc t w.0 n.0 a.0)
      ∙ joined (Bool-cases (x.tag == t))
    where
      joined :
          ((x.tag == t) ≡ true) ⊎ ((x.tag == t) ≡ false)
          → or_else (strip (keep B F (is_kept B F cutoff) (find t xs))) (
              if x.tag == t
              then or_else (strip (keep B F (is_kept B F cutoff) (some x))) (find t acc)
              else find t acc)
            ≡ or_else
                (strip (keep B F (is_kept B F cutoff) (if x.tag == t then some x else find t xs)))
                (find t acc)
      joined (inr other) = rw other refl
      joined (inl same) =
          let none_behind : find t xs ≡ none =
            subst (λ k. find k xs ≡ none) ((eq_iff x.tag t).0 same) d.0 in
          rw (same, none_behind) refl

  flushed-file :
      (now : ℕ) (s : Store B F) (file : List (Saved Breaker Float))
      → (flush B F now s).1 ≡ some file
      → file
        ≡ map (saved B F) (sort_by_tag B F (filter (is_kept B F (cutoff_of B F now s.cfg)) s.stats))
  unfolding flush write_out
  flushed-file now s file written = elim (if-cases (not s.dirty) (s, none) (write_out B F now s)) [
    | inl clean ↦ cc (sym (ap (λ r. r.1) clean) ∙ written)
    | inr dirty ↦ cc (sym written ∙ ap (λ r. r.1) dirty)
  ]

  abbrev no_records : List (Stats Breaker Float)
  no_records = []

  none_there : (sts : List (Stats Breaker Float)) → All (λ st. find st.tag no_records ≡ none) sts
  unfolding find
  none_there [] = tt
  none_there (x ∷ xs) = (refl, none_there xs)

  -- What is found after a restart: the store is flushed, and a new one is opened on that file at a
  -- later time. It is the record that was there, its breaker apart, unless it is stale by then. The
  -- records are within their bounds, and each is kept under a tag that is its own normal form: one
  -- under another tag, as socks/tokyo, comes back under a shorter one.
  pub restart_keeps :
      (now later : ℕ) (s : Store B F) (file : List (Saved Breaker Float)) (t : String)
      → now ≤ later
      → AreWithin s.stats
      → All IsNormal s.stats
      → (flush B F now s).1 ≡ some file
      → find t (new B F later s.cfg (some file)).stats
        ≡ strip (keep B F (is_kept B F (cutoff_of B F later s.cfg)) (find t s.stats))
  unfolding flush write_out new load find
  restart_keeps now later s file t order h normal written =
      let p : Stats Breaker Float → Bool = is_kept B F (cutoff_of B F now s.cfg) in
      ap (λ rs. find t (load_all B F (cutoff_of B F later s.cfg) rs []))
        (flushed-file now s file written)
      ∙ find-load_all (cutoff_of B F later s.cfg) (sort_by_tag B F (filter p s.stats)) [] t
          (sort-AreDistinct B F _ (filter-AreDistinct p s.stats h.distinct))
          (sort-All B F IsWithin _ (All-filter IsWithin p s.stats h.each))
          (sort-All B F IsNormal _ (All-filter IsNormal p s.stats normal))
          (none_there (sort_by_tag B F (filter p s.stats)))
      ∙ ap (λ o. or_else (strip (keep B F (is_kept B F (cutoff_of B F later s.cfg)) o)) none)
          (find-sort B F (filter p s.stats) t (filter-AreDistinct p s.stats h.distinct)
            ∙ find-filter B F p t s.stats h.distinct)
      ∙ kept_later (find t s.stats)
    where
      both :
          (st : Stats Breaker Float)
          → or_else
              (strip (
                keep B F
                  (is_kept B F (cutoff_of B F later s.cfg))
                  (if is_kept B F (cutoff_of B F now s.cfg) st then some st else none)))
              none
            ≡ strip (if is_kept B F (cutoff_of B F later s.cfg) st then some st else none)
      both st = ground (arith, order)

      kept_later :
          (o : Option (Stats Breaker Float))
          → or_else
              (strip (
                keep B F
                  (is_kept B F (cutoff_of B F later s.cfg))
                  (keep B F (is_kept B F (cutoff_of B F now s.cfg)) o)))
              none
            ≡ strip (keep B F (is_kept B F (cutoff_of B F later s.cfg)) o)
      kept_later none = refl
      kept_later (some st) = both st
