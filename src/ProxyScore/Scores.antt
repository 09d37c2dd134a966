-- ===== src/ProxyScore/Scores.antt =====
-- internal/proxyscore/store.go: the score of a record, and the views that the API returns.
pub mod Laws
use Prim.Native.String.{compare}
use Prim.Native.Nat.{Ordering}
use trust_proxy.Base.{
  ℕ, zero, suc, ◌+◌, ◌-◌, ◌*◌, ◌/◌, String, Bool, true, false, List, [], ◌∷◌, ◌++◌, Option, none,
  some, not, ◌&&◌, ◌||◌, if◌then◌else◌, ltb, leb, length, get_elem?, map, is_empty, ◌==◌,
}
use trust_proxy.Base.Int.{ℤ, pos, ◌+ℤ◌}
use trust_proxy.ProxyScore.{Breakers, Floats, Stats, find, second}
use trust_proxy.ProxyScore.Config.{
  Config, min_samples_of, w_rel, w_lat, w_tp, lat_good, lat_bad, tp_good,
}
use trust_proxy.ProxyScore.Operations.{Store, blackholed, clamp100 as clamp_nat}
use trust_proxy.ProxyScore.Tags.{contains, normalize_tag, scorable}

-- sort.Ints
unfoldable pub insert : ℕ → List ℕ → List ℕ
insert n [] = n ∷ []
insert n (x ∷ xs) = if leb n x then n ∷ x ∷ xs else x ∷ insert n xs

unfoldable pub sort : List ℕ → List ℕ
unfolding insert
sort [] = []
sort (x ∷ xs) = insert x (sort xs)

abbrev pub or_zero : Option ℕ → ℕ
or_zero none = 0
or_zero (some n) = n

-- The element in the middle of the sorted list, which is asked of no empty list.
unfoldable pub median : List ℕ → ℕ
unfolding sort
median s = or_zero (get_elem? (sort s) (length s / 2))

pub record View (F : Type 0) : Type 0 where
  pub tag : String
  pub score : F
  pub reliability : F
  pub latency : F
  pub throughput : F
  pub samples : ℕ
  pub min_samples : ℕ
  pub warming : Bool
  pub ok_streak : ℕ
  pub fail_streak : ℕ
  pub latency_ms : ℕ
  pub throughput_kbps : F
  pub breaker : String
  pub breaker_remaining : ℕ
  pub preferred : Bool
  pub blackhole : Bool
  pub blackhole_streak : ℕ
  pub last_ok : Bool
  pub last_err : String
  pub updated_at : Option ℕ

module _ (B : Breakers) (F : Floats) where
  open B use {Breaker, is_open, is_half_open, remaining}
  open F use {Float, of_int, add, sub, mul, div, less, leq, trunc}

  abbrev pub num : ℕ → Float
  num n = of_int (pos n)

  unfoldable pub clamp100 : Float → Float
  clamp100 v = if less v (num 0) then num 0 else if less (num 100) v then num 100 else v

  -- maxFloat, from the first element.
  unfoldable pub max_from : Float → List Float → Float
  max_from out [] = out
  max_from out (v ∷ vs) = max_from (if less out v then v else out) vs

  unfoldable pub latency_score : Config → Stats Breaker Float → Float
  unfolding median
  latency_score cfg st =
      let ms = num (median st.latency_ms) in
      let good = num (lat_good cfg) in
      let bad = num (lat_bad cfg) in
      if is_empty st.latency_ms
      then num 50
      else if leq ms good
      then num 100
      else if leq bad ms
      then num 0
      else div (mul (num 100) (sub bad ms)) (sub bad good)

  abbrev pub throughput_of : Config → List Float → Float
  throughput_of cfg [] = num 50
  throughput_of cfg (v ∷ vs) =
      let good = num (tp_good cfg) in
      let kbps = max_from v vs in
      if leq good kbps then num 100 else clamp100 (div (mul (num 100) kbps) good)

  unfoldable pub throughput_score : Config → Stats Breaker Float → Float
  unfolding max_from clamp100
  throughput_score cfg st = throughput_of cfg st.throughput_kbps

  -- The weighted mean of the three terms.
  unfoldable pub composite : Config → Stats Breaker Float → Float
  unfolding latency_score throughput_score clamp100
  composite cfg st =
      let rel = num (clamp_nat st.reliability) in
      let sum = of_int (w_rel cfg +ℤ w_lat cfg +ℤ w_tp cfg) in
      let terms =
        add (add (mul (of_int (w_rel cfg)) rel) (mul (of_int (w_lat cfg)) (latency_score cfg st)))
          (mul (of_int (w_tp cfg)) (throughput_score cfg st)) in
      if leq sum (num 0) then rel else clamp100 (div terms sum)

  unfoldable pub score_locked : Config → Stats Breaker Float → Float
  unfolding composite
  score_locked cfg st =
      if blackholed B F cfg st
      then num 0
      else if ltb st.samples (min_samples_of cfg)
      then num 100
      else composite cfg st

  unfoldable pub preferred_of : ℕ → Stats Breaker Float → Bool
  preferred_of now st = elim st.breaker [
    | none ↦ true
    | some b ↦ not (is_open b && ltb 0 (remaining now b))
  ]

  abbrev pub score_found : ℕ → Config → Option (Stats Breaker Float) → Float × Bool
  score_found now cfg none = (num 100, true)
  score_found now cfg (some st) = (score_locked cfg st, preferred_of now st)

  -- Score: what the data plane asks for.
  unfoldable pub score : ℕ → String → Store B F → Float × Bool
  unfolding score_locked preferred_of
  score now tag s =
      if s.cfg.disabled
      then (num 0, true)
      else score_found now s.cfg (find (normalize_tag tag) s.stats)

  abbrev pub at_least_one : ℕ → ℕ
  at_least_one zero = 1
  at_least_one (suc n) = suc n

  -- Whole seconds, rounded up.
  unfoldable pub breaker_state : ℕ → Stats Breaker Float → String × ℕ
  breaker_state now st = elim st.breaker [
    | none ↦ ("closed", 0)
    | some b ↦
        if is_open b
        then if ltb 0 (remaining now b)
          then ("open", at_least_one ((remaining now b + second - 1) / second))
          else ("half-open", 0)
        else if is_half_open b
        then ("half-open", 0)
        else ("closed", 0)
  ]

  unfoldable pub round1 : Float → Float
  round1 v = div (of_int (trunc (add (mul v (num 10)) (div (num 1) (num 2))))) (num 10)

  abbrev pub best_kbps : List Float → Float
  best_kbps [] = num 0
  best_kbps (v ∷ vs) = round1 (max_from v vs)

  -- `updated_at` is the time, of which the API has the text in RFC 3339.
  unfoldable pub view_locked : ℕ → Config → Stats Breaker Float → View Float
  unfolding breaker_state round1 score_locked latency_score throughput_score preferred_of max_from
      median
  view_locked now cfg st = record {
    tag = st.tag;
    score = round1 (score_locked cfg st);
    reliability = round1 (num (clamp_nat st.reliability));
    latency = round1 (latency_score cfg st);
    throughput = round1 (throughput_score cfg st);
    samples = st.samples;
    min_samples = min_samples_of cfg;
    warming = ltb st.samples (min_samples_of cfg);
    ok_streak = st.ok_streak;
    fail_streak = st.fail_streak;
    latency_ms = if is_empty st.latency_ms then 0 else median st.latency_ms;
    throughput_kbps = best_kbps st.throughput_kbps;
    breaker = (breaker_state now st).0;
    breaker_remaining = (breaker_state now st).1;
    preferred = preferred_of now st;
    blackhole = blackholed B F cfg st;
    blackhole_streak = st.blackhole_streak;
    last_ok = st.last_ok;
    last_err = st.last_err;
    updated_at = st.updated_at;
  }

  -- The row of a member that was not observed yet.
  abbrev pub unseen : Config → String → View Float
  unseen cfg tag = record {
    tag = tag;
    score = num 100;
    reliability = num 100;
    latency = num 50;
    throughput = num 50;
    samples = 0;
    min_samples = min_samples_of cfg;
    warming = true;
    ok_streak = 0;
    fail_streak = 0;
    latency_ms = 0;
    throughput_kbps = num 0;
    breaker = "closed";
    breaker_remaining = 0;
    preferred = true;
    blackhole = false;
    blackhole_streak = 0;
    last_ok = true;
    last_err = "";
    updated_at = none;
  }

  -- The loop over the tags that are asked for, with those that have a row.
  unfoldable pub unseen_rows : Config → List String → List String → List (View Float)
  unseen_rows cfg seen [] = []
  unseen_rows cfg seen (tag ∷ tags) =
      let t = normalize_tag tag in
      let skipped = not (scorable t) || contains seen t in
      let rest = unseen_rows cfg (if skipped then seen else t ∷ seen) tags in
      if skipped then rest else unseen cfg t ∷ rest

  -- The better score first, then the tag.
  abbrev pub precedes : View Float → View Float → Bool
  precedes a b =
      if less b.score a.score
      then true
      else if less a.score b.score
      then false
      else elim (compare a.tag b.tag) [ Ordering.lt ↦ true | _ ↦ false ]

  unfoldable pub insert_view : View Float → List (View Float) → List (View Float)
  insert_view v [] = v ∷ []
  insert_view v (x ∷ xs) = if precedes x v then x ∷ insert_view v xs else v ∷ x ∷ xs

  unfoldable pub sort_views : List (View Float) → List (View Float)
  unfolding insert_view
  sort_views [] = []
  sort_views (v ∷ vs) = insert_view v (sort_views vs)

  abbrev pub tags_of : List (Stats Breaker Float) → List String
  tags_of sts = map (λ st. st.tag) sts

  unfoldable pub snapshot : ℕ → List String → Store B F → List (View Float)
  unfolding view_locked unseen_rows sort_views
  snapshot now tags s =
      sort_views (map (view_locked now s.cfg) s.stats ++ unseen_rows s.cfg (tags_of s.stats) tags)
