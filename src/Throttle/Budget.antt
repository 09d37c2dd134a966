-- ===== src/Throttle/Budget.antt =====
-- The budget of a client within its window, and the number of slots.
use trust_proxy.Base.{
  ℕ, suc, ◌+◌, ◌≤◌, String, Bool, true, false, List, [], ◌∷◌, Option, none, some, ◌≡◌, refl, sym,
  subst, arith, ◌==◌, ltb, leb, All, if◌then◌else◌, Bool-cases, inl, inr, eq_iff, eq_refl, ◌∙◌,
}
use trust_proxy.Throttle.{
  Bucket, Throttle, lookup, store, live, gc, is_over, allow, allow_of, acquire, release,
}

lookup-store :
    (k : String) (b : Bucket) (m : List (String × Bucket)) → lookup k (store k b m) ≡ some b
unfolding lookup store
lookup-store k b [] = ground (arith, eq_refl k)
lookup-store k b ((j, c) ∷ m) = ground (arith, eq_refl k, lookup-store k b m)

lookup-store_other :
    (k j : String) (b : Bucket) (m : List (String × Bucket))
    → (j == k) ≡ false
    → lookup k (store j b m) ≡ lookup k m
unfolding lookup store
lookup-store_other k j b [] h = ground arith
lookup-store_other k j b ((i, c) ∷ m) h =
    ground (arith, eq_iff i j, eq_iff i k, eq_iff j k, lookup-store_other k j b m h)

-- A bucket that is not over is not collected.
lookup-live :
    (now : ℕ) (k : String) (b : Bucket) (m : List (String × Bucket))
    → lookup k m ≡ some b
    → is_over now b ≡ false
    → lookup k (live now m) ≡ some b
unfolding lookup live
lookup-live now k b [] h fresh = cc
lookup-live now k b ((j, c) ∷ m) h fresh = ground (arith, lookup-live now k b m)

lookup-gc :
    (now : ℕ) (k : String) (b : Bucket) (t : Throttle)
    → lookup k t.seen ≡ some b
    → is_over now b ≡ false
    → lookup k (gc now t).seen ≡ some b
unfolding gc
lookup-gc now k b t h fresh = ground (arith, lookup-live now k b t.seen h fresh)

-- The calls of allow, and how many of a client were let through.
abbrev pub count_if_mine : Bool → ℕ
count_if_mine true = 1
count_if_mine false = 0

unfoldable pub run : List (ℕ × String) → Throttle → Throttle
run [] t = t
run ((now, c) ∷ calls) t = run calls (allow now c t).0

pub granted : String → List (ℕ × String) → Throttle → ℕ
granted client [] t = 0
granted client ((now, c) ∷ calls) t =
    let rest = granted client calls (allow now c t).0 in
    if c == client then count_if_mine (allow now c t).1 + rest else rest

gc-limit : (now : ℕ) (t : Throttle) → (gc now t).limit ≡ t.limit
unfolding gc
gc-limit now t = ground arith

allow_of_other :
    (now : ℕ) (c client : String) (t : Throttle) (o : Option Bucket)
    → (c == client) ≡ false
    → (lookup client (allow_of now c t o).0.seen ≡ lookup client t.seen)
      × ((allow_of now c t o).0.limit ≡ t.limit)
allow_of_other now c client t none h = (lookup-store_other client c _ t.seen h, refl)
allow_of_other now c client t (some b) h =
    let fresh =
      lookup-store_other client c (record { count = 1; reset = now + t.window }) t.seen h in
    let next = lookup-store_other client c (record b { count = suc b.count }) t.seen h in
    (ground (arith, fresh, next), ground arith)

-- What a call within the window makes of the bucket `b`, as long as `m` bounds it and the limit.
abbrev Spent : String → Bool → Bucket → ℕ → ℕ → Throttle × Bool → Type 0
Spent client mine b limit m r =
    (b' : Bucket) × (lookup client r.0.seen ≡ some b')
    × (b'.reset ≡ b.reset)
    × (r.0.limit ≡ limit)
    × ((if mine then count_if_mine r.1 else 0) + b.count ≡ b'.count)
    × (b'.count ≤ m)

allow_of_mine :
    (now : ℕ) (client : String) (t : Throttle) (b : Bucket) (m : ℕ)
    → is_over now b ≡ false
    → lookup client t.seen ≡ some b
    → t.limit ≤ m
    → b.count ≤ m
    → Spent client true b t.limit m (allow_of now client t (some b))
allow_of_mine now client t b m fresh found l c = elim (Bool-cases (leb t.limit b.count)) [
  | inl full ↦ rw (fresh, full) (b, found, refl, refl, omega arith, c)
  | inr left ↦
      rw (fresh, left)
        (
          record b { count = suc b.count },
          lookup-store client _ t.seen,
          refl,
          refl,
          omega arith,
          ground arith,
        )
]

Spent-mine :
    (now : ℕ) (c client : String) (t : Throttle) (b : Bucket) (limit m : ℕ)
    → c ≡ client
    → t.limit ≡ limit
    → is_over now b ≡ false
    → lookup client t.seen ≡ some b
    → limit ≤ m
    → b.count ≤ m
    → Spent client true b limit m (allow_of now c t (lookup c t.seen))
Spent-mine now c client t b limit m e same fresh found l k =
    subst (λ z. Spent client true b limit m (allow_of now z t (lookup z t.seen))) (sym e)
      (subst (λ o. Spent client true b limit m (allow_of now client t o)) (sym found)
        (subst (λ n. Spent client true b n m (allow_of now client t (some b))) same
          (allow_of_mine now client t b m fresh found (ground arith) k)))

allow-Spent :
    (now : ℕ) (c client : String) (t : Throttle) (b : Bucket) (m : ℕ)
    → lookup client t.seen ≡ some b
    → is_over now b ≡ false
    → t.limit ≤ m
    → b.count ≤ m
    → Spent client (c == client) b t.limit m (allow now c t)
unfolding allow
allow-Spent now c client t b m found fresh l k = elim (Bool-cases (c == client)) [
  | inr other ↦
      let (same, limit) = allow_of_other now c client (gc now t) (lookup c (gc now t).seen) other in
      rw other (
        b,
        same ∙ lookup-gc now client b t found fresh,
        refl,
        limit ∙ gc-limit now t,
        omega arith,
        k,
      )
  | inl mine ↦
      subst (λ z. Spent client z b t.limit m (allow now c t)) (sym mine)
        (Spent-mine now c client (gc now t) b t.limit m ((eq_iff c client).0 mine) (gc-limit now t)
          fresh (lookup-gc now client b t found fresh) l k)
]

-- Within the window of a client's bucket, however the calls of all clients are mixed and whenever
-- the buckets are collected, the calls of the client that are let through and those counted before
-- are at most the limit (or those counted before, if they are more).
pub granted-limit :
    (calls : List (ℕ × String)) (client : String) (t : Throttle) (b : Bucket) (m : ℕ)
    → lookup client t.seen ≡ some b
    → All (λ call. is_over call.0 b ≡ false) calls
    → t.limit ≤ m
    → b.count ≤ m
    → granted client calls t + b.count ≤ m
unfolding granted
granted-limit [] client t b m found h l k = omega (arith, k)
granted-limit ((now, c) ∷ calls) client t b m found h l k =
    let (b', found', reset, limit, count, bound) = allow-Spent now c client t b m found h.0 l k in
    let window : All (λ call. is_over call.0 b' ≡ false) calls = rw reset (h.1) in
    let rest =
      granted-limit calls client (allow now c t).0 b' m found' window (ground arith) bound in
    ground (arith, count, rest)

-- From at most as many taken slots as the capacity, taking a slot and giving one back keep them so; a
-- slot is given exactly while one is free; and a slot that is taken and given back is free again.
acquire_bound :
    (t : Throttle)
    → t.busy ≤ t.capacity
    → ((acquire t).0.busy ≤ t.capacity)
      × ((release t).busy ≤ t.capacity)
      × ((acquire t).1 ≡ ltb t.busy t.capacity)
      × ((if (acquire t).1 then (release (acquire t).0).busy else t.capacity) ≡ t.busy)
unfolding acquire release
acquire_bound t h = (ground arith, omega arith, ground arith, ground arith)
