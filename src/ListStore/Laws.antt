-- ===== src/ListStore/Laws.antt =====
-- internal/liststore/liststore.go: what is on a list after a change.
use trust_proxy.Base.{
  ℕ, suc, ◌+◌, String, Bool, true, false, List, [], ◌∷◌, ◌++◌, ◌≡◌, refl, ◌∙◌, arith, ◌==◌, ◌||◌,
  ◌&&◌, not, eq_iff, length, Bool-cases, inl, inr,
}
use trust_proxy.ListStore.{contains, add, remove, sort, insert_sorted, filter_count}

contains-insert_sorted :
    (v : String) (xs : List String) (w : String)
    → contains (insert_sorted v xs) w ≡ (v == w || contains xs w)
unfolding insert_sorted
contains-insert_sorted v [] w = refl
contains-insert_sorted v (x ∷ xs) w = ground (arith, contains-insert_sorted v xs w)

contains-sort : (xs : List String) (w : String) → contains (sort xs) w ≡ contains xs w
unfolding sort
contains-sort [] w = refl
contains-sort (x ∷ xs) w = ground (arith, contains-insert_sorted x (sort xs) w, contains-sort xs w)

contains-append :
    (xs : List String) (v w : String) → contains (xs ++ v ∷ []) w ≡ (contains xs w || v == w)
contains-append [] v w = ground arith
contains-append (x ∷ xs) v w = ground (arith, contains-append xs v w)

-- Whether a text is on a list after Add: it was on it, or it is the value that is added.
pub contains-add :
    (xs : List String) (v w : String) → contains (add xs v) w ≡ (contains xs w || v == w)
unfolding add
contains-add xs v w = elim (Bool-cases (contains xs v)) [
  | inl there ↦ rw there (known xs v w there)
  | inr absent ↦ rw absent (contains-sort (xs ++ v ∷ []) w ∙ contains-append xs v w)
]
  where
    known :
        (xs : List String) (v w : String)
        → contains xs v ≡ true
        → contains xs w ≡ (contains xs w || v == w)
    known xs v w there = ground (arith, eq_iff v w)

-- Whether a text is on a list after Remove: it was on it and is not the value that is removed.
contains-remove :
    (xs : List String) (v w : String) → contains (remove xs v) w ≡ (contains xs w && not (v == w))
unfolding remove
contains-remove [] v w = refl
contains-remove (x ∷ xs) v w =
    ground (arith, contains-remove xs v w, eq_iff x v, eq_iff x w, eq_iff v w)

-- Filter keeps what passes the test, and counts each dropped element once.
pub filter_count_keeps :
    (keep : String → Bool) (xs : List String) (n : ℕ) (w : String)
    → (contains (filter_count xs keep n).0 w ≡ (contains xs w && keep w))
      × (length (filter_count xs keep n).0 + (filter_count xs keep n).1 ≡ length xs + n)
unfolding filter_count
filter_count_keeps keep [] n w = (refl, refl)
filter_count_keeps keep (x ∷ xs) n w =
    let (kept, kept_count) = filter_count_keeps keep xs n w in
    let (dropped, dropped_count) = filter_count_keeps keep xs (suc n) w in
    elim (Bool-cases (keep x)) [
      | inl good ↦ rw good (shown x w _ _ kept good, omega (arith, kept_count))
      | inr bad ↦ rw bad (dropped ∙ hidden x w _ bad, omega (arith, dropped_count))
    ]
  where
    shown :
        (x w : String) (a b : Bool)
        → a ≡ (b && keep w)
        → keep x ≡ true
        → (x == w || a) ≡ ((x == w || b) && keep w)
    shown x w a b e good = ground (arith, eq_iff x w)

    hidden : (x w : String) (b : Bool) → keep x ≡ false → (b && keep w) ≡ ((x == w || b) && keep w)
    hidden x w b bad = ground (arith, eq_iff x w)
