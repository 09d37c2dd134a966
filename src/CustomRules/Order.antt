-- ===== src/CustomRules/Order.antt =====
-- internal/customrules/store.go: Move and MoveTop change the order and nothing else.
use trust_proxy.Base.{
  ℕ, suc, ◌+◌, ◌-◌, String, true, false, List, [], ◌∷◌, ◌++◌, Option, none, some, ◌≡◌, ◌≢◌, inl,
  inr, refl, sym, ap, ◌∙◌, arith, ◌==◌, nat_eq, length, Bool-cases, eq_refl,
}
use mathlib.Core.List.{append_assoc}
use trust_proxy.Base.Text.{differs}
use trust_proxy.ListStore.{Store, Write}
use trust_proxy.CustomRules.{Rule}
use trust_proxy.CustomRules.Operations.{update_rules, index_of, swap, swapped, moved, move}
use trust_proxy.CustomRules.Ids.{count_id}

index_of-append :
    (id : String) (before : List Rule) (x : Rule) (rest : List Rule)
    → count_id id before ≡ 0
    → (x.id == id) ≡ true
    → index_of id (before ++ x ∷ rest) ≡ some (length before)
unfolding index_of
index_of-append id [] x rest absent e = rw e
index_of-append id (b ∷ bs) x rest absent e = elim (Bool-cases (b.id == id)) [
  | inl h ↦ absurd (present (rw h at absent))
  | inr h ↦ let ih = index_of-append id bs x rest (none_before (rw h at absent)) e in rw (h, ih)
]
  where
    present : 1 + count_id id bs ≡ 0 → ⊥
    present e' = omega arith

    none_before : 0 + count_id id bs ≡ 0 → count_id id bs ≡ 0
    none_before e' = omega arith

swapped-cons :
    (b : Rule) (xs : List Rule) (i j : ℕ) (x y : Option Rule)
    → swapped (b ∷ xs) (suc i) (suc j) x y ≡ b ∷ swapped xs i j x y
swapped-cons b xs i j none y = refl
swapped-cons b xs i j (some x) none = refl
swapped-cons b xs i j (some x) (some y) = refl

swap-down :
    (before : List Rule) (x y : Rule) (rest : List Rule)
    → swap (before ++ x ∷ y ∷ rest) (length before) (suc (length before)) ≡ before ++ y ∷ x ∷ rest
swap-down [] x y rest = refl
swap-down (b ∷ bs) x y rest = swapped-cons b _ _ _ _ _ ∙ ap (λ zs. b ∷ zs) (swap-down bs x y rest)

swap-up :
    (before : List Rule) (x y : Rule) (rest : List Rule)
    → swap (before ++ x ∷ y ∷ rest) (suc (length before)) (length before) ≡ before ++ y ∷ x ∷ rest
swap-up [] x y rest = refl
swap-up (b ∷ bs) x y rest = swapped-cons b _ _ _ _ _ ∙ ap (λ zs. b ∷ zs) (swap-up bs x y rest)

moved-down :
    (before : List Rule) (x y : Rule) (rest : List Rule)
    → count_id x.id before ≡ 0
    → moved x.id false (before ++ x ∷ y ∷ rest) ≡ before ++ y ∷ x ∷ rest
unfolding moved
moved-down before x y rest absent =
    rw (index_of-append x.id before x (y ∷ rest) absent (eq_refl x.id)) (swap-down before x y rest)

count_id-snoc :
    (id : String) (before : List Rule) (x : Rule)
    → count_id id before ≡ 0
    → (x.id == id) ≡ false
    → count_id id (before ++ x ∷ []) ≡ 0
count_id-snoc id [] x absent e = rw e (omega arith)
count_id-snoc id (b ∷ bs) x absent e = elim (Bool-cases (b.id == id)) [
  | inl h ↦ absurd (present (rw h at absent))
  | inr h ↦
      let ih = count_id-snoc id bs x (none_before (rw h at absent)) e in rw h (omega (arith, ih))
]
  where
    present : 1 + count_id id bs ≡ 0 → ⊥
    present e' = omega arith

    none_before : 0 + count_id id bs ≡ 0 → count_id id bs ≡ 0
    none_before e' = omega arith

length-snoc : (before : List Rule) (x : Rule) → length (before ++ x ∷ []) ≡ suc (length before)
length-snoc [] x = refl
length-snoc (b ∷ bs) x = ap suc (length-snoc bs x)

not_first : (n : ℕ) → nat_eq (suc n) 0 ≡ false
not_first n = ground arith

back_one : (n : ℕ) → suc n - 1 ≡ n
back_one n = omega arith

moved-up :
    (before : List Rule) (x y : Rule) (rest : List Rule)
    → count_id y.id before ≡ 0
    → (x.id == y.id) ≡ false
    → moved y.id true (before ++ x ∷ y ∷ rest) ≡ before ++ y ∷ x ∷ rest
unfolding moved
moved-up before x y rest absent ne =
    let at_end : index_of y.id (before ++ x ∷ y ∷ rest) ≡ some (suc (length before)) =
      ap (index_of y.id) (sym (append_assoc before (x ∷ []) (y ∷ rest)))
      ∙ index_of-append y.id (before ++ x ∷ []) y rest (count_id-snoc y.id before x absent ne)
          (eq_refl y.id)
      ∙ ap some (length-snoc before x) in
    rw (at_end, not_first (length before), back_one (length before)) (swap-up before x y rest)

-- Where two neighbours have IDs of their own, which no rule before them has, moving the first down
-- and moving the second up both swap them and leave the others, and moving the first down and up
-- again gives the order that there was.
move_swaps :
    (s : Store (List Rule)) (before rest : List Rule) (x y : Rule) (disk disk' : Write (List Rule))
    → s.current ≡ before ++ x ∷ y ∷ rest
    → count_id x.id before ≡ 0
    → count_id y.id before ≡ 0
    → x.id ≢ y.id
    → ((move s x.id false disk).0.current ≡ before ++ y ∷ x ∷ rest)
      × ((move s y.id true disk).0.current ≡ before ++ y ∷ x ∷ rest)
      × ((move (move s x.id false disk).0 x.id true disk').0.current ≡ s.current)
unfolding move update_rules
move_swaps s before rest x y disk disk' here no_x no_y ne =
    let down : moved x.id false s.current ≡ before ++ y ∷ x ∷ rest =
      rw here (moved-down before x y rest no_x) in
    (
      down,
      rw here (moved-up before x y rest no_y (differs x.id y.id ne)),
      ap (moved x.id true) down
          ∙ moved-up before y x rest no_x (differs y.id x.id (λ e. ne (sym e)))
          ∙ sym here,
    )
