-- ===== src/CustomRules/Ids.antt =====
-- internal/customrules/store.go: the IDs of the rules. Add keeps them distinct, Update does not.
use trust_proxy.Base.{
  ℕ, suc, ◌+◌, ◌≤◌, String, Bool, true, false, List, [], ◌∷◌, some, ◌≡◌, ◌≢◌, inl, inr, arith, ◌==◌,
  ok, Bool-cases, eq_iff, eq_refl,
}
use trust_proxy.Base.Text.{differs}
use trust_proxy.ListStore.{Store, Write}
use trust_proxy.CustomRules.{Rule, validate, with_id, id_for}
use trust_proxy.CustomRules.Operations.{
  Patch, patched, update_rules, put, add, find, replace, update,
}

abbrev pub one_if : Bool → ℕ
one_if true = 1
one_if false = 0

-- How many rules have that ID.
abbrev pub count_id : String → List Rule → ℕ
count_id x [] = 0
count_id x (r ∷ rs) = one_if (r.id == x) + count_id x rs

abbrev pub AreDistinct : List Rule → Type 0
AreDistinct rules = (x : String) → count_id x rules ≤ 1

count_id-put_other :
    (x : String) (r : Rule) (xs : List Rule)
    → (r.id == x) ≡ false
    → count_id x (put r xs) ≡ count_id x xs
unfolding put
count_id-put_other x r [] ne = rw ne
count_id-put_other x r (y ∷ ys) ne = elim (Bool-cases (y.id == r.id)) [
  | inl e ↦ rw (e, (eq_iff y.id r.id).0 e, ne)
  | inr e ↦ rw (e, count_id-put_other x r ys ne)
]

count_id-put_own : (r : Rule) (xs : List Rule) → count_id r.id xs ≤ 1 → count_id r.id (put r xs) ≡ 1
unfolding put
count_id-put_own r [] h = rw (eq_refl r.id)
count_id-put_own r (y ∷ ys) h = elim (Bool-cases (y.id == r.id)) [
  | inl e ↦
      let h' : one_if true + count_id r.id ys ≤ 1 = rw e at h in
      rw (e, eq_refl r.id) (omega (arith, h'))
  | inr e ↦
      let h' : one_if false + count_id r.id ys ≤ 1 = rw e at h in
      let ih = count_id-put_own r ys (omega (arith, h')) in rw (e, e) (omega (arith, ih))
]

find-put_own : (r : Rule) (xs : List Rule) → find r.id (put r xs) ≡ some r
unfolding find put
find-put_own r [] = rw (eq_refl r.id)
find-put_own r (y ∷ ys) = elim (Bool-cases (y.id == r.id)) [
  | inl e ↦ rw (e, eq_refl r.id)
  | inr e ↦ rw (e, e) (find-put_own r ys)
]

find-put_other :
    (x : String) (r : Rule) (xs : List Rule) → (r.id == x) ≡ false → find x (put r xs) ≡ find x xs
unfolding find put
find-put_other x r [] ne = rw ne
find-put_other x r (y ∷ ys) ne = elim (Bool-cases (y.id == r.id)) [
  | inl e ↦ rw (e, (eq_iff y.id r.id).0 e, ne)
  | inr e ↦ rw (e, find-put_other x r ys ne)
]

module _ (valid_cidr compiles : String → Bool) (hash : String → String) where
  -- Where the IDs are distinct and validation accepts the rule as `p`, they are distinct after Add,
  -- the rule of the ID of `p` is then `p` with that ID, and a rule of another ID is as it was,
  -- whatever becomes of the write.
  pub add-find :
      (s : Store (List Rule)) (r p : Rule) (disk : Write (List Rule)) (other : String)
      → AreDistinct s.current
      → validate valid_cidr compiles r ≡ ok p
      → id_for hash p ≢ other
      → let after = (add valid_cidr compiles hash s r disk).0.current in
        ((x : String) → count_id x after ≤ 1)
        × (find (id_for hash p) after ≡ some (with_id hash p))
        × (find other after ≡ find other s.current)
  unfolding add update_rules
  add-find s r p disk other distinct valid ne =
      let new = with_id hash p in
      rw valid (
        (λ x. elim (Bool-cases (new.id == x)) [
          | inl e ↦
              let own = count_id-put_own new s.current (distinct new.id) in
              rw (← (eq_iff new.id x).0 e) (omega (arith, own))
          | inr e ↦
              let same = count_id-put_other x new s.current e in
              let before = distinct x in omega (arith, same, before)
        ]),
        find-put_own new s.current,
        find-put_other other new s.current (differs new.id other ne),
      )

  count_id-replace :
      (id x : String) (r y : Rule) (xs : List Rule)
      → find id xs ≡ some y
      → (id == x) ≡ false
      → (r.id == x) ≡ true
      → count_id x (replace id r xs) ≡ suc (count_id x xs)
  unfolding find replace
  count_id-replace id x r y [] f ne e = cc
  count_id-replace id x r y (z ∷ zs) f ne e = elim (Bool-cases (z.id == id)) [
    | inl h ↦ rw (h, e, (eq_iff z.id id).0 h, ne) (omega arith)
    | inr h ↦ let ih = count_id-replace id x r y zs (rw h at f) ne e in rw h (omega (arith, ih))
  ]

  -- Update does not keep IDs distinct: where a rule is patched so that its content, as validation
  -- leaves it, is that of another ID, the rule gets that ID as well, and one more rule has it.
  pub update_duplicates :
      (s : Store (List Rule)) (id : String) (p : Patch) (old new : Rule) (disk : Write (List Rule))
      → find id s.current ≡ some old
      → validate valid_cidr compiles (patched p old) ≡ ok new
      → id ≢ id_for hash new
      → count_id (id_for hash new) (update valid_cidr compiles hash s id p disk).0.current
        ≡ suc (count_id (id_for hash new) s.current)
  unfolding update update_rules
  update_duplicates s id p old new disk found valid ne =
      rw (found, valid)
        (count_id-replace id (id_for hash new) (with_id hash new) old s.current found
          (differs id (id_for hash new) ne) (eq_refl (id_for hash new)))
