-- ===== src/CustomRules/Packs.antt =====
-- internal/customrules/store.go: ReplacePack.
use trust_proxy.Base.{
  String, Bool, true, List, [], ◌∷◌, ◌++◌, ◌≡◌, ◌≢◌, inl, inr, refl, ◌∙◌, arith, ◌==◌, filter,
  Result, ok, err, Bool-cases, eq_iff, All,
}
use mathlib.Core.List.{append-nil}
use trust_proxy.Base.Text.{trim_space, differs}
use trust_proxy.ListStore.{Store, Write}
use trust_proxy.Policy.{CustomRule}
use trust_proxy.CustomRules.{Rule, Error, validate, with_policy, with_id}
use trust_proxy.CustomRules.Operations.{
  update_rules, outside, prepare, prepared_head, tagged, replace_pack,
}

abbrev pub inside : String → Rule → Bool
inside pack x = x.pack == pack

filter-append :
    (p : Rule → Bool) (xs ys : List Rule) → filter p (xs ++ ys) ≡ filter p xs ++ filter p ys
filter-append p [] ys = refl
filter-append p (x ∷ xs) ys = elim (Bool-cases (p x)) [
  | inl e ↦ rw (e, filter-append p xs ys)
  | inr e ↦ rw (e, filter-append p xs ys)
]

filter-outside :
    (pack : String) (xs : List Rule) → filter (inside pack) (filter (outside pack) xs) ≡ []
filter-outside pack [] = refl
filter-outside pack (x ∷ xs) = elim (Bool-cases (x.pack == pack)) [
  | inl e ↦ rw e (filter-outside pack xs)
  | inr e ↦ rw (e, e, filter-outside pack xs)
]

filter-twice :
    (pack : String) (xs : List Rule)
    → filter (outside pack) (filter (outside pack) xs) ≡ filter (outside pack) xs
filter-twice pack [] = refl
filter-twice pack (x ∷ xs) = elim (Bool-cases (x.pack == pack)) [
  | inl e ↦ rw e (filter-twice pack xs)
  | inr e ↦ rw (e, e, filter-twice pack xs)
]

abbrev IsMember : String → Rule → Type 0
IsMember pack x = (x.pack == pack) ≡ true

filter-members :
    (pack : String) (new : List Rule)
    → All (IsMember pack) new
    → (filter (inside pack) new ≡ new) × (filter (outside pack) new ≡ [])
filter-members pack [] h = (refl, refl)
filter-members pack (x ∷ xs) h =
    let (own, gone) = filter-members pack xs h.1 in rw (h.0, own, gone) (refl, refl)

module _ (valid_cidr compiles : String → Bool) (hash : String → String) where
  validate-pack :
      (r p : Rule) (o : Result Error CustomRule)
      → with_policy r o ≡ ok p
      → p.pack ≡ trim_space r.pack
  validate-pack r p (err e) h = cc
  validate-pack r p (ok q) h = ground arith

  prepared-members :
      (pack : String) (o : Result Error Rule) (rest : Result Error (List Rule)) (new : List Rule)
      → prepared_head valid_cidr compiles hash o rest ≡ ok new
      → ((p : Rule) → o ≡ ok p → IsMember pack p)
      → ((ps : List Rule) → rest ≡ ok ps → All (IsMember pack) ps)
      → All (IsMember pack) new
  prepared-members pack (err x) rest new e ho hr = cc
  prepared-members pack (ok r) (err x) new e ho hr = cc
  prepared-members pack (ok r) (ok rs) new e ho hr =
      let same : with_id hash r ∷ rs ≡ new = cc in rw (← same) (ho r refl, hr rs refl)

  prepare-members :
      (pack : String) (rules new : List Rule)
      → trim_space pack ≡ pack
      → prepare valid_cidr compiles hash pack rules ≡ ok new
      → All (IsMember pack) new
  unfolding prepare validate
  prepare-members pack [] new trimmed e = let none_left : [] ≡ new = cc in rw (← none_left) tt
  prepare-members pack (r ∷ rs) new trimmed e =
      prepared-members pack _ _ new e
        (λ p h. (eq_iff p.pack pack).1 (validate-pack (tagged pack r) p _ h ∙ trimmed))
        (λ rest. prepare-members pack rs rest trimmed)

  -- Importing a pack, under a name without blanks around it, replaces it: if all its rules are
  -- accepted, the rules of the pack are then exactly these, in their order, and those of the others
  -- are what and in the order they were.
  replace_pack_replaces :
      (s : Store (List Rule)) (pack : String) (rules new : List Rule) (disk : Write (List Rule))
      → pack ≢ ""
      → trim_space pack ≡ pack
      → prepare valid_cidr compiles hash pack rules ≡ ok new
      → let after = (replace_pack valid_cidr compiles hash s pack rules disk).0.current in
        (filter (inside pack) after ≡ new)
        × (filter (outside pack) after ≡ filter (outside pack) s.current)
  unfolding replace_pack update_rules
  replace_pack_replaces s pack rules new disk named trimmed accepted =
      let kept = filter (outside pack) s.current in
      let (own, gone) = filter-members pack new (prepare-members pack rules new trimmed accepted) in
      rw (differs pack "" named, accepted)
        (
          filter-append (inside pack) kept new ∙ rw (filter-outside pack s.current, own),
          filter-append (outside pack) kept new
              ∙ rw (filter-twice pack s.current, gone) (append-nil kept),
        )
