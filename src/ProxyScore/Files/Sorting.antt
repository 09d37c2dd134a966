-- ===== src/ProxyScore/Files/Sorting.antt =====
-- internal/proxyscore/store.go: what the clean-up and the sort of a flush keep of the records.
use trust_proxy.Base.{
  String, Bool, true, false, List, [], ◌∷◌, Option, none, some, ◌≡◌, refl, sym, ap, ◌∙◌, arith,
  ◌==◌, eq_iff, if◌then◌else◌, filter, All, Bool-cases, inl, inr,
}
use trust_proxy.ProxyScore.{Breakers, Floats, Stats, find}
use trust_proxy.ProxyScore.Bounds.{AreDistinct}
use trust_proxy.ProxyScore.Files.{insert_by_tag, sort_by_tag, tag_le}
use trust_proxy.ProxyScore.Records.{taken, passed}

pub ==-flip : (a b : String) → (a == b) ≡ false → (b == a) ≡ false
==-flip a b h = ground (arith, eq_iff a b, eq_iff b a)

module _ (B : Breakers) (F : Floats) where
  open B use {Breaker}
  open F use {Float}

  abbrev pub keep :
      (Stats Breaker Float → Bool) → Option (Stats Breaker Float) → Option (Stats Breaker Float)
  keep p none = none
  keep p (some st) = if p st then some st else none

  pub find-filter :
      (p : Stats Breaker Float → Bool) (t : String) (sts : List (Stats Breaker Float))
      → AreDistinct sts
      → find t (filter p sts) ≡ keep p (find t sts)
  unfolding find
  find-filter p t [] h = refl
  find-filter p t (x ∷ xs) h = ground (arith, find-filter p t xs h.1, h.0, eq_iff x.tag t)

  pub find-insert :
      (st : Stats Breaker Float) (sts : List (Stats Breaker Float)) (t : String)
      → find st.tag sts ≡ none
      → find t (insert_by_tag B F st sts) ≡ (if st.tag == t then some st else find t sts)
  unfolding find insert_by_tag
  find-insert st [] t absent = refl
  find-insert st (x ∷ xs) t absent =
      ground (arith, find-insert st xs t, eq_iff x.tag t, eq_iff st.tag t, eq_iff x.tag st.tag)

  pub find-sort :
      (sts : List (Stats Breaker Float)) (t : String)
      → AreDistinct sts
      → find t (sort_by_tag B F sts) ≡ find t sts
  unfolding find sort_by_tag
  find-sort [] t h = refl
  find-sort (x ∷ xs) t h =
      find-insert x (sort_by_tag B F xs) t (find-sort xs x.tag h.1 ∙ h.0)
      ∙ ap (λ o. if x.tag == t then some x else o) (find-sort xs t h.1)

  insert-All :
      (P : Stats Breaker Float → Type 0) (st : Stats Breaker Float)
      (sts : List (Stats Breaker Float))
      → P st
      → All P sts
      → All P (insert_by_tag B F st sts)
  unfolding insert_by_tag
  insert-All P st [] h hs = (h, tt)
  insert-All P st (x ∷ xs) h hs = branch (tag_le B F st x) (insert-All P st xs h hs.1)
    where
      branch :
          (b : Bool)
          → All P (insert_by_tag B F st xs)
          → All P (if b then st ∷ x ∷ xs else x ∷ insert_by_tag B F st xs)
      branch true rest = (h, hs)
      branch false rest = (hs.0, rest)

  insert-AreDistinct :
      (st : Stats Breaker Float) (sts : List (Stats Breaker Float))
      → find st.tag sts ≡ none
      → AreDistinct sts
      → AreDistinct (insert_by_tag B F st sts)
  unfolding insert_by_tag find
  insert-AreDistinct st [] a d = (refl, tt)
  insert-AreDistinct st (x ∷ xs) a d = elim (Bool-cases (x.tag == st.tag)) [
    | inl same ↦ cc (sym a ∙ taken (some x) (find st.tag xs) (x.tag == st.tag) same)
    | inr other ↦
        let behind : find st.tag xs ≡ none =
          sym (passed (some x) (find st.tag xs) (x.tag == st.tag) other) ∙ a in
        branch (tag_le B F st x) other (insert-AreDistinct st xs behind d.1) (
          find-insert st xs x.tag behind
          ∙ passed (some st) (find x.tag xs) (st.tag == x.tag) (==-flip x.tag st.tag other)
          ∙ d.0)
  ]
    where
      branch :
          (b : Bool)
          → (x.tag == st.tag) ≡ false
          → AreDistinct (insert_by_tag B F st xs)
          → find x.tag (insert_by_tag B F st xs) ≡ none
          → AreDistinct (if b then st ∷ x ∷ xs else x ∷ insert_by_tag B F st xs)
      branch true other rest e = (a, d)
      branch false other rest e = (e, rest)

  pub sort-All :
      (P : Stats Breaker Float → Type 0) (sts : List (Stats Breaker Float))
      → All P sts
      → All P (sort_by_tag B F sts)
  unfolding sort_by_tag
  sort-All P [] h = tt
  sort-All P (x ∷ xs) h = insert-All P x (sort_by_tag B F xs) h.0 (sort-All P xs h.1)

  pub sort-AreDistinct :
      (sts : List (Stats Breaker Float)) → AreDistinct sts → AreDistinct (sort_by_tag B F sts)
  unfolding sort_by_tag
  sort-AreDistinct [] h = tt
  sort-AreDistinct (x ∷ xs) h =
      insert-AreDistinct x (sort_by_tag B F xs) (find-sort xs x.tag h.1 ∙ h.0)
        (sort-AreDistinct xs h.1)
