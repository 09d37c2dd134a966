-- ===== src/ProxyScore/Bounds.antt =====
-- internal/proxyscore/store.go: what holds of every record, however the store came to be.
use trust_proxy.Base.{
  ℕ, zero, suc, ◌-◌, ◌≤◌, String, Bool, true, false, List, [], ◌∷◌, ◌++◌, none, some, ◌≡◌, refl,
  sym, subst, ◌∙◌, arith, length, drop, All, ◌==◌, eq_iff, if◌then◌else◌, Bool-cases, inl, inr,
}
use trust_proxy.ProxyScore.{Stats, find, put, max_series}
use trust_proxy.ProxyScore.Operations.{last_series, push}
use trust_proxy.ProxyScore.Records.{find-put}
use trust_proxy.ProxyScore.Tags.{scorable}

length-drop {ℓ} : {A : Type ℓ} (n : ℕ) (xs : List A) → length (drop n xs) ≡ length xs - n
length-drop zero xs = omega arith
length-drop (suc n) [] = omega arith
length-drop (suc n) (x ∷ xs) = omega (arith, length-drop n xs)

pub last_series-le {ℓ} : {A : Type ℓ} (s : List A) → length (last_series s) ≤ max_series
unfolding last_series
last_series-le s = ground (arith, length-drop (length s - max_series) s)

pub push-le {ℓ} : {A : Type ℓ} (s : List A) (v : A) → length (push s v) ≤ max_series
unfolding push
push-le s v = last_series-le (s ++ v ∷ [])

pub grown_if-le {ℓ} :
    {A : Type ℓ} (b : Bool) (s : List A) (v : A)
    → length s ≤ max_series
    → length (if b then push s v else s) ≤ max_series
grown_if-le true s v h = push-le s v
grown_if-le false s v h = h

-- What the rest of the program relies on in a record.
pub record IsWithin {B F : Type 0} (st : Stats B F) : Type 0 where
  pub reliable : st.reliability ≤ 100
  pub latencies : length st.latency_ms ≤ max_series
  pub rates : length st.throughput_kbps ≤ max_series
  pub node : scorable st.tag ≡ true

-- The map has one record for a tag.
abbrev pub AreDistinct : {B F : Type 0} → List (Stats B F) → Type 0
AreDistinct [] = Unit {0}
AreDistinct (st ∷ sts) = (find st.tag sts ≡ none) × AreDistinct sts

module _ {B F : Type 0} where
  pub put-IsWithin :
      (st : Stats B F) (sts : List (Stats B F))
      → IsWithin st
      → All IsWithin sts
      → All IsWithin (put st sts)
  unfolding put
  put-IsWithin st [] h hs = (h, tt)
  put-IsWithin st (x ∷ xs) h hs = split (x.tag == st.tag) (put-IsWithin st xs h hs.1)
    where
      split :
          (b : Bool)
          → All IsWithin (put st xs)
          → All IsWithin (if b then st ∷ xs else x ∷ put st xs)
      split true rest = (h, hs.1)
      split false rest = (hs.0, rest)

  pub find-IsWithin :
      (t : String) (sts : List (Stats B F)) (st : Stats B F)
      → All IsWithin sts
      → find t sts ≡ some st
      → IsWithin st
  unfolding find
  find-IsWithin t [] st hs found = absurd (cc)
  find-IsWithin t (x ∷ xs) st hs found = elim (Bool-cases (x.tag == t)) [
    | inl here ↦ subst IsWithin (some_injective (sym (taken here) ∙ found)) hs.0
    | inr there ↦ find-IsWithin t xs st hs.1 (sym (passed there) ∙ found)
  ]
    where
      taken : (x.tag == t) ≡ true → (if x.tag == t then some x else find t xs) ≡ some x
      taken e = rw e

      passed : (x.tag == t) ≡ false → (if x.tag == t then some x else find t xs) ≡ find t xs
      passed e = rw e

      some_injective : {a b : Stats B F} → some a ≡ some b → a ≡ b
      some_injective e = cc

  pub put-AreDistinct :
      (st : Stats B F) (sts : List (Stats B F)) → AreDistinct sts → AreDistinct (put st sts)
  unfolding put find
  put-AreDistinct st [] h = (refl, tt)
  put-AreDistinct st (x ∷ xs) h = elim (Bool-cases (x.tag == st.tag)) [
    | inl same ↦ rw same (subst (λ t. find t xs ≡ none) ((eq_iff x.tag st.tag).0 same) h.0, h.1)
    | inr other ↦ rw other (absent other, put-AreDistinct st xs h.1)
  ]
    where
      absent : (x.tag == st.tag) ≡ false → find x.tag (put st xs) ≡ none
      absent other =
          find-put st xs x.tag ∙ ground (arith, h.0, eq_iff st.tag x.tag, eq_iff x.tag st.tag)

-- What holds of the records of a store.
pub record AreWithin {B F : Type 0} (sts : List (Stats B F)) : Type 0 where
  pub each : All IsWithin sts
  pub distinct : AreDistinct sts
