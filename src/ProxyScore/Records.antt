-- ===== src/ProxyScore/Records.antt =====
-- internal/proxyscore/store.go: the map of the records behind an operation on one of them.
use trust_proxy.Base.{
  String, Bool, true, false, List, [], ◌∷◌, Option, none, some, ◌==◌, ◌≡◌, refl, ap, ◌∙◌,
  if◌then◌else◌, arith, eq_iff, eq_refl, inl, inr, ◌⊎◌, not,
}
use trust_proxy.ProxyScore.{Breakers, Floats, Stats, find, put}
use trust_proxy.ProxyScore.Config.{Config}
use trust_proxy.ProxyScore.Operations.{
  Store, stat_locked, change, found_or_new, with_breaker, breaker_of, guarded,
}
use trust_proxy.ProxyScore.Tags.{normalize_tag, scorable}

module _ {B F : Type 0} where
  pub find-put :
      (st : Stats B F) (sts : List (Stats B F)) (t : String)
      → find t (put st sts) ≡ (if st.tag == t then some st else find t sts)
  unfolding find put
  find-put st [] t = refl
  find-put st (x ∷ xs) t =
      ground
        (arith, eq_iff x.tag st.tag, eq_iff st.tag t, eq_iff x.tag t, eq_refl t, find-put st xs t)

  -- What is found has the tag that was asked for.
  pub find-tag :
      (t : String) (sts : List (Stats B F)) (st : Stats B F) → find t sts ≡ some st → st.tag ≡ t
  unfolding find
  find-tag t [] st found = cc
  find-tag t (x ∷ xs) st found = ground (arith, eq_iff x.tag t, find-tag t xs st)

pub taken {ℓ} : {A : Type ℓ} (x y : A) (b : Bool) → b ≡ true → (if b then x else y) ≡ x
taken x y b e = rw e

pub passed {ℓ} : {A : Type ℓ} (x y : A) (b : Bool) → b ≡ false → (if b then x else y) ≡ y
passed x y b e = rw e

module _ (B : Breakers) (F : Floats) where
  open B use {Breaker}
  open F use {Float}

  -- An operation on a record that leaves its tag alone.
  abbrev pub KeepsTag : (Config → Stats Breaker Float → Stats Breaker Float) → Type 0
  KeepsTag f = (cfg : Config) (st : Stats Breaker Float) → (f cfg st).tag ≡ st.tag

  -- The record of a tag in a store, the new one where there is none.
  abbrev pub known : String → Store B F → Stats Breaker Float
  known tag s = stat_locked B F s.cfg tag s.stats

  found_or_new-tag :
      (t : String) (o : Option (Stats Breaker Float))
      → ((st : Stats Breaker Float) → o ≡ some st → st.tag ≡ t)
      → (found_or_new B F t o).tag ≡ t
  found_or_new-tag t none h = refl
  found_or_new-tag t (some st) h = h st refl

  pub known-tag : (t : String) (s : Store B F) → (known t s).tag ≡ t
  unfolding stat_locked
  known-tag t s = found_or_new-tag t (find t s.stats) (find-tag t s.stats)

  abbrev pub remade : Config → Stats Breaker Float → Stats Breaker Float
  remade cfg st = with_breaker B F st (breaker_of B F cfg st)

  module _ (f : Config → Stats Breaker Float → Stats Breaker Float) (keeps : KeepsTag f)
      (d : Bool) where
    pub find-change :
        (k : String) (s : Store B F) (t : String)
        → find t (change B F f d k s).stats
          ≡ (if k == t then some (f s.cfg (known k s)) else find t s.stats)
    unfolding change
    find-change k s t =
        let same : (f s.cfg (known k s)).tag ≡ k = keeps s.cfg (known k s) ∙ known-tag k s in
        find-put (f s.cfg (known k s)) s.stats t
        ∙ ap (λ x. if x == t then some (f s.cfg (known k s)) else find t s.stats) same

    -- The record of the tag is what the operation makes of it; other records are as they were.
    pub known-change_self :
        (k : String) (s : Store B F)
        → known k (change B F f d k s) ≡ remade s.cfg (f s.cfg (known k s))
    unfolding change stat_locked
    known-change_self k s =
        ap (λ o. remade s.cfg (found_or_new B F k o))
          (find-change k s k ∙ taken _ _ (k == k) (eq_refl k))

    pub known-change_other :
        (k : String) (s : Store B F) (t : String)
        → (k == t) ≡ false
        → known t (change B F f d k s) ≡ known t s
    unfolding change stat_locked
    known-change_other k s t other =
        ap (λ o. remade s.cfg (found_or_new B F t o))
          (find-change k s t ∙ passed _ _ (k == t) other)

  -- The guards pass for a node while scoring is on.
  pub guarded-on :
      (tag : String) (run : String → Store B F → Store B F) (s : Store B F)
      → scorable (normalize_tag tag) ≡ true
      → s.cfg.disabled ≡ false
      → guarded B F tag run s ≡ run (normalize_tag tag) s
  unfolding guarded
  guarded-on tag run s node on = rw (node, on)

  -- An operation stops at a guard, or runs on the tag in its normal form.
  pub guarded-cases :
      (tag : String) (run : String → Store B F → Store B F) (s : Store B F)
      → (guarded B F tag run s ≡ s) ⊎ (guarded B F tag run s ≡ run (normalize_tag tag) s)
  unfolding guarded
  guarded-cases tag run s = branch (not (scorable (normalize_tag tag))) s.cfg.disabled
    where
      branch :
          (a b : Bool)
          → ((if a then s else if b then s else run (normalize_tag tag) s) ≡ s)
            ⊎ ((if a then s else if b then s else run (normalize_tag tag) s)
                ≡ run (normalize_tag tag) s)
      branch true b = inl refl
      branch false true = inl refl
      branch false false = inr refl

  module _ (f : Config → Stats Breaker Float → Stats Breaker Float) (keeps : KeepsTag f)
      (d : Bool) where
    pub known-run_self :
        (tag : String) (s : Store B F)
        → scorable (normalize_tag tag) ≡ true
        → s.cfg.disabled ≡ false
        → known (normalize_tag tag) (guarded B F tag (change B F f d) s)
          ≡ remade s.cfg (f s.cfg (known (normalize_tag tag) s))
    known-run_self tag s node on =
        ap (known (normalize_tag tag)) (guarded-on tag (change B F f d) s node on)
        ∙ known-change_self f keeps d (normalize_tag tag) s

    pub known-run_other :
        (tag : String) (s : Store B F) (t : String)
        → (normalize_tag tag == t) ≡ false
        → known t (guarded B F tag (change B F f d) s) ≡ known t s
    known-run_other tag s t other = elim (guarded-cases tag (change B F f d) s) [
      | inl stopped ↦ ap (known t) stopped
      | inr ran ↦ ap (known t) ran ∙ known-change_other f keeps d (normalize_tag tag) s t other
    ]

    pub cfg-run : (tag : String) (s : Store B F) → (guarded B F tag (change B F f d) s).cfg ≡ s.cfg
    unfolding change
    cfg-run tag s = elim (guarded-cases tag (change B F f d) s) [
      | inl stopped ↦ ap (λ x. x.cfg) stopped
      | inr ran ↦ ap (λ x. x.cfg) ran
    ]
