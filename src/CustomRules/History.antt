-- ===== src/CustomRules/History.antt =====
-- internal/customrules/store.go: what any sequence of calls of the store keeps.
use trust_proxy.Base.{
  String, Bool, true, false, List, [], ◌∷◌, Option, none, some, ◌≡◌, refl, ap, ◌==◌, if◌then◌else◌,
  ℕ, Result, ok, err, Bool-cases, inl, inr,
}
use trust_proxy.ListStore.{Store, Write, Found, no_file, unreadable, holds}
use trust_proxy.CustomRules.{Rule, Error}
use trust_proxy.CustomRules.Operations.{update_rules, sanitize, kept_head, open_store}
use trust_proxy.CustomRules.Preservation.{
  Call, perform, IsValidRule, AreValid, IsFair, validate-IsValid, perform-AreValid,
}

module _ (valid_cidr compiles : String → Bool) (hash : String → String) where
  abbrev pub run : List (Call × Write (List Rule)) → Store (List Rule) → Store (List Rule)
  run [] s = s
  run ((c, disk) ∷ calls) s = run calls (perform valid_cidr compiles hash c disk s).0

  abbrev pub AreFair : List (Call × Write (List Rule)) → Type 0
  AreFair [] = Unit
  AreFair ((c, disk) ∷ calls) = IsFair valid_cidr compiles hash c × AreFair calls

  run-AreValid :
      (calls : List (Call × Write (List Rule))) (s : Store (List Rule))
      → AreFair calls
      → AreValid valid_cidr compiles hash s.current
      → AreValid valid_cidr compiles hash (run calls s).current
  run-AreValid [] s fair h = h
  run-AreValid ((c, disk) ∷ calls) s fair h =
      run-AreValid calls (perform valid_cidr compiles hash c disk s).0 fair.1
        (perform-AreValid valid_cidr compiles hash c disk s fair.0 h)

  kept_head-AreValid :
      (o : Result Error Rule) (rest : List Rule × ℕ)
      → ((p : Rule) → o ≡ ok p → IsValidRule valid_cidr compiles hash p)
      → AreValid valid_cidr compiles hash rest.0
      → AreValid valid_cidr compiles hash (kept_head valid_cidr compiles hash o rest).0
  kept_head-AreValid (err e) rest ho h = h
  kept_head-AreValid (ok r) rest ho h = elim (Bool-cases (r.id == "")) [
    | inl e ↦ rw e (ho r refl, h)
    | inr e ↦ rw e (ho r refl, h)
  ]

  sanitize-AreValid :
      (rules : List Rule)
      → AreValid valid_cidr compiles hash (sanitize valid_cidr compiles hash rules).0
  unfolding sanitize
  sanitize-AreValid [] = tt
  sanitize-AreValid (r ∷ rs) =
      kept_head-AreValid _ _ (λ p. validate-IsValid valid_cidr compiles hash r p)
        (sanitize-AreValid rs)

  opened :
      (b : Bool) (x y s : Store (List Rule)) (e : Option Error)
      → ◌≡◌ {A = Option (Store (List Rule) × Option Error)}
          (if b then some (x, none) else some (y, none))
          (some (s, e))
      → x.current ≡ y.current
      → s.current ≡ y.current
  opened true x y s e h same = let it : x ≡ s = cc in rw (← it) same
  opened false x y s e h same = let it : y ≡ s = cc in rw (← it)

  abbrev opened_or :
      Store (List Rule) → Option (Store (List Rule) × Option Error) → Store (List Rule)
  opened_or s none = s
  opened_or s (some (s', _)) = s'

  open_store-AreValid :
      (found : Found (List Rule)) (disk : Write (List Rule)) (s : Store (List Rule))
      (e : Option Error)
      → open_store valid_cidr compiles hash found disk ≡ some (s, e)
      → AreValid valid_cidr compiles hash s.current
  unfolding open_store update_rules
  open_store-AreValid no_file disk s e h =
      let nothing : [] ≡ s.current = ap (λ o. (opened_or s o).current) h in rw (← nothing) tt
  open_store-AreValid unreadable disk s e h = cc
  open_store-AreValid (holds rules) disk s e h =
      let clean : s.current ≡ (sanitize valid_cidr compiles hash rules).0 =
        opened _ _ _ s e h refl in
      rw clean (sanitize-AreValid rules)

  -- Whatever stands at the path when the store opens, whatever the calls are after that, whichever
  -- of them fail, and whatever becomes of their writes, every rule in the store is valid, provided
  -- that Set, which does not validate, is given valid rules.
  pub open_run-AreValid :
      (found : Found (List Rule)) (disk : Write (List Rule)) (s : Store (List Rule))
      (e : Option Error) (calls : List (Call × Write (List Rule)))
      → open_store valid_cidr compiles hash found disk ≡ some (s, e)
      → AreFair calls
      → AreValid valid_cidr compiles hash (run calls s).current
  open_run-AreValid found disk s e calls opens fair =
      run-AreValid calls s fair (open_store-AreValid found disk s e opens)
