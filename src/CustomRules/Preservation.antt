-- ===== src/CustomRules/Preservation.antt =====
-- internal/customrules/store.go: the calls of the store, and that each keeps its rules valid.
use trust_proxy.Base.{
  ℕ, zero, suc, String, Bool, true, false, List, [], ◌∷◌, Option, none, some, ◌≡◌, refl, arith,
  ◌==◌, if◌then◌else◌, map, filter, set, get_elem?, nat_eq, ◌-◌, Result, ok, err, All, All-append,
  All-filter, Bool-cases, inl, inr,
}
use trust_proxy.ListStore.{Store, Write}
use trust_proxy.Policy.{CustomRule}
use trust_proxy.CustomRules.{Rule, Error, validate, with_policy, with_id}
use trust_proxy.CustomRules.Validity.{IsValid, validate_policy-IsValid, IsValid-enabled}
use trust_proxy.CustomRules.Operations.{
  Outcome, Patch, patched, update_rules, set_rules, put, add, add_valid, find, replace, update,
  update_found, update_valid, remove, set_enabled, set_pack_enabled, remove_pack, outside, enable,
  tagged, prepare, prepared_head, replace_pack, replace_prepared, moved, move, move_from, swapped,
  move_top, top_from, without,
}

-- A call of the store; what becomes of its write is in the history.
pub data Call : Type 0 where
  set_call : List Rule → Call
  add_call : Rule → Call
  update_call : String → Patch → Call
  remove_call : String → Call
  enable_call : String → Bool → Call
  enable_pack_call : String → Bool → Call
  remove_pack_call : String → Call
  replace_pack_call : String → List Rule → Call
  move_call : String → Bool → Call
  move_top_call : String → Call

module _ (valid_cidr compiles : String → Bool) (hash : String → String) where
  abbrev pub perform : Call → Write (List Rule) → Store (List Rule) → Outcome
  perform (set_call rules) disk s = set_rules s rules disk
  perform (add_call r) disk s = add valid_cidr compiles hash s r disk
  perform (update_call id p) disk s = update valid_cidr compiles hash s id p disk
  perform (remove_call id) disk s = remove s id disk
  perform (enable_call id on) disk s = set_enabled s id on disk
  perform (enable_pack_call pack on) disk s = set_pack_enabled s pack on disk
  perform (remove_pack_call pack) disk s = remove_pack s pack disk
  perform (replace_pack_call pack rules) disk s =
      replace_pack valid_cidr compiles hash s pack rules disk
  perform (move_call id up) disk s = move s id up disk
  perform (move_top_call id) disk s = move_top s id disk

  abbrev pub IsValidRule : Rule → Type 0
  IsValidRule r = IsValid valid_cidr compiles r.policy

  abbrev pub AreValid : List Rule → Type 0
  AreValid rules = All IsValidRule rules

  -- Set, which is there for rollback, is given the valid rules of an earlier time.
  abbrev pub IsFair : Call → Type 0
  IsFair (set_call rules) = AreValid rules
  IsFair _ = Unit

  validated :
      (r : Rule) (o : Result Error CustomRule) (p : Rule) → with_policy r o ≡ ok p → o ≡ ok p.policy
  validated r (err e) p h = cc
  validated r (ok q) p h = ground arith

  pub validate-IsValid : (r p : Rule) → validate valid_cidr compiles r ≡ ok p → IsValidRule p
  unfolding validate
  validate-IsValid r p h =
      validate_policy-IsValid valid_cidr compiles r.policy p.policy (validated r _ p h)

  put-AreValid : (r : Rule) (xs : List Rule) → IsValidRule r → AreValid xs → AreValid (put r xs)
  unfolding put
  put-AreValid r [] hr h = (hr, tt)
  put-AreValid r (x ∷ xs) hr h = elim (Bool-cases (x.id == r.id)) [
    | inl e ↦ rw e (hr, h.1)
    | inr e ↦ rw e (h.0, put-AreValid r xs hr h.1)
  ]

  replace-AreValid :
      (id : String) (r : Rule) (xs : List Rule)
      → IsValidRule r
      → AreValid xs
      → AreValid (replace id r xs)
  unfolding replace
  replace-AreValid id r [] hr h = tt
  replace-AreValid id r (x ∷ xs) hr h = elim (Bool-cases (x.id == id)) [
    | inl e ↦ rw e (hr, h.1)
    | inr e ↦ rw e (h.0, replace-AreValid id r xs hr h.1)
  ]

  enable-IsValid : (on : Bool) (r : Rule) → IsValidRule r → IsValidRule (enable on r)
  enable-IsValid on r h = IsValid-enabled valid_cidr compiles on r.policy h

  map-AreValid :
      (f : Rule → Rule) (xs : List Rule)
      → ((r : Rule) → IsValidRule r → IsValidRule (f r))
      → AreValid xs
      → AreValid (map f xs)
  map-AreValid f [] hf h = tt
  map-AreValid f (x ∷ xs) hf h = (hf x h.0, map-AreValid f xs hf h.1)

  if-IsValid : (b on : Bool) (r : Rule) → IsValidRule r → IsValidRule (if b then enable on r else r)
  if-IsValid true on r h = enable-IsValid on r h
  if-IsValid false on r h = h

  set-AreValid :
      (xs : List Rule) (i : ℕ) (r : Rule) → IsValidRule r → AreValid xs → AreValid (set xs i r)
  set-AreValid [] i r hr h = tt
  set-AreValid (x ∷ xs) zero r hr h = (hr, h.1)
  set-AreValid (x ∷ xs) (suc i) r hr h = (h.0, set-AreValid xs i r hr h.1)

  get-IsValid :
      (xs : List Rule) (i : ℕ) (r : Rule) → AreValid xs → get_elem? xs i ≡ some r → IsValidRule r
  get-IsValid [] i r h e = cc
  get-IsValid (x ∷ xs) zero r h e = let same : x ≡ r = cc in rw (← same) (h.0)
  get-IsValid (x ∷ xs) (suc i) r h e = get-IsValid xs i r h.1 e

  swapped-AreValid :
      (xs : List Rule) (i j : ℕ) (a b : Option Rule)
      → get_elem? xs i ≡ a
      → get_elem? xs j ≡ b
      → AreValid xs
      → AreValid (swapped xs i j a b)
  swapped-AreValid xs i j none b ea eb h = h
  swapped-AreValid xs i j (some x) none ea eb h = h
  swapped-AreValid xs i j (some x) (some y) ea eb h =
      set-AreValid (set xs i y) j x (get-IsValid xs i x h ea)
        (set-AreValid xs i y (get-IsValid xs j y h eb) h)

  moved-AreValid :
      (up : Bool) (xs : List Rule) (o : Option ℕ) → AreValid xs → AreValid (move_from up xs o)
  moved-AreValid up xs none h = h
  moved-AreValid true xs (some i) h = elim (Bool-cases (nat_eq i 0)) [
    | inl e ↦ rw e h
    | inr e ↦ rw e (swapped-AreValid xs i (i - 1) _ _ refl refl h)
  ]
  moved-AreValid false xs (some i) h = swapped-AreValid xs i (suc i) _ _ refl refl h

  without-AreValid : (id : String) (xs : List Rule) → AreValid xs → AreValid (without id xs)
  unfolding without
  without-AreValid id [] h = tt
  without-AreValid id (x ∷ xs) h = elim (Bool-cases (x.id == id)) [
    | inl e ↦ rw e h.1
    | inr e ↦ rw e (h.0, without-AreValid id xs h.1)
  ]

  find-IsValid :
      (id : String) (xs : List Rule) (r : Rule) → AreValid xs → find id xs ≡ some r → IsValidRule r
  unfolding find
  find-IsValid id [] r h e = cc
  find-IsValid id (x ∷ xs) r h e = elim (Bool-cases (x.id == id)) [
    | inl same ↦ let it : x ≡ r = found x r (rw same at e) in rw (← it) h.0
    | inr other ↦ find-IsValid id xs r h.1 (rw other at e)
  ]
    where
      found : (y z : Rule) → some y ≡ some z → y ≡ z
      found y z e' = cc

  top_from-AreValid :
      (id : String) (xs : List Rule) (o : Option Rule)
      → find id xs ≡ o
      → AreValid xs
      → AreValid (top_from id xs o)
  top_from-AreValid id xs none e h = h
  top_from-AreValid id xs (some r) e h = (find-IsValid id xs r h e, without-AreValid id xs h)

  prepared-AreValid :
      (o : Result Error Rule) (rest : Result Error (List Rule)) (new : List Rule)
      → prepared_head valid_cidr compiles hash o rest ≡ ok new
      → ((p : Rule) → o ≡ ok p → IsValidRule p)
      → ((ps : List Rule) → rest ≡ ok ps → AreValid ps)
      → AreValid new
  prepared-AreValid (err x) rest new e ho hr = cc
  prepared-AreValid (ok r) (err x) new e ho hr = cc
  prepared-AreValid (ok r) (ok rs) new e ho hr =
      let same : with_id hash r ∷ rs ≡ new = cc in rw (← same) (ho r refl, hr rs refl)

  prepare-AreValid :
      (pack : String) (rules new : List Rule)
      → prepare valid_cidr compiles hash pack rules ≡ ok new
      → AreValid new
  unfolding prepare
  prepare-AreValid pack [] new e = let none_left : [] ≡ new = cc in rw (← none_left) tt
  prepare-AreValid pack (r ∷ rs) new e =
      prepared-AreValid _ _ new e (λ p. validate-IsValid (tagged pack r) p)
        (λ rest. prepare-AreValid pack rs rest)

  add_valid-AreValid :
      (s : Store (List Rule)) (disk : Write (List Rule)) (o : Result Error Rule)
      → ((p : Rule) → o ≡ ok p → IsValidRule p)
      → AreValid s.current
      → AreValid (add_valid valid_cidr compiles hash s disk o).0.current
  unfolding update_rules
  add_valid-AreValid s disk (err e) ho h = h
  add_valid-AreValid s disk (ok r) ho h = put-AreValid (with_id hash r) s.current (ho r refl) h

  update_valid-AreValid :
      (s : Store (List Rule)) (id : String) (disk : Write (List Rule)) (o : Result Error Rule)
      → ((p : Rule) → o ≡ ok p → IsValidRule p)
      → AreValid s.current
      → AreValid (update_valid valid_cidr compiles hash s id disk o).0.current
  unfolding update_rules
  update_valid-AreValid s id disk (err e) ho h = h
  update_valid-AreValid s id disk (ok r) ho h =
      replace-AreValid id (with_id hash r) s.current (ho r refl) h

  update_found-AreValid :
      (s : Store (List Rule)) (id : String) (p : Patch) (disk : Write (List Rule)) (o : Option Rule)
      → AreValid s.current
      → AreValid (update_found valid_cidr compiles hash s id p disk o).0.current
  update_found-AreValid s id p disk none h = h
  update_found-AreValid s id p disk (some r) h =
      update_valid-AreValid s id disk _ (λ q. validate-IsValid (patched p r) q) h

  replace_prepared-AreValid :
      (s : Store (List Rule)) (pack : String) (disk : Write (List Rule))
      (o : Result Error (List Rule))
      → ((new : List Rule) → o ≡ ok new → AreValid new)
      → AreValid s.current
      → AreValid (replace_prepared valid_cidr compiles hash s pack disk o).0.current
  unfolding update_rules
  replace_prepared-AreValid s pack disk (err e) ho h = h
  replace_prepared-AreValid s pack disk (ok new) ho h =
      All-append IsValidRule (filter (outside pack) s.current) new
        (All-filter IsValidRule (outside pack) s.current h) (ho new refl)

  pub perform-AreValid :
      (c : Call) (disk : Write (List Rule)) (s : Store (List Rule))
      → IsFair c
      → AreValid s.current
      → AreValid (perform c disk s).0.current
  unfolding set_rules add update remove set_enabled set_pack_enabled remove_pack replace_pack move
      move_top update_rules moved
  perform-AreValid (set_call rules) disk s fair h = fair
  perform-AreValid (add_call r) disk s fair h =
      add_valid-AreValid s disk _ (λ p. validate-IsValid r p) h
  perform-AreValid (update_call id p) disk s fair h = update_found-AreValid s id p disk _ h
  perform-AreValid (remove_call id) disk s fair h = All-filter IsValidRule _ s.current h
  perform-AreValid (enable_call id on) disk s fair h =
      map-AreValid _ s.current (λ r. if-IsValid (r.id == id) on r) h
  perform-AreValid (enable_pack_call pack on) disk s fair h =
      map-AreValid _ s.current (λ r. if-IsValid (r.pack == pack) on r) h
  perform-AreValid (remove_pack_call pack) disk s fair h = All-filter IsValidRule _ s.current h
  perform-AreValid (replace_pack_call pack rules) disk s fair h = elim (Bool-cases (pack == "")) [
    | inl e ↦ rw e h
    | inr e ↦
        rw e (replace_prepared-AreValid s pack disk _ (λ new. prepare-AreValid pack rules new) h)
  ]
  perform-AreValid (move_call id up) disk s fair h = moved-AreValid up s.current _ h
  perform-AreValid (move_top_call id) disk s fair h = top_from-AreValid id s.current _ refl h
