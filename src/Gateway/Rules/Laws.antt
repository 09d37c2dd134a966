-- ===== src/Gateway/Rules/Laws.antt =====
-- Where the injectors put their rules.
use trust_proxy.Base.{
  suc, String, true, false, List, [], ◌∷◌, ◌++◌, Option, none, some, subst, ◌>>=◌, ◌≡◌, refl, sym,
  ap, ◌∙◌, length, take-length, drop-length, All, Result, ok, err, ◌==◌,
}
use trust_proxy.Json.{
  Json, Fields, obj, array, Object, Error, find, put, find-put, read_list, set, items-of_items,
}
use trust_proxy.Gateway.Rules.{
  is_prelude, prelude_len, is_catch_all_rule, catch_all_idx, insert_at, edit_rules, edit_route,
  write_if,
}

-- No rule of the list is a catch-all; each is a prelude rule; the first is no prelude rule.
abbrev pub NoCatchAll : List Json → Type 0
NoCatchAll rs = All (λ r. is_catch_all_rule r ≡ false) rs

abbrev pub IsPrelude : List Json → Type 0
IsPrelude rs = All (λ r. is_prelude r ≡ true) rs

abbrev pub NoPreludeHead : List Json → Type 0
NoPreludeHead [] = Unit
NoPreludeHead (r ∷ rs) = is_prelude r ≡ false

-- Nothing, or a catch-all and what is below it.
abbrev pub IsTail : List Json → Type 0
IsTail [] = Unit
IsTail (r ∷ rs) = is_catch_all_rule r ≡ true

prelude_len-append :
    (pre xs : List Json) → IsPrelude pre → NoPreludeHead xs → prelude_len (pre ++ xs) ≡ length pre
unfolding prelude_len
prelude_len-append [] [] h k = refl
prelude_len-append [] (x ∷ xs) h k = rw k
prelude_len-append (r ∷ pre) xs h k = rw h.0 (ap suc (prelude_len-append pre xs h.1 k))

pub catch_all_idx-append :
    (xs t : List Json) → NoCatchAll xs → IsTail t → catch_all_idx (xs ++ t) ≡ length xs
unfolding catch_all_idx
catch_all_idx-append [] [] h k = refl
catch_all_idx-append [] (x ∷ t) h k = rw k
catch_all_idx-append (x ∷ xs) t h k = rw h.0 (ap suc (catch_all_idx-append xs t h.1 k))

insert_at-length : (xs new ys : List Json) → insert_at (length xs) new (xs ++ ys) ≡ xs ++ new ++ ys
insert_at-length xs new ys = rw (take-length xs ys, drop-length xs ys)

-- Behind the prelude.
pub insert-prelude :
    (pre new xs : List Json)
    → IsPrelude pre
    → NoPreludeHead xs
    → insert_at (prelude_len (pre ++ xs)) new (pre ++ xs) ≡ pre ++ new ++ xs
insert-prelude pre new xs h k = rw (prelude_len-append pre xs h k) (insert_at-length pre new xs)

-- Above the catch-all.
pub insert-catch_all :
    (xs new t : List Json)
    → NoCatchAll xs
    → IsTail t
    → insert_at (catch_all_idx (xs ++ t)) new (xs ++ t) ≡ xs ++ new ++ t
insert-catch_all xs new t h k = rw (catch_all_idx-append xs t h k) (insert_at-length xs new t)

-- The route rules of a document that has a route.
abbrev pub listed : Result Error (List Json) → Option (List Json)
listed (ok rs) = some rs
listed (err _) = none

abbrev pub rules_in : Option Json → Option (List Json)
rules_in (some (obj fs)) = listed (read_list (find "rules" fs))
rules_in _ = none

unfoldable pub rules_of : Object → Option (List Json)
rules_of none = none
rules_of (some fs) = rules_in (find "route" fs)

-- The rules that an injector leaves.
abbrev pub edited : Option (List Json) → List Json → List Json
edited none rs = rs
edited (some rs') rs = rs'

pub ok-injective {ℓ κ} :
    {E : Type ℓ} {A : Type κ} {a b : A} → ◌≡◌ {A = Result E A} (ok a) (ok b) → a ≡ b
ok-injective h = cc

pub some-injective {ℓ} : {A : Type ℓ} {a b : A} → some a ≡ some b → a ≡ b
some-injective h = cc

some-rules :
    (fs rules : Fields) (rs : List Json)
    → rules_of (some (put "route" (obj (put "rules" (array rs) rules)) fs)) ≡ some rs
unfolding rules_of
some-rules fs rules rs =
    rw (find-put "route" "route" (obj (put "rules" (array rs) rules)) fs)
      (rw (find-put "rules" "rules" (array rs) rules) (ap some (items-of_items rs)))

write_if-rules :
    (fs r : Fields) (rs : List Json) (o : Option (List Json)) (cfg' : Object)
    → rules_of (some fs) ≡ some rs
    → write_if (some fs) (some r) o ≡ ok cfg'
    → rules_of cfg' ≡ some (edited o rs)
write_if-rules fs r rs none cfg' e h = subst (λ c. rules_of c ≡ some rs) (ok-injective h) e
write_if-rules fs r rs (some rs') cfg' e h =
    subst (λ c. rules_of c ≡ some rs') (ok-injective h) (some-rules fs r rs')

edit_read-rules :
    (fs r : Fields) (f : List Json → Option (List Json)) (rs : List Json)
    (m : Result Error (List Json)) (cfg' : Object)
    → rules_of (some fs) ≡ some rs
    → listed m ≡ some rs
    → (m >>= λ rules. write_if (some fs) (some r) (f rules)) ≡ ok cfg'
    → rules_of cfg' ≡ some (edited (f rs) rs)
edit_read-rules fs r f rs (ok rs') cfg' e l h =
    subst (λ x. rules_of cfg' ≡ some (edited (f x) x)) (some-injective l)
      (write_if-rules fs r rs' (f rs') cfg' (e ∙ sym l) h)
edit_read-rules fs r f rs (err x) cfg' e l h = cc

edit_route-rules :
    (fs : Fields) (f : List Json → Option (List Json)) (rs : List Json) (o : Option Json)
    (cfg' : Object)
    → rules_of (some fs) ≡ some rs
    → rules_in o ≡ some rs
    → edit_route (some fs) f o ≡ ok cfg'
    → rules_of cfg' ≡ some (edited (f rs) rs)
edit_route-rules fs f rs (some (obj r)) cfg' e l h =
    edit_read-rules fs r f rs (read_list (find "rules" r)) cfg' e l h
edit_route-rules fs f rs none cfg' e l h = cc
edit_route-rules fs f rs (some other) cfg' e l h = cc

pub edit_rules_lem :
    (cfg cfg' : Object) (f : List Json → Option (List Json)) (rs : List Json)
    → rules_of cfg ≡ some rs
    → edit_rules cfg f ≡ ok cfg'
    → rules_of cfg' ≡ some (edited (f rs) rs)
unfolding edit_rules rules_of
edit_rules_lem none cfg' f rs e h = cc
edit_rules_lem (some fs) cfg' f rs e h = edit_route-rules fs f rs (find "route" fs) cfg' e e h

-- A write of another key leaves them.
pub set-rules_of :
    (k : String) (v : Json) (cfg cfg' : Object) (rs : List Json)
    → (k == "route") ≡ false
    → set k v cfg ≡ ok cfg'
    → rules_of cfg ≡ some rs
    → rules_of cfg' ≡ some rs
unfolding rules_of
set-rules_of k v none cfg' rs ne h e = cc
set-rules_of k v (some fs) cfg' rs ne h e =
    subst (λ c. rules_of c ≡ some rs) (ok-injective h)
      (rw (rules_of, find-put k "route" v fs, ne) e)

-- A write of the route replaces them.
pub set_route-rules_of :
    (v : Json) (cfg cfg' : Object) → set "route" v cfg ≡ ok cfg' → rules_of cfg' ≡ rules_in (some v)
unfolding rules_of
set_route-rules_of v none cfg' h = cc
set_route-rules_of v (some fs) cfg' h =
    subst (λ c. rules_of c ≡ rules_in (some v)) (ok-injective h)
      (rw (rules_of, find-put "route" "route" v fs))
