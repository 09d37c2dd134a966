-- ===== src/Gateway/Allow/Laws.antt =====
-- What injectAllow makes of the route rules.
use trust_proxy.Base.{
  ℕ, ◌+◌, String, Bool, true, List, [], ◌∷◌, ◌++◌, Option, none, some, ◌≡◌, refl, ◌∙◌, arith,
  length, if◌then◌else◌, ◌==◌, ◌&&◌, not, get_elem?, set, length-append, Bool-cases, Option-cases,
  any, subst, inl, inr, eq_iff,
}
use mathlib.Core.List.{append_assoc, append-nil}
use trust_proxy.Json.{Json, Fields, obj, str, find, put, find-put, text_at, field, end}
use trust_proxy.FinalRoute
use trust_proxy.Gateway.Rules.{str_slice_of, only_bare_keys, bare_key, is_catch_all_rule}
use trust_proxy.Gateway.Rules.Laws.{NoCatchAll, IsTail, catch_all_idx-append, insert-catch_all}
use trust_proxy.Gateway.Allow.{
  rewrite_fields, Policy, has_user_permit, catch_all, ensure_catch_all, rewrite_catch_all, finish,
  inserted_rules, allow_rules,
}

-- The gate stays shut with nothing inserted: nothing is permitted, and the posture is not split.
abbrev pub is_closed : Policy → Bool
is_closed p = not (has_user_permit p) && not (p.posture == "split")

abbrev pub final_outbound : Policy → String
final_outbound p = FinalRoute.resolve p.final p.member_tags

-- What becomes of the catch-all and what is below it.
abbrev pub closed_tail : List Json → List Json
closed_tail [] = catch_all "blocked" ∷ []
closed_tail (_ ∷ rs) = catch_all "blocked" ∷ rs

abbrev or_rule : Json → Option Json → Json
or_rule r none = r
or_rule r (some r') = r'

abbrev pub open_tail : String → List Json → List Json
open_tail outbound [] = catch_all outbound ∷ []
open_tail outbound (r ∷ rs) = or_rule r (rewrite_catch_all outbound (some r)) ∷ rs

abbrev pub allow_tail : Policy → List Json → List Json
allow_tail p t =
    if is_closed p then closed_tail t else inserted_rules p ++ open_tail (final_outbound p) t

get_elem?-length : (xs t : List Json) → get_elem? (xs ++ t) (length xs) ≡ get_elem? t 0
get_elem?-length [] t = refl
get_elem?-length (x ∷ xs) t = get_elem?-length xs t

set-length : (xs t : List Json) (r : Json) → set (xs ++ t) (length xs) r ≡ xs ++ set t 0 r
set-length [] t r = refl
set-length (x ∷ xs) t r = λ i. x ∷ set-length xs t r i

module _ (xs : List Json) (clear : NoCatchAll xs) where
  ensure-tail :
      (t : List Json) → IsTail t → ensure_catch_all "blocked" (xs ++ t) ≡ xs ++ closed_tail t
  unfolding ensure_catch_all
  ensure-tail [] k =
      rw (catch_all_idx-append xs [] clear k) (rw (get_elem?-length xs []) (rw append-nil))
  ensure-tail (r ∷ t) k =
      rw (catch_all_idx-append xs (r ∷ t) clear k)
        (rw (get_elem?-length xs (r ∷ t)) (set-length xs (r ∷ t) (catch_all "blocked")))

abbrev pub rewritten : String → Fields → Json
rewritten outbound fs = obj (put "outbound" (str outbound) (put "action" (str "route") fs))

-- A catch-all has a network, so it is rewritten.
pub rewrite-rewritten :
    (outbound : String) (fs : Fields)
    → is_catch_all_rule (obj fs) ≡ true
    → rewrite_catch_all outbound (some (obj fs)) ≡ some (rewritten outbound fs)
unfolding is_catch_all_rule rewrite_catch_all str_slice_of
rewrite-rewritten outbound fs h = elim (Option-cases (find "network" fs)) [
  | inl e ↦ cc (
      subst
        (λ o.
          (any (λ n. n == "tcp") (str_slice_of o)
            && any (λ n. n == "udp") (str_slice_of o)
            && only_bare_keys fs)
          ≡ true)
        e h)
  | inr (v, e) ↦ rw (e, rewrite_fields)
]

rewrite-some :
    (outbound : String) (r : Json)
    → is_catch_all_rule r ≡ true
    → (r' : Json) × (rewrite_catch_all outbound (some r) ≡ some r')
unfolding is_catch_all_rule
rewrite-some outbound (obj fs) h = (rewritten outbound fs, rewrite-rewritten outbound fs h)
rewrite-some outbound r h = cc

only_bare_keys-put :
    (k : String) (v : Json) (fs : Fields)
    → bare_key k ≡ true
    → only_bare_keys (put k v fs) ≡ only_bare_keys fs
unfolding only_bare_keys put
only_bare_keys-put k v end h = rw h
only_bare_keys-put k v (field j w fs) h = ground (arith, eq_iff j k, only_bare_keys-put k v fs h)

-- It stays a catch-all.
pub rewritten-is_catch_all :
    (outbound : String) (fs : Fields)
    → is_catch_all_rule (obj fs) ≡ true
    → is_catch_all_rule (rewritten outbound fs) ≡ true
unfolding is_catch_all_rule
rewritten-is_catch_all outbound fs h =
    rw (find-put "outbound" "network" (str outbound) (put "action" (str "route") fs)) (
      rw (find-put "action" "network" (str "route") fs) (
        rw (only_bare_keys-put "outbound" (str outbound) (put "action" (str "route") fs) refl)
          (rw (only_bare_keys-put "action" (str "route") fs refl) h)))

pub rewritten-keys :
    (outbound : String) (fs : Fields)
    → (text_at "action" (rewritten outbound fs) ≡ "route")
      × (text_at "outbound" (rewritten outbound fs) ≡ outbound)
unfolding text_at
rewritten-keys outbound fs = (
  rw (find-put "outbound" "action" (str outbound) (put "action" (str "route") fs))
      (rw (find-put "action" "action" (str "route") fs)),
  rw (find-put "outbound" "outbound" (str outbound) (put "action" (str "route") fs)),
)

finish-tail :
    (xs t : List Json) (outbound : String)
    → IsTail t
    → finish
        (xs ++ t)
        (length xs)
        outbound
        (rewrite_catch_all outbound (get_elem? (xs ++ t) (length xs)))
      ≡ xs ++ open_tail outbound t
finish-tail xs [] outbound k =
    unfold rewrite_catch_all in rw (get_elem?-length xs []) (rw append-nil)
finish-tail xs (r ∷ t) outbound k =
    let (r', e) = rewrite-some outbound r k in
    rw (get_elem?-length xs (r ∷ t)) (rw e (set-length xs (r ∷ t) r'))

open-rules :
    (outbound : String) (at : ℕ) (merged new xs t : List Json)
    → at ≡ length xs
    → merged ≡ (xs ++ new) ++ t
    → IsTail t
    → finish merged
        (at + length new)
        outbound
        (rewrite_catch_all outbound (get_elem? merged (at + length new)))
      ≡ xs ++ (new ++ open_tail outbound t)
open-rules outbound at merged new xs t here e k =
    let there : at + length new ≡ length (xs ++ new) = omega (arith, length-append xs new) in
    rw (e, there)
      (finish-tail (xs ++ new) t outbound k ∙ append_assoc xs new (open_tail outbound t))

-- Above the catch-all the rules stay; the gate, the resolve step and the egress stand right above
-- it, and it leads to Final. Without any permit and without the posture split nothing is inserted,
-- and it leads to "blocked".
pub allow_rules-append :
    (p : Policy) (xs t : List Json)
    → NoCatchAll xs
    → IsTail t
    → allow_rules p (xs ++ t) ≡ xs ++ allow_tail p t
unfolding allow_rules
allow_rules-append p xs t h k = elim (Bool-cases (is_closed p)) [
  | inl closed ↦ rw closed (ensure-tail xs h t k)
  | inr opened ↦ rw opened (
      open-rules (final_outbound p) _ _ (inserted_rules p) xs t (catch_all_idx-append xs t h k)
        (insert-catch_all xs (inserted_rules p) t h k) k)
]
