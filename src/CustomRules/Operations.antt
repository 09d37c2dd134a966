-- ===== src/CustomRules/Operations.antt =====
-- internal/customrules/store.go: the operations of the store.
use trust_proxy.Base.{
  ℕ, suc, ◌-◌, String, Bool, true, false, List, [], ◌∷◌, ◌++◌, Option, none, some, ◌==◌, not, ltb,
  nat_eq, if◌then◌else◌, filter, map, get_elem?, set, Result, ok, err,
}
use trust_proxy.ListStore.{Store, Write, Found, no_file, unreadable, holds, mutate}
use trust_proxy.Policy.{CustomRule}
use trust_proxy.CustomRules.{Rule, Error, validate, with_id}
use trust_proxy.CustomRules.Error.{not_found, no_pack, save_failed}

abbrev pub Outcome : Type 0
Outcome = Store (List Rule) × List Rule × Option Error

abbrev pub fails : Store (List Rule) → Error → Outcome
fails s e = (s, s.current, some e)

abbrev save_error : Bool → Option Error
save_error b = if b then some save_failed else none

unfoldable pub update_rules :
    Store (List Rule) → (List Rule → List Rule) → Write (List Rule) → Outcome
unfolding mutate
update_rules s fn disk = let (s', snap, bad) = mutate s fn disk in (s', snap, save_error bad)

unfoldable pub set_rules : Store (List Rule) → List Rule → Write (List Rule) → Outcome
unfolding update_rules
set_rules s rules disk = update_rules s (λ _. rules) disk

-- In the place of the rule of that ID, or at the end.
unfoldable pub put : Rule → List Rule → List Rule
put r [] = r ∷ []
put r (x ∷ xs) = let rest = put r xs in if x.id == r.id then r ∷ xs else x ∷ rest

-- PatchCustomRuleRequest: the fields that are given.
pub record Patch : Type 0 where
  pub enabled : Option Bool
  pub match : Option String
  pub value : Option String
  pub action : Option String
  pub egress : Option String
  pub permit : Option Bool
  pub node : Option String
  pub pack : Option String

abbrev given {ℓ} : {A : Type ℓ} → Option A → A → A
given none old = old
given (some new) old = new

abbrev patch_action : Option String → CustomRule → CustomRule
patch_action none r = r
patch_action (some a) r = record r { action = a; egress = a }

abbrev patch_egress : Option String → CustomRule → CustomRule
patch_egress none r = r
patch_egress (some e) r = record r { egress = e; action = if e == "none" then r.action else e }

abbrev patch_permit : Option Bool → CustomRule → CustomRule
patch_permit none r = r
patch_permit (some p) r = record r { permit = some p }

abbrev pub patched : Patch → Rule → Rule
patched p r =
    let q = r.policy in
    let q1 : CustomRule = record q {
      enabled = given p.enabled q.enabled;
      match = given p.match q.match;
      value = given p.value q.value;
    } in
    let q2 = patch_permit p.permit (patch_egress p.egress (patch_action p.action q1)) in
    record r { policy = record q2 { node = given p.node q2.node }; pack = given p.pack r.pack }

-- The first rule of that ID, and a write in its place.
unfoldable pub find : String → List Rule → Option Rule
find id [] = none
find id (x ∷ xs) = if x.id == id then some x else find id xs

unfoldable pub replace : String → Rule → List Rule → List Rule
replace id r [] = []
replace id r (x ∷ xs) = let rest = replace id r xs in if x.id == id then r ∷ xs else x ∷ rest

unfoldable pub remove : Store (List Rule) → String → Write (List Rule) → Outcome
unfolding update_rules
remove s id disk = update_rules s (filter (λ x. not (x.id == id))) disk

abbrev pub enable : Bool → Rule → Rule
enable on r = record r { policy = record r.policy { enabled = on } }

unfoldable pub set_enabled : Store (List Rule) → String → Bool → Write (List Rule) → Outcome
unfolding update_rules
set_enabled s id on disk = update_rules s (map (λ x. if x.id == id then enable on x else x)) disk

unfoldable pub set_pack_enabled : Store (List Rule) → String → Bool → Write (List Rule) → Outcome
unfolding update_rules
set_pack_enabled s pack on disk =
    update_rules s (map (λ x. if x.pack == pack then enable on x else x)) disk

abbrev pub outside : String → Rule → Bool
outside pack x = not (x.pack == pack)

unfoldable pub remove_pack : Store (List Rule) → String → Write (List Rule) → Outcome
unfolding update_rules
remove_pack s pack disk = update_rules s (filter (outside pack)) disk

abbrev pub tagged : String → Rule → Rule
tagged pack r = record (enable true r) { pack = pack }

unfoldable pub index_of : String → List Rule → Option ℕ
index_of id [] = none
index_of id (x ∷ xs) =
    let rest = index_of id xs in
    if x.id == id then some 0 else elim rest [ none ↦ none | some i ↦ some (suc i) ]

abbrev pub swapped : List Rule → ℕ → ℕ → Option Rule → Option Rule → List Rule
swapped rules i j (some x) (some y) = set (set rules i y) j x
swapped rules i j _ _ = rules

-- Nothing is swapped where an index is out of range.
abbrev pub swap : List Rule → ℕ → ℕ → List Rule
swap rules i j = swapped rules i j (get_elem? rules i) (get_elem? rules j)

-- `up` is a negative direction.
abbrev pub move_from : Bool → List Rule → Option ℕ → List Rule
move_from up rules none = rules
move_from true rules (some i) = if nat_eq i 0 then rules else swap rules i (i - 1)
move_from false rules (some i) = swap rules i (suc i)

unfoldable pub moved : String → Bool → List Rule → List Rule
moved id up rules = move_from up rules (index_of id rules)

unfoldable pub move : Store (List Rule) → String → Bool → Write (List Rule) → Outcome
unfolding update_rules
move s id up disk = update_rules s (moved id up) disk

-- The first rule of that ID before the others, which keep their order.
unfoldable pub without : String → List Rule → List Rule
without id [] = []
without id (x ∷ xs) = let rest = without id xs in if x.id == id then xs else x ∷ rest

abbrev pub top_from : String → List Rule → Option Rule → List Rule
top_from id rules none = rules
top_from id rules (some r) = r ∷ without id rules

unfoldable pub move_top : Store (List Rule) → String → Write (List Rule) → Outcome
unfolding update_rules
move_top s id disk = update_rules s (λ rules. top_from id rules (find id rules)) disk

module _ (valid_cidr compiles : String → Bool) (hash : String → String) where
  abbrev pub add_valid : Store (List Rule) → Write (List Rule) → Result Error Rule → Outcome
  add_valid s disk (err e) = fails s e
  add_valid s disk (ok r) = update_rules s (put (with_id hash r)) disk

  unfoldable pub add : Store (List Rule) → Rule → Write (List Rule) → Outcome
  add s r disk = add_valid s disk (validate valid_cidr compiles r)

  abbrev pub update_valid :
      Store (List Rule) → String → Write (List Rule) → Result Error Rule → Outcome
  update_valid s id disk (err e) = fails s e
  update_valid s id disk (ok r) = update_rules s (replace id (with_id hash r)) disk

  abbrev pub update_found :
      Store (List Rule) → String → Patch → Write (List Rule) → Option Rule → Outcome
  update_found s id p disk none = fails s not_found
  update_found s id p disk (some r) =
      update_valid s id disk (validate valid_cidr compiles (patched p r))

  unfoldable pub update : Store (List Rule) → String → Patch → Write (List Rule) → Outcome
  update s id p disk = update_found s id p disk (find id s.current)

  abbrev pub prepared_head : Result Error Rule → Result Error (List Rule) → Result Error (List Rule)
  prepared_head (err e) rest = err e
  prepared_head (ok r) (err e) = err e
  prepared_head (ok r) (ok rs) = ok (with_id hash r ∷ rs)

  unfoldable pub prepare : String → List Rule → Result Error (List Rule)
  prepare pack [] = ok []
  prepare pack (r ∷ rs) =
      prepared_head (validate valid_cidr compiles (tagged pack r)) (prepare pack rs)

  abbrev pub replace_prepared :
      Store (List Rule) → String → Write (List Rule) → Result Error (List Rule) → Outcome
  replace_prepared s pack disk (err e) = fails s e
  replace_prepared s pack disk (ok new) =
      update_rules s (λ rules. filter (outside pack) rules ++ new) disk

  unfoldable pub replace_pack : Store (List Rule) → String → List Rule → Write (List Rule) → Outcome
  replace_pack s pack rules disk =
      if pack == "" then fails s no_pack else replace_prepared s pack disk (prepare pack rules)

  abbrev keep_id : Rule → Rule
  keep_id r = if r.id == "" then with_id hash r else r

  abbrev pub kept_head : Result Error Rule → List Rule × ℕ → List Rule × ℕ
  kept_head (err e) (rest, removed) = (rest, suc removed)
  kept_head (ok r) (rest, removed) = (keep_id r ∷ rest, removed)

  -- The rules that are left, and the number of those dropped.
  unfoldable pub sanitize : List Rule → List Rule × ℕ
  sanitize [] = ([], 0)
  sanitize (r ∷ rs) = kept_head (validate valid_cidr compiles r) (sanitize rs)

  unfoldable pub open_store :
      Found (List Rule) → Write (List Rule) → Option (Store (List Rule) × Option Error)
  unfolding sanitize update_rules
  open_store no_file disk =
      let opened = update_rules (record { current = []; file = none }) (λ r. r) disk in
      some (opened.0, opened.2)
  open_store unreadable _ = none
  open_store (holds rules) disk =
      let clean = sanitize rules in
      let start : Store (List Rule) = record { current = clean.0; file = some rules } in
      if ltb 0 clean.1
      then some ((update_rules start (λ x. x) disk).0, none)
      else some (start, none)
