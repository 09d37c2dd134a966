-- ===== src/ListStore.antt =====
-- internal/liststore/liststore.go: the sorted lists, the remarks and the save of the list stores.
-- A disk of the file succeeds or fails as the environment says; a disk that fails leaves what it
-- likes on the disk. The lock is held for a whole operation, so an operation is one function.
pub mod Laws
pub mod Notes
mod Tests
use Prim.Native.String.{◌++◌ as append, compare}
use Prim.Native.Nat.{Ordering}
use trust_proxy.Base.{
  String, Bool, true, false, List, [], ◌∷◌, ◌++◌, Option, none, some, ◌==◌, not, ◌||◌, ℕ, suc,
  if◌then◌else◌, filter, any, is_empty,
}
use trust_proxy.Base.Text.{trim_space, strip_prefix}

-- A Go map[string]string; `none` is the nil map.
abbrev pub Notes : Type 0
Notes = Option (List (String × String))

abbrev pub entries : Notes → List (String × String)
entries none = []
entries (some m) = m

-- m[k] of a Go map of texts: "" for a key that is not there.
unfoldable value_at : String → List (String × String) → String
value_at k [] = ""
value_at k ((j, v) ∷ m) = if j == k then v else value_at k m

unfoldable assign : String → String → List (String × String) → List (String × String)
assign k v [] = (k, v) ∷ []
assign k v ((j, w) ∷ m) = if j == k then (k, v) ∷ m else (j, w) ∷ assign k v m

unfoldable pub delete : String → List (String × String) → List (String × String)
delete k [] = []
delete k ((j, w) ∷ m) = if j == k then delete k m else (j, w) ∷ delete k m

unfoldable note_key : String → String → String
note_key dim value = append dim (append ":" value)

abbrev pub nil_if_empty : List (String × String) → Notes
nil_if_empty [] = none
nil_if_empty (e ∷ m) = some (e ∷ m)

clear_key : String → Notes → Notes
unfolding delete
clear_key key none = none
clear_key key (some m) = nil_if_empty (delete key m)

pub set_note : Notes → String → String → String → Notes
unfolding clear_key assign trim_space note_key
set_note notes dim value note =
    let key = note_key dim value in
    let trimmed = trim_space note in
    if trimmed == "" then clear_key key notes else some (assign key trimmed (entries notes))

unfoldable pub clear_note : Notes → String → String → Notes
unfolding set_note
clear_note notes dim value = set_note notes dim value ""

-- A key of another dimension stays; one of this dimension stays if its value does.
abbrev stays : Bool × String → List String → Bool
stays (mine, value) keep = not mine || any (λ k. k == value) keep

unfoldable pub prune_notes : Notes → String → List String → Notes
unfolding strip_prefix
prune_notes none dim keep = none
prune_notes (some m) dim keep =
    nil_if_empty (filter (λ e. stays (strip_prefix (append dim ":") e.0) keep) m)

unfoldable note_of : Notes → String → String → String
unfolding value_at note_key
note_of none dim value = ""
note_of (some m) dim value = value_at (note_key dim value) m

abbrev pub less_eq : String → String → Bool
less_eq s t = elim (compare s t) [ Ordering.gt ↦ false | _ ↦ true ]

-- sort.Strings: the order of the texts, equal ones being alike.
unfoldable insert_sorted : String → List String → List String
insert_sorted v [] = v ∷ []
insert_sorted v (x ∷ xs) = if less_eq v x then v ∷ x ∷ xs else x ∷ insert_sorted v xs

unfoldable sort : List String → List String
unfolding insert_sorted
sort [] = []
sort (x ∷ xs) = insert_sorted x (sort xs)

abbrev pub contains : List String → String → Bool
contains list v = any (λ x. x == v) list

pub add : List String → String → List String
unfolding sort
add list v = if contains list v then list else sort (list ++ v ∷ [])

pub remove : List String → String → List String
remove [] v = []
remove (x ∷ xs) v = if x == v then remove xs v else x ∷ remove xs v

-- The elements that are kept, and the count to which those dropped are added.
pub filter_count : List String → (String → Bool) → ℕ → List String × ℕ
filter_count [] keep removed = ([], removed)
filter_count (x ∷ xs) keep removed =
    let kept = filter_count xs keep removed in
    let dropped = filter_count xs keep (suc removed) in
    if keep x then (x ∷ kept.0, kept.1) else dropped

-- What becomes of a disk of the file.
pub data Write {ℓ} (A : Type ℓ) : Type ℓ where
  wrote : Write A
  failed : Option A → Write A

pub record Store {ℓ} (A : Type ℓ) : Type ℓ where
  -- The copy in memory, and what the file holds.
  pub current : A
  pub file : Option A

abbrev saved {ℓ} : {A : Type ℓ} → A → Write A → Option A
saved a wrote = some a
saved a (failed left) = left

abbrev pub is_failed {ℓ} : {A : Type ℓ} → Write A → Bool
is_failed wrote = false
is_failed (failed _) = true

-- The new store, the snapshot that is returned, and whether the save failed.
unfoldable pub mutate {ℓ} : {A : Type ℓ} → Store A → (A → A) → Write A → Store A × A × Bool
mutate s fn disk =
    let data' = fn s.current in
    (record { current = data'; file = saved data' disk }, data', is_failed disk)

-- What a store finds at its path: no file, one that cannot be read or decoded, or data.
pub data Found {ℓ} (A : Type ℓ) : Type ℓ where
  no_file unreadable : Found A
  holds : A → Found A
