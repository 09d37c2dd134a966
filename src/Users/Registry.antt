-- ===== src/Users/Registry.antt =====
-- The registry over time: there is an admin, and no two accounts look alike.
pub mod Steps
pub mod AccountSteps
pub mod KeySteps
pub mod History
use trust_proxy.Base.{
  ℕ, suc, ◌+◌, ◌≤◌, String, Bool, true, false, List, [], ◌∷◌, ◌++◌, Option, none, some, ◌≡◌, refl,
  sym, ap, ◌∙◌, subst, arith, ◌⊎◌, inl, inr, All, is_empty, map, if◌then◌else◌, nat_eq, nat_eq_iff,
  not, ◌==◌, ◌&&◌, ◌||◌, Result, ok, err,
}
use trust_proxy.Users.{
  User, Doc, File, Content, Store, Error, Write, wrote, failed, save, with_users, count_if, one_if,
  by_id, put_id, put_name, find_name, remove_id, find_match, is_admin, is_enabled_admin,
  admin_count, enabled_admin_count, reload,
}

abbrev pub names : List User → List String
names us = map (λ u. u.username) us

pub save-users :
    (disk : Write) (us : List User) (s : Store)
    → (save disk (tt {0}) (with_users s us)).0.data'.users ≡ us
save-users (wrote stamp) us s = refl
save-users failed us s = refl

module _ (p : User → Bool) where
  pub count-put_id :
      (id : String) (u u' : User) (us : List User)
      → by_id id us ≡ some u
      → count_if p (put_id id u' us) + one_if (p u) ≡ count_if p us + one_if (p u')
  unfolding count_if by_id put_id
  count-put_id id u u' [] h = cc
  count-put_id id u u' (v ∷ us) h = ground (arith, count-put_id id u u' us)

  pub count-put_name :
      (name : String) (u u' : User) (us : List User)
      → find_name name us ≡ some u
      → count_if p (put_name name u' us) + one_if (p u) ≡ count_if p us + one_if (p u')
  unfolding count_if find_name put_name
  count-put_name name u u' [] h = cc
  count-put_name name u u' (v ∷ us) h = ground (arith, count-put_name name u u' us)

  pub count-remove_id :
      (id : String) (u : User) (us : List User)
      → by_id id us ≡ some u
      → count_if p (remove_id id us) + one_if (p u) ≡ count_if p us
  unfolding count_if by_id remove_id
  count-remove_id id u [] h = cc
  count-remove_id id u (v ∷ us) h = ground (arith, count-remove_id id u us)

  pub count-append :
      (us : List User) (u : User) → count_if p (us ++ u ∷ []) ≡ count_if p us + one_if (p u)
  unfolding count_if
  count-append [] u = ground arith
  count-append (v ∷ us) u = omega (arith, count-append us u)

pub names-put_id :
    (id : String) (u u' : User) (us : List User)
    → by_id id us ≡ some u
    → u'.username ≡ u.username
    → names (put_id id u' us) ≡ names us
unfolding by_id put_id
names-put_id id u u' [] h e = cc
names-put_id id u u' (v ∷ us) h e = ground (arith, names-put_id id u u' us)

pub names-put_name :
    (name : String) (u u' : User) (us : List User)
    → find_name name us ≡ some u
    → u'.username ≡ u.username
    → names (put_name name u' us) ≡ names us
unfolding find_name put_name
names-put_name name u u' [] h e = cc
names-put_name name u u' (v ∷ us) h e = ground (arith, names-put_name name u u' us)

-- No later name matches an earlier one.
abbrev pub NoTwins : List String → Type 0
NoTwins [] = Unit
NoTwins (n ∷ ns) = All (λ m. find_match n m ≡ false) ns × NoTwins ns

All-remove_id :
    (P : String → Type 0) (id : String) (us : List User)
    → All P (names us)
    → All P (names (remove_id id us))
unfolding remove_id
All-remove_id P id [] h = tt
All-remove_id P id (u ∷ us) h = ground (arith, All-remove_id P id us h.1)

pub NoTwins-remove_id :
    (id : String) (us : List User) → NoTwins (names us) → NoTwins (names (remove_id id us))
unfolding remove_id
NoTwins-remove_id id [] h = tt
NoTwins-remove_id id (u ∷ us) h = ground (
  arith,
  All-remove_id (λ m. find_match u.username m ≡ false) id us h.0,
  NoTwins-remove_id id us h.1,
)

All-names-append :
    (P : String → Type 0) (us : List User) (u : User)
    → All P (names us)
    → P u.username
    → All P (names (us ++ u ∷ []))
All-names-append P [] u h k = (k, tt)
All-names-append P (v ∷ us) u h k = (h.0, All-names-append P us u h.1 k)

pub NoTwins-append :
    (us : List User) (u : User)
    → NoTwins (names us)
    → find_name u.username us ≡ none
    → NoTwins (names (us ++ u ∷ []))
unfolding find_name
NoTwins-append [] u h free = (tt, tt)
NoTwins-append (v ∷ us) u h free =
    let fresh : find_match v.username u.username ≡ false = ground arith in
    let rest : find_name u.username us ≡ none = ground arith in
    (
      All-names-append (λ m. find_match v.username m ≡ false) us u h.0 fresh,
      NoTwins-append us u h.1 rest,
    )
