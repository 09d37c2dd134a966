-- ===== src/Users/Registry/Steps.antt =====
-- The operations on the roles of accounts, and edits of an account, keep an admin and distinct names.
use trust_proxy.Base.{
  ℕ, ◌+◌, ◌≤◌, String, Bool, true, false, List, [], ◌∷◌, some, ◌≡◌, refl, ap, arith, ◌⊎◌, inl, inr,
  is_empty, nat_eq, not, ◌==◌, ◌&&◌, Result, ok, err, Option-cases, Bool-cases,
}
use trust_proxy.Users.{
  User, File, Content, Store, Error, Write, wrote, failed, save, one_if, by_id, put_id, remove_id,
  is_admin, admin_count, reload, reload_from, write_found, mutate, with_users, normalize_role,
  known_role, same_stamp,
}
use trust_proxy.Users.Content.{missing, unreadable, garbled, document}
use trust_proxy.Users.Accounts.{
  set_role, set_role_of, set_disabled, set_disabled_of, delete, delete_of,
}
use trust_proxy.Users.Registry.{
  names, count-put_id, count-remove_id, names-put_id, NoTwins, NoTwins-remove_id,
}

-- Nobody yet, or an admin; and no two names match.
abbrev pub AreSound : List User → Type 0
AreSound us = ((is_empty (names us) ≡ true) ⊎ (1 ≤ admin_count us)) × NoTwins (names us)

abbrev pub IsSound : Store → Type 0
IsSound s = AreSound s.data'.users

abbrev pub IsSoundFile : Content → Type 0
IsSoundFile (document d) = AreSound d.users
IsSoundFile missing = Unit
IsSoundFile unreadable = Unit
IsSoundFile garbled = Unit

pub AreSound-same :
    (us us' : List User)
    → names us' ≡ names us
    → admin_count us' ≡ admin_count us
    → AreSound us
    → AreSound us'
AreSound-same us us' e k h = rw (e, k) h

pub reload-IsSound :
    (seen : File) (s : Store) → IsSoundFile seen.content → IsSound s → IsSound (reload seen s)
unfolding reload
reload-IsSound seen s hf h = elim (Bool-cases (same_stamp seen.stamp s.stamp)) [
  | inl e ↦ rw e h
  | inr e ↦ rw e (from seen.content hf)
]
  where
    from : (c : Content) → IsSoundFile c → IsSound (reload_from s seen.stamp c)
    from missing k = (inl refl, tt)
    from unreadable k = h
    from garbled k = h
    from (document d) k = k

abbrev pub Keeps : User → User → Type 0
Keeps u u' = (u'.username ≡ u.username) × (is_admin u' ≡ is_admin u)

put_id-AreSound :
    (id : String) (u u' : User) (us : List User)
    → by_id id us ≡ some u
    → Keeps u u'
    → AreSound us
    → AreSound (put_id id u' us)
put_id-AreSound id u u' us h k =
    AreSound-same us (put_id id u' us) (names-put_id id u u' us h k.0) (
      let same : one_if (is_admin u') ≡ one_if (is_admin u) = ap one_if (k.1) in
      omega (arith, count-put_id is_admin id u u' us h, same))

write_found-IsSound :
    (disk : Write) (id : String) (u : User) (r : Result Error User) (s : Store)
    → by_id id s.data'.users ≡ some u
    → ((u' : User) → r ≡ ok u' → Keeps u u')
    → IsSound s
    → IsSound (write_found disk id r s).0
write_found-IsSound disk id u (err e) s h k sound = sound
write_found-IsSound (wrote stamp) id u (ok u') s h k sound =
    put_id-AreSound id u u' s.data'.users h (k u' refl) sound
write_found-IsSound failed id u (ok u') s h k sound =
    put_id-AreSound id u u' s.data'.users h (k u' refl) sound

pub mutate-IsSound :
    (seen : File) (disk : Write) (id : String) (f : User → Result Error User) (s : Store)
    → ((u u' : User) → f u ≡ ok u' → Keeps u u')
    → IsSoundFile seen.content
    → IsSound s
    → IsSound (mutate seen disk id f s).0
unfolding mutate
mutate-IsSound seen disk id f s k hf h =
    let sound = reload-IsSound seen s hf h in
    elim (Option-cases (by_id id (reload seen s).data'.users)) [
      | inl e ↦ rw e sound
      | inr (u, e) ↦ rw e (write_found-IsSound disk id u (f u) (reload seen s) e (k u) sound)
    ]

save-AreSound :
    (disk : Write) (us : List User) (s : Store)
    → AreSound us
    → IsSound (save disk (tt {0}) (with_users s us)).0
save-AreSound (wrote stamp) us s h = h
save-AreSound failed us s h = h

-- A demotion is refused, or there was a second admin.
set_role_of-IsSound :
    (disk : Write) (id role : String) (s : Store) (u : User)
    → by_id id s.data'.users ≡ some u
    → IsSound s
    → IsSound (set_role_of disk id role s (some u)).0
set_role_of-IsSound disk id role s u e h =
    elim (Bool-cases
      (is_admin u && not (role == "admin") && nat_eq (admin_count s.data'.users) 1)) [
        | inl refused ↦ rw refused h
        | inr allowed ↦
            let u' : User = record u { role = role } in
            let us' = put_id id u' s.data'.users in
            rw allowed (
              save-AreSound disk us' s (
                (let kept : names us' ≡ names s.data'.users = names-put_id id u u' _ e refl in
                    rw kept (
                      let counts = count-put_id is_admin id u u' _ e in
                      governed s.data'.users u role (admin_count us') h.0 counts allowed)),
                rw (names-put_id id u u' _ e refl) (h.1),
              ))
      ]
  where
    governed :
        (us : List User) (u : User) (role : String) (n : ℕ)
        → ((is_empty (names us) ≡ true) ⊎ (1 ≤ admin_count us))
        → n + one_if (is_admin u) ≡ admin_count us + one_if (role == "admin")
        → (is_admin u && not (role == "admin") && nat_eq (admin_count us) 1) ≡ false
        → (is_empty (names us) ≡ true) ⊎ (1 ≤ n)
    governed us u role n (inl none_yet) counts allowed = inl none_yet
    governed us u role n (inr some_admin) counts allowed = inr (ground arith)

-- An edit that cannot fail.
pub update-IsSound :
    (seen : File) (disk : Write) (id : String) (g : User → User) (s : Store)
    → ((u : User) → Keeps u (g u))
    → IsSoundFile seen.content
    → IsSound s
    → IsSound (mutate seen disk id (λ u. ok (g u)) s).0
update-IsSound seen disk id g s k hf h =
    mutate-IsSound seen disk id (λ u. ok (g u)) s (λ u u' e. kept u u' e (k u)) hf h
  where
    kept : (u u' : User) → Path (Result Error User) (ok (g u)) (ok u') → Keeps u (g u) → Keeps u u'
    kept u u' e k = (cc, cc)

pub set_role-IsSound :
    (disk : Write) (id role : String) (s : Store) → IsSound s → IsSound (set_role disk id role s).0
unfolding set_role
set_role-IsSound disk id role s h = elim (Bool-cases (known_role (normalize_role role))) [
  | inr e ↦ rw e h
  | inl e ↦ rw e (elim (Option-cases (by_id id s.data'.users)) [
    | inl absent ↦ rw absent h
    | inr (u, found) ↦ rw found (set_role_of-IsSound disk id (normalize_role role) s u found h)
  ])
]

delete_of-IsSound :
    (disk : Write) (id : String) (s : Store) (u : User)
    → by_id id s.data'.users ≡ some u
    → IsSound s
    → IsSound (delete_of disk id s (some u)).0
unfolding by_id
delete_of-IsSound disk id s u e h =
    elim (Bool-cases (is_admin u && nat_eq (admin_count s.data'.users) 1)) [
      | inl refused ↦ rw refused h
      | inr allowed ↦ rw allowed (
          save-AreSound disk (remove_id id s.data'.users) s (
            governed s.data'.users h.0 e (count-remove_id is_admin id u _ e) allowed,
            NoTwins-remove_id id s.data'.users h.1,
          ))
    ]
  where
    governed :
        (us : List User)
        → ((is_empty (names us) ≡ true) ⊎ (1 ≤ admin_count us))
        → by_id id us ≡ some u
        → admin_count (remove_id id us) + one_if (is_admin u) ≡ admin_count us
        → (is_admin u && nat_eq (admin_count us) 1) ≡ false
        → (is_empty (names (remove_id id us)) ≡ true) ⊎ (1 ≤ admin_count (remove_id id us))
    governed [] (inl none_yet) found counts allowed = cc
    governed (v ∷ us) (inl none_yet) found counts allowed = cc
    governed us (inr some_admin) found counts allowed = inr (ground arith)

pub delete-IsSound :
    (disk : Write) (id : String) (s : Store) → IsSound s → IsSound (delete disk id s).0
unfolding delete
delete-IsSound disk id s h = elim (Option-cases (by_id id s.data'.users)) [
  | inl absent ↦ rw absent h
  | inr (u, found) ↦ rw found (delete_of-IsSound disk id s u found h)
]

pub set_disabled-IsSound :
    (disk : Write) (id : String) (b : Bool) (s : Store)
    → IsSound s
    → IsSound (set_disabled disk id b s).0
unfolding set_disabled
set_disabled-IsSound disk id b s h = elim (Option-cases (by_id id s.data'.users)) [
  | inl absent ↦ rw absent h
  | inr (u, found) ↦ rw found (of u found)
]
  where
    of :
        (u : User)
        → by_id id s.data'.users ≡ some u
        → IsSound (set_disabled_of disk id b s (some u)).0
    of u found =
        let done =
          save-AreSound disk (put_id id (record u { disabled = b }) s.data'.users) s
            (put_id-AreSound id u (record u { disabled = b }) _ found (refl, refl) h) in
        ground (arith, h, done)
