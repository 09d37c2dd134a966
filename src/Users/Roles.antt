-- ===== src/Users/Roles.antt =====
-- internal/users/store.go: what the guards on the admins let through.
use trust_proxy.Base.{
  ◌≤◌, String, Bool, true, false, List, [], ◌∷◌, ◌++◌, Option, none, some, ◌≡◌, refl, ap, ◌∙◌,
  arith, not, if◌then◌else◌, Result, ok, err, Option-cases, inl, inr, nat_eq, is_empty,
}
use trust_proxy.Base.Text.{trim_space}
use trust_proxy.Users.{
  User, File, Store, Error, Write, wrote, failed, reload, by_id, put_id, admin_count,
  enabled_admin_count, is_admin, is_enabled_admin, normalize_role, valid_username, valid_password,
  Outcome, fails, bad_username, bad_password, no_accounts, registration_closed,
}
use trust_proxy.Users.Accounts.{
  PublicUser, public, create, create_free, create_with, register, set_role, set_disabled, new_role,
  Draw, new_user, append_user,
}
use trust_proxy.Users.Registry.{save-users, count-put_id, count-append}

-- Disabling keeps an enabled admin: if there is one before, there is one after.
set_disabled_keeps_admin :
    (disk : Write) (id : String) (b : Bool) (s : Store)
    → 1 ≤ enabled_admin_count s.data'.users
    → 1 ≤ enabled_admin_count (set_disabled disk id b s).0.data'.users
unfolding set_disabled
set_disabled_keeps_admin disk id b s h = elim (Option-cases (by_id id s.data'.users)) [
  | inl absent ↦ rw absent h
  | inr (u, found) ↦ rw found (
      let u' : User = record u { disabled = b } in
      let counts = count-put_id is_enabled_admin id u u' s.data'.users found in
      let kept = save-users disk (put_id id u' s.data'.users) s in ground (arith, h, counts, kept))
]

-- The guard of SetRole counts disabled admins too: where the only enabled admin is demoted while
-- a disabled one exists, the demotion goes through and no enabled admin is left.
pub set_role_locks_out :
    (disk : Write) (id : String) (s : Store) (u : User)
    → by_id id s.data'.users ≡ some u
    → is_enabled_admin u ≡ true
    → enabled_admin_count s.data'.users ≡ 1
    → 2 ≤ admin_count s.data'.users
    → enabled_admin_count (set_role disk id "client" s).0.data'.users ≡ 0
unfolding set_role normalize_role
set_role_locks_out disk id s u found enabled one two =
    let u' : User = record u { role = "client" } in
    let counts = count-put_id is_enabled_admin id u u' s.data'.users found in
    let kept = save-users disk (put_id id u' s.data'.users) s in
    let allowed : nat_eq (admin_count s.data'.users) 1 ≡ false = ground arith in
    rw found (ground (arith, counts, kept, allowed))

new_role_client :
    (us : List User) (u : User)
    → new_role us "client" ≡ ok u.role
    → (is_empty us ≡ false → u.role ≡ "client") × (is_empty us ≡ true → u.role ≡ "admin")
unfolding new_role normalize_role
new_role_client [] u k = (λ h. cc, λ h. cc)
new_role_client (v ∷ us) u k = (λ h. cc, λ h. cc)

count_client :
    (us : List User) (u : User) → u.role ≡ "client" → admin_count (us ++ u ∷ []) ≡ admin_count us
count_client us u e =
    let client : is_admin u ≡ false = rw e in ground (arith, count-append is_admin us u)

-- Outcomes of the account that is made.
made_ok :
    (disk : Write) (u : User) (s : Store) (p : PublicUser)
    → (append_user disk u s).1 ≡ ok p
    → (p ≡ public u) × ((append_user disk u s).0.data'.users ≡ s.data'.users ++ u ∷ [])
made_ok (wrote stamp) u s p h = (cc, refl)
made_ok failed u s p h = cc

module _ (hash_password : String → String → String) where
  -- What a created account is, and where it stands.
  abbrev Created : Store → String → Outcome PublicUser → PublicUser → Type 0
  Created s given o p =
      (u : User) × (p ≡ public u)
      × (new_role s.data'.users given ≡ ok u.role)
      × (o.0.data'.users ≡ s.data'.users ++ u ∷ [])

  create_with-ok :
      (disk : Write) (draw : Draw) (name : String) (s : Store) (given : String)
      (role hash : Result Error String) (p : PublicUser)
      → new_role s.data'.users given ≡ role
      → (create_with hash_password disk draw name s role hash).1 ≡ ok p
      → Created s given (create_with hash_password disk draw name s role hash) p
  create_with-ok disk draw name s given (err e) hash p k h = cc
  create_with-ok disk draw name s given (ok role) (err e) p k h = cc
  create_with-ok disk draw name s given (ok role) (ok hash) p k h =
      let u = new_user draw hash name role in
      let (same, users) = made_ok disk u s p h in (u, same, k, users)

  create_free-ok :
      (disk : Write) (draw : Draw) (name password given : String) (s : Store) (o : Option User)
      (p : PublicUser)
      → (create_free hash_password disk draw name password given s o).1 ≡ ok p
      → Created s given (create_free hash_password disk draw name password given s o) p
  create_free-ok disk draw name password given s (some u) p h = cc
  create_free-ok disk draw name password given s none p h =
      create_with-ok disk draw name s given _ _ p refl h

  create-ok :
      (seen : File) (disk : Write) (draw : Draw) (name password role : String) (s : Store)
      (p : PublicUser)
      → (create hash_password seen disk draw name password role s).1 ≡ ok p
      → Created (reload seen s) role (create hash_password seen disk draw name password role s) p
  unfolding create
  create-ok seen disk draw given password role s p h =
      go (valid_username (trim_space given)) (valid_password password) _
        (create_free-ok disk draw (trim_space given) password role (reload seen s) _ p) h
    where
      go :
          (a b : Bool) (o : Outcome PublicUser)
          → (o.1 ≡ ok p → Created (reload seen s) role o p)
          → (if not a then fails s bad_username else if not b then fails s bad_password else o).1
            ≡ ok p
          → Created
              (reload seen s)
              role
              (if not a then fails s bad_username else if not b then fails s bad_password else o)
              p
      go true true o k h = k h
      go true false o k h = cc
      go false b o k h = cc

  register-ok :
      (seen : File) (disk : Write) (draw : Draw) (name password : String) (s : Store)
      (p : PublicUser)
      → (register hash_password seen disk draw name password s).1 ≡ ok p
      → (is_empty s.data'.users ≡ false)
        × (s.data'.allow_registration ≡ true)
        × (is_empty (reload seen s).data'.users ≡ false
            → (p.role ≡ "client")
              × (admin_count (register hash_password seen disk draw name password s).0.data'.users
                  ≡ admin_count (reload seen s).data'.users))
        × (is_empty (reload seen s).data'.users ≡ true → p.role ≡ "admin")
  unfolding register
  register-ok seen disk draw name password s p h =
      go (is_empty s.data'.users) s.data'.allow_registration _
        (create-ok seen disk draw name password "client" s p) h
    where
      go :
          (a b : Bool) (o : Outcome PublicUser)
          → (o.1 ≡ ok p → Created (reload seen s) "client" o p)
          → (if a then fails s no_accounts else if not b then fails s registration_closed else o).1
            ≡ ok p
          → (a ≡ false)
            × (b ≡ true)
            × (is_empty (reload seen s).data'.users ≡ false
                → (p.role ≡ "client")
                  × (admin_count
                        (if a
                          then fails s no_accounts
                          else if not b
                          then fails s registration_closed
                          else o).0.data'.users
                      ≡ admin_count (reload seen s).data'.users))
            × (is_empty (reload seen s).data'.users ≡ true → p.role ≡ "admin")
      go false true o k h =
          let (u, same, role, users) = k h in
          let roles = new_role_client (reload seen s).data'.users u role in
          (
            refl,
            refl,
            λ others.
                let client = roles.0 others in
                (
                  ap (λ x. x.role) same ∙ client,
                  ap admin_count users ∙ count_client (reload seen s).data'.users u client,
                ),
            λ nobody. ap (λ x. x.role) same ∙ roles.1 nobody,
          )
      go false false o k h = cc
      go true b o k h = cc

  -- A registration that succeeds was open, and unless the file that it reads has no accounts, the
  -- new account is a client and the admins are as many as before.
  register_client :
      (seen : File) (disk : Write) (draw : Draw) (name password : String) (s : Store)
      (p : PublicUser)
      → is_empty (reload seen s).data'.users ≡ false
      → (register hash_password seen disk draw name password s).1 ≡ ok p
      → (is_empty s.data'.users ≡ false)
        × (s.data'.allow_registration ≡ true)
        × (p.role ≡ "client")
        × (admin_count (register hash_password seen disk draw name password s).0.data'.users
            ≡ admin_count (reload seen s).data'.users)
  register_client seen disk draw name password s p others h =
      let (known, opened, client, first) = register-ok seen disk draw name password s p h in
      let (role, same) = client others in (known, opened, role, same)

  -- Register looks whether there are accounts before it reads the file again: where the file has
  -- none by then, a registration that succeeds makes an admin.
  pub register_first :
      (seen : File) (disk : Write) (draw : Draw) (name password : String) (s : Store)
      (p : PublicUser)
      → is_empty (reload seen s).data'.users ≡ true
      → (register hash_password seen disk draw name password s).1 ≡ ok p
      → p.role ≡ "admin"
  register_first seen disk draw name password s p nobody h =
      let (known, opened, client, first) = register-ok seen disk draw name password s p h in
      first nobody
