-- ===== src/Users/Registry/AccountSteps.antt =====
-- The operations that make accounts, set passwords and log in keep an admin and distinct names.
use trust_proxy.Base.{
  ◌≤◌, String, Bool, true, List, [], ◌∷◌, ◌++◌, Option, none, some, ◌≡◌, refl, sym, ap, arith, ◌⊎◌,
  inl, inr, is_empty, Result, ok, err, Bool-cases,
}
use trust_proxy.Base.Text.{trim_space}
use trust_proxy.Users.{
  User, File, save_quietly, Store, Error, Write, wrote, failed, count_if, one_if, put_name,
  find_name, is_admin, admin_count, reload, with_users, valid_username, valid_password,
}
use trust_proxy.Users.Accounts.{
  Draw, new_user, hashed, create, create_free, create_with, register, new_role, set_password,
  set_hash, new_password, mark_password_generated, set_proxy_password, set_allow_registration,
  authenticate, login_of,
}
use trust_proxy.Users.Registry.{names, count-put_name, count-append, names-put_name, NoTwins-append}
use trust_proxy.Users.Registry.Steps.{
  AreSound, IsSound, IsSoundFile, AreSound-same, reload-IsSound, Keeps, update-IsSound,
}

append_admin :
    (us : List User) (u : User) (given : String)
    → ((is_empty (names us) ≡ true) ⊎ (1 ≤ admin_count us))
    → ok u.role ≡ new_role us given
    → 1 ≤ admin_count (us ++ u ∷ [])
unfolding new_role count_if
append_admin [] u given g e = let first : u.role ≡ "admin" = cc in rw (first) (omega arith)
append_admin (v ∷ us) u given (inl none_yet) e = cc
append_admin (v ∷ us) u given (inr some_admin) e = omega (arith, count-append is_admin (v ∷ us) u)

module _ (hash_password : String → String → String) where
  -- The first account is an admin, and a name that matches another is refused.
  create_with-IsSound :
      (disk : Write) (draw : Draw) (name : String) (s : Store) (given : String)
      (role hash : Result Error String)
      → role ≡ new_role s.data'.users given
      → find_name name s.data'.users ≡ none
      → IsSound s
      → IsSound (create_with hash_password disk draw name s role hash).0
  create_with-IsSound disk draw name s given (err e) hash k free h = h
  create_with-IsSound disk draw name s given (ok role) (err e) k free h = h
  create_with-IsSound failed draw name s given (ok role) (ok hash) k free h = h
  create_with-IsSound (wrote stamp) draw name s given (ok role) (ok hash) k free h = (
    inr (append_admin s.data'.users (new_user draw hash name role) given h.0 k),
    NoTwins-append s.data'.users (new_user draw hash name role) (h.1) free,
  )

  pub create-IsSound :
      (seen : File) (disk : Write) (draw : Draw) (name password role : String) (s : Store)
      → IsSoundFile seen.content
      → IsSound s
      → IsSound (create hash_password seen disk draw name password role s).0
  unfolding create
  create-IsSound seen disk draw given password role s hf h =
      elim (Bool-cases (valid_username (trim_space given))) [
        | inr bad ↦ rw bad h
        | inl fine ↦ rw fine (elim (Bool-cases (valid_password password)) [
          | inr bad ↦ rw bad h
          | inl strong ↦
              rw strong (free (find_name (trim_space given) (reload seen s).data'.users) refl)
        ])
      ]
    where
      free :
          (o : Option User)
          → o ≡ find_name (trim_space given) (reload seen s).data'.users
          → IsSound
              (create_free hash_password disk draw
                (trim_space given)
                password
                role
                (reload seen s)
                o).0
      free (some u) e = reload-IsSound seen s hf h
      free none e =
          create_with-IsSound disk draw (trim_space given) (reload seen s) role _ _ refl (sym e)
            (reload-IsSound seen s hf h)

  pub register-IsSound :
      (seen : File) (disk : Write) (draw : Draw) (name password : String) (s : Store)
      → IsSoundFile seen.content
      → IsSound s
      → IsSound (register hash_password seen disk draw name password s).0
  unfolding register
  register-IsSound seen disk draw name password s hf h =
      ground (arith, h, create-IsSound seen disk draw name password "client" s hf h)

  pub set_password-IsSound :
      (seen : File) (disk : Write) (salt : Option String) (id password : String) (s : Store)
      → IsSoundFile seen.content
      → IsSound s
      → IsSound (set_password hash_password seen disk salt id password s).0
  unfolding set_password
  set_password-IsSound seen disk salt id password s hf h =
      elim (Bool-cases (valid_password password)) [
        | inr bad ↦ rw bad h
        | inl strong ↦ rw strong (hashes salt)
      ]
    where
      hashes :
          (salt : Option String)
          → IsSound (set_hash hash_password seen disk id s (hashed hash_password password salt)).0
      hashes none = h
      hashes (some x) =
          update-IsSound seen disk id (new_password hash_password (hash_password x password)) s
            (λ u. (refl, refl)) hf h

pub mark-IsSound :
    (seen : File) (disk : Write) (id : String) (s : Store)
    → IsSoundFile seen.content
    → IsSound s
    → IsSound (mark_password_generated seen disk id s).0
unfolding mark_password_generated
mark-IsSound seen disk id s hf h =
    update-IsSound seen disk id (λ u. record u { password_generated = true }) s (λ u. (refl, refl))
      hf h

pub set_proxy_password-IsSound :
    (seen : File) (disk : Write) (id password : String) (s : Store)
    → IsSoundFile seen.content
    → IsSound s
    → IsSound (set_proxy_password seen disk id password s).0
unfolding set_proxy_password
set_proxy_password-IsSound seen disk id password s hf h = ground (
  arith,
  h,
  update-IsSound seen disk id (λ u. record u { proxy_password = password }) s (λ u. (refl, refl)) hf
      h,
)

pub set_allow_registration-IsSound :
    (disk : Write) (allow : Bool) (s : Store)
    → IsSound s
    → IsSound (set_allow_registration disk allow s).0
unfolding set_allow_registration
set_allow_registration-IsSound (wrote stamp) allow s h = h
set_allow_registration-IsSound failed allow s h = h

pub save_quietly-AreSound :
    (disk : Write) (us : List User) (s : Store)
    → AreSound us
    → IsSound (save_quietly disk (with_users s us))
save_quietly-AreSound (wrote stamp) us s h = h
save_quietly-AreSound failed us s h = h

put_name-AreSound :
    (name : String) (u u' : User) (us : List User)
    → find_name name us ≡ some u
    → Keeps u u'
    → AreSound us
    → AreSound (put_name name u' us)
put_name-AreSound name u u' us h k =
    AreSound-same us (put_name name u' us) (names-put_name name u u' us h k.0) (
      let same : one_if (is_admin u') ≡ one_if (is_admin u) = ap one_if (k.1) in
      omega (arith, count-put_name is_admin name u u' us h, same))

module _ (verify_password : String → String → Bool) where
  pub authenticate-IsSound :
      (seen : File) (disk : Write) (now name password : String) (s : Store)
      → IsSoundFile seen.content
      → IsSound s
      → IsSound (authenticate verify_password seen disk now name password s).0
  unfolding authenticate
  authenticate-IsSound seen disk now name password s hf h =
      login (reload seen s) (find_name name (reload seen s).data'.users) refl
        (reload-IsSound seen s hf h)
    where
      login :
          (s : Store) (o : Option User)
          → o ≡ find_name name s.data'.users
          → IsSound s
          → IsSound (login_of verify_password disk now name password s o).0
      login s none e h = h
      login s (some u) e h =
          let done =
            save_quietly-AreSound disk
              (put_name name (record u { last_login_at = now }) s.data'.users) s
              (put_name-AreSound name u (record u { last_login_at = now }) _ (sym e) (refl, refl)
                h) in
          ground (arith, h, done)
