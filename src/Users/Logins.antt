-- ===== src/Users/Logins.antt =====
-- internal/users/store.go: who gets in.
use trust_proxy.Base.{
  ℕ, suc, String, Bool, true, false, List, [], ◌∷◌, Option, none, some, ◌≡◌, ◌≢◌, refl, sym, ap,
  subst, ◌∙◌, arith, ◌==◌, ◌&&◌, ◌||◌, not, any, if◌then◌else◌, Result, ok, err, eq_iff, eq_refl,
}
use trust_proxy.Base.Text.{strip_prefix}
use trust_proxy.Users.{
  ApiKey, User, File, Store, Outcome, fails, Error, Write, reload, by_id, put_id, find_name,
  valid_password, mutate,
}
use trust_proxy.Users.Accounts.{
  PublicUser, public, set_password, new_password, authenticate, login_of,
}
use trust_proxy.Users.Registry.{save-users}
use trust_proxy.Users.Keys.{
  authenticate_api_key, key_prefix, scan, scanned, checked_use, use_key, used, expired,
}

by_id-put_id :
    (id : String) (u u' : User) (us : List User)
    → by_id id us ≡ some u
    → u'.id ≡ u.id
    → by_id id (put_id id u' us) ≡ some u'
unfolding by_id put_id
by_id-put_id id u u' [] h e = cc
by_id-put_id id u u' (v ∷ us) h e = ground (arith, by_id-put_id id u u' us)

by_id-put_id_other :
    (id other : String) (u u' : User) (us : List User)
    → by_id id us ≡ some u
    → u'.id ≡ u.id
    → other ≢ id
    → by_id other (put_id id u' us) ≡ by_id other us
unfolding by_id put_id
by_id-put_id_other id other u u' [] h e ne = cc
by_id-put_id_other id other u u' (v ∷ us) h e ne =
    ground (arith, by_id-put_id_other id other u u' us, eq_iff v.id id, eq_iff v.id other)

module _ (hash_password : String → String → String) where
  pub set_password_found :
      (seen : File) (disk : Write) (salt id password : String) (s : Store) (u : User)
      → valid_password password ≡ true
      → by_id id (reload seen s).data'.users ≡ some u
      → by_id id (set_password hash_password seen disk (some salt) id password s).0.data'.users
        ≡ some (record u {
          password_hash = hash_password salt password;
          session_epoch = suc u.session_epoch;
          password_generated = false;
        })
  unfolding set_password mutate
  set_password_found seen disk salt id password s u strong found =
      let u' = new_password hash_password (hash_password salt password) u in
      rw (strong, found, save-users disk (put_id id u' (reload seen s).data'.users) (reload seen s))
        (by_id-put_id id u u' (reload seen s).data'.users found refl)

  -- A password of 10 to 256 bytes for an account that is there: the account then has the new hash,
  -- its sessions end, its password counts as known, and an account of another id is as it was. The
  -- change is in memory even if the save fails.
  set_password_ends_sessions :
      (seen : File) (disk : Write) (salt id password other : String) (s : Store) (u : User)
      → valid_password password ≡ true
      → by_id id (reload seen s).data'.users ≡ some u
      → other ≢ id
      → let s' = (set_password hash_password seen disk (some salt) id password s).0 in
        (by_id id s'.data'.users
          ≡ some (record u {
            password_hash = hash_password salt password;
            session_epoch = suc u.session_epoch;
            password_generated = false;
          }))
        × (by_id other s'.data'.users ≡ by_id other (reload seen s).data'.users)
  unfolding set_password mutate
  set_password_ends_sessions seen disk salt id password other s u strong found ne =
      let u' = new_password hash_password (hash_password salt password) u in
      let users = (reload seen s).data'.users in
      (
        set_password_found seen disk salt id password s u strong found,
        rw (strong, found, save-users disk (put_id id u' users) (reload seen s))
            (by_id-put_id_other id other u u' users found refl ne),
      )

module _ (verify_password : String → String → Bool) where
  login_of-ok :
      (disk : Write) (now name password : String) (s : Store) (o : Option User) (p : PublicUser)
      → (login_of verify_password disk now name password s o).1 ≡ ok p
      → (u : User) × (o ≡ some u)
        × (verify_password u.password_hash password ≡ true)
        × (u.disabled ≡ false)
        × (p ≡ public (record u { last_login_at = now }))
  login_of-ok disk now name password s none p h = cc
  login_of-ok disk now name password s (some u) p h =
      (u, refl, ground arith, ground arith, ground arith)

  -- A login succeeds only for the first account whose name matches, with a password that its hash
  -- verifies, and only if it is enabled; the answer is that account with the time of the login.
  authenticate-ok :
      (seen : File) (disk : Write) (now name password : String) (s : Store) (p : PublicUser)
      → (authenticate verify_password seen disk now name password s).1 ≡ ok p
      → (u : User) × (find_name name (reload seen s).data'.users ≡ some u)
        × (verify_password u.password_hash password ≡ true)
        × (u.disabled ≡ false)
        × (p ≡ public (record u { last_login_at = now }))
  unfolding authenticate
  authenticate-ok seen disk now name password s p h =
      login_of-ok disk now name password (reload seen s) _ p h

-- What a guard let through.
guarded :
    (b : Bool) (s : Store) (e : Error) (o : Outcome PublicUser) (p : PublicUser)
    → (if not b then fails s e else o).1 ≡ ok p
    → (b ≡ true) × (o.1 ≡ ok p)
guarded true s e o p h = (refl, h)
guarded false s e o p h = cc

or_true : (b : Bool) → (b || true) ≡ true
or_true true = refl
or_true false = refl

module _ (hash_key : String → String) (format : ℕ → String) (parse : String → Option ℕ) where
  -- The key opens an account: it has the hash and has not expired.
  abbrev pub opens : ℕ → String → ApiKey → Bool
  opens now want k = k.hash == want && not (expired hash_key format parse now k.expires_at)

  -- An enabled account of that id has such a key.
  abbrev pub holds : ℕ → String → String → User → Bool
  holds now want id u = u.id == id && not u.disabled && any (opens now want) u.api_keys

  use_key-opens :
      (now : ℕ) (want : String) (ks : List ApiKey) (k : ApiKey) (ks' : List ApiKey)
      → use_key hash_key format parse now want ks ≡ some (k, ks')
      → expired hash_key format parse now k.expires_at ≡ false
      → any (opens now want) ks ≡ true
  unfolding use_key
  use_key-opens now want [] k ks' h fresh = cc
  use_key-opens now want (j ∷ ks) k ks' h fresh =
      step (use_key hash_key format parse now want ks) refl (use_key-opens now want ks)
    where
      step :
          (o : Option (ApiKey × List ApiKey))
          → o ≡ use_key hash_key format parse now want ks
          → ((k' : ApiKey) (ks'' : List ApiKey)
              → use_key hash_key format parse now want ks ≡ some (k', ks'')
              → expired hash_key format parse now k'.expires_at ≡ false
              → any (opens now want) ks ≡ true)
          → any (opens now want) (j ∷ ks) ≡ true
      step none e ih =
          ground (arith, ap {A = ApiKey} (λ x. expired hash_key format parse now x.expires_at))
      step (some (k', ks'')) e ih = ground (arith, ih k' ks'')

  checked_use-ok :
      (now : ℕ) (u u' : User) (k : ApiKey) (ks : List ApiKey)
      → checked_use hash_key format parse now u (some (k, ks)) ≡ some (ok u')
      → (u.disabled ≡ false)
        × (expired hash_key format parse now k.expires_at ≡ false)
        × (u' ≡ record u { api_keys = ks })
  checked_use-ok now u u' k ks h = (ground arith, ground arith, ground arith)

  checked_use-holds :
      (now : ℕ) (want : String) (u u' : User) (o : Option (ApiKey × List ApiKey))
      → use_key hash_key format parse now want u.api_keys ≡ o
      → checked_use hash_key format parse now u o ≡ some (ok u')
      → holds now want u'.id u ≡ true
  checked_use-holds now want u u' none e h = cc
  checked_use-holds now want u u' (some (k, ks)) e h =
      let (enabled, fresh, same) = checked_use-ok now u u' k ks h in
      rw (same, enabled, use_key-opens now want u.api_keys k ks e fresh)
        ((ground (arith, eq_refl u.id)))

  scanned-holds :
      (now : ℕ) (want : String) (v : User) (c : Option (Result Error User))
      (r : Option (Result Error (User × List User))) (us : List User) (u : User) (us' : List User)
      → scanned hash_key format parse v c r us ≡ some (ok (u, us'))
      → ((v' : User) → c ≡ some (ok v') → holds now want v'.id v ≡ true)
      → ((w : User) (ws : List User) → r ≡ some (ok (w, ws)) → any (holds now want w.id) us ≡ true)
      → any (holds now want u.id) (v ∷ us) ≡ true
  scanned-holds now want v none none us u us' h hc hr = cc
  scanned-holds now want v none (some (err e)) us u us' h hc hr = cc
  scanned-holds now want v none (some (ok (w, ws))) us u us' h hc hr =
      let e : u ≡ w = cc in
      let held : any (holds now want w.id) (v ∷ us) ≡ true =
        ap (λ b. holds now want w.id v || b) (hr w ws refl) ∙ or_true (holds now want w.id v) in
      subst (λ z. any (holds now want z.id) (v ∷ us) ≡ true) (sym e) held
  scanned-holds now want v (some (err e)) r us u us' h hc hr = cc
  scanned-holds now want v (some (ok v')) r us u us' h hc hr =
      let e : u ≡ v' = cc in
      let held : any (holds now want v'.id) (v ∷ us) ≡ true =
        ap (λ b. b || any (holds now want v'.id) us) (hc v' refl) in
      subst (λ z. any (holds now want z.id) (v ∷ us) ≡ true) (sym e) held

  scan-holds :
      (now : ℕ) (want : String) (us : List User) (u : User) (us' : List User)
      → scan hash_key format parse now want us ≡ some (ok (u, us'))
      → any (holds now want u.id) us ≡ true
  unfolding scan
  scan-holds now want [] u us' h = cc
  scan-holds now want (v ∷ us) u us' h =
      scanned-holds now want v _ _ us u us' h (λ v' e. checked_use-holds now want v v' _ refl e)
        (λ w ws e. scan-holds now want us w ws e)

  used-ok :
      (disk : Write) (s : Store) (o : Option (Result Error (User × List User))) (p : PublicUser)
      → (used hash_key format parse disk s o).1 ≡ ok p
      → (u : User) × (us : List User) × (o ≡ some (ok (u, us))) × (p ≡ public u)
  used-ok disk s none p h = cc
  used-ok disk s (some (err e)) p h = cc
  used-ok disk s (some (ok (u, us))) p h = (u, us, refl, cc)

  -- A login by API key succeeds only for a text with the prefix of keys, and only for an account
  -- that is enabled and has a key with the hash of that text which has not expired.
  pub authenticate_api_key-ok :
      (seen : File) (disk : Write) (now : ℕ) (raw : String) (s : Store) (p : PublicUser)
      → (authenticate_api_key hash_key format parse seen disk now raw s).1 ≡ ok p
      → ((strip_prefix key_prefix raw).0 ≡ true)
        × (any (holds now (hash_key raw) p.id) (reload seen s).data'.users ≡ true)
  unfolding authenticate_api_key
  authenticate_api_key-ok seen disk now raw s p h =
      let (ours, h') = guarded (strip_prefix key_prefix raw).0 _ _ _ p h in
      let (u, us, found, same) = used-ok disk (reload seen s) _ p h' in
      (ours, rw same (scan-holds now (hash_key raw) (reload seen s).data'.users u us found))

  checked_use-enabled :
      (now : ℕ) (u u' : User) (o : Option (ApiKey × List ApiKey))
      → checked_use hash_key format parse now u o ≡ some (ok u')
      → u'.disabled ≡ false
  checked_use-enabled now u u' none h = cc
  checked_use-enabled now u u' (some (k, ks)) h =
      let (enabled, fresh, same) = checked_use-ok now u u' k ks h in rw same enabled

  scanned-enabled :
      (v : User) (c : Option (Result Error User)) (r : Option (Result Error (User × List User)))
      (us : List User) (u : User) (us' : List User)
      → scanned hash_key format parse v c r us ≡ some (ok (u, us'))
      → ((v' : User) → c ≡ some (ok v') → v'.disabled ≡ false)
      → ((w : User) (ws : List User) → r ≡ some (ok (w, ws)) → w.disabled ≡ false)
      → u.disabled ≡ false
  scanned-enabled v none none us u us' h hc hr = cc
  scanned-enabled v none (some (err e)) us u us' h hc hr = cc
  scanned-enabled v none (some (ok (w, ws))) us u us' h hc hr =
      let same : u ≡ w = cc in rw same (hr w ws refl)
  scanned-enabled v (some (err e)) r us u us' h hc hr = cc
  scanned-enabled v (some (ok v')) r us u us' h hc hr =
      let same : u ≡ v' = cc in rw same (hc v' refl)

  scan-enabled :
      (now : ℕ) (want : String) (us : List User) (u : User) (us' : List User)
      → scan hash_key format parse now want us ≡ some (ok (u, us'))
      → u.disabled ≡ false
  unfolding scan
  scan-enabled now want [] u us' h = cc
  scan-enabled now want (v ∷ us) u us' h =
      scanned-enabled v _ _ us u us' h (λ v' e. checked_use-enabled now v v' _ e)
        (λ w ws e. scan-enabled now want us w ws e)

  pub authenticate_api_key_enabled :
      (seen : File) (disk : Write) (now : ℕ) (raw : String) (s : Store) (p : PublicUser)
      → (authenticate_api_key hash_key format parse seen disk now raw s).1 ≡ ok p
      → p.disabled ≡ false
  unfolding authenticate_api_key
  authenticate_api_key_enabled seen disk now raw s p h =
      let (ours, h') = guarded (strip_prefix key_prefix raw).0 _ _ _ p h in
      let (u, us, found, same) = used-ok disk (reload seen s) _ p h' in
      rw same (scan-enabled now (hash_key raw) (reload seen s).data'.users u us found)
