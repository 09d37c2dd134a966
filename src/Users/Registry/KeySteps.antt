-- ===== src/Users/Registry/KeySteps.antt =====
-- Each operation on API keys keeps an admin and distinct names.
use trust_proxy.Base.{
  ℕ, ◌+◌, String, List, [], ◌∷◌, ◌++◌, Option, none, some, ◌≡◌, refl, sym, ap, arith, Result, ok,
  err,
}
use trust_proxy.Users.{
  ApiKey, User, File, Outcome, Store, Error, Write, count_if, one_if, is_admin, admin_count, reload,
}
use trust_proxy.Users.Keys.{
  remove_key, delete_api_key, create_api_key, authenticate_api_key, scan, use_key, used, with_keys,
  created, checked_use, scanned,
}
use trust_proxy.Users.Registry.{names}
use trust_proxy.Users.Registry.Steps.{
  IsSound, IsSoundFile, AreSound-same, Keeps, reload-IsSound, mutate-IsSound, update-IsSound,
}
use trust_proxy.Users.Registry.AccountSteps.{save_quietly-AreSound}

pub delete_api_key-IsSound :
    (seen : File) (disk : Write) (id key : String) (s : Store)
    → IsSoundFile seen.content
    → IsSound s
    → IsSound (delete_api_key seen disk id key s).0
unfolding delete_api_key
delete_api_key-IsSound seen disk id key s hf h =
    mutate-IsSound seen disk id _ s (λ u u' e. kept u u' (remove_key key u.api_keys) e) hf h
  where
    kept : (u u' : User) (r : Result Error (List ApiKey)) → with_keys u r ≡ ok u' → Keeps u u'
    kept u u' (ok ks) e = (cc, cc)
    kept u u' (err x) e = cc

module _ (hash_key : String → String) (format : ℕ → String) (parse : String → Option ℕ) where
  created-state :
      (raw : String) (key : ApiKey) (o : Outcome (Unit {0}))
      → (created hash_key format parse raw key o).0 ≡ o.0
  created-state raw key (s, ok _) = refl
  created-state raw key (s, err e) = refl

  pub create_api_key-IsSound :
      (seen : File) (disk : Write) (id token : String) (now : ℕ) (user label : String) (ttl : ℕ)
      (s : Store)
      → IsSoundFile seen.content
      → IsSound s
      → IsSound (create_api_key hash_key format parse seen disk id token now user label ttl s).0
  unfolding create_api_key
  create_api_key-IsSound seen disk id token now user label ttl s hf h = rw (created-state) (
      update-IsSound seen disk user (λ u. record u { api_keys = u.api_keys ++ _ ∷ [] }) s
        (λ u. (refl, refl)) hf h)

  checked_use-Keeps :
      (now : ℕ) (u : User) (o : Option (ApiKey × List ApiKey)) (u' : User)
      → checked_use hash_key format parse now u o ≡ some (ok u')
      → Keeps u u'
  checked_use-Keeps now u none u' e = cc
  checked_use-Keeps now u (some (k, ks)) u' e = ground arith

  abbrev Same : List User → List User → Type 0
  Same us us' = (names us' ≡ names us) × (admin_count us' ≡ admin_count us)

  scanned-Same :
      (v : User) (c : Option (Result Error User)) (r : Option (Result Error (User × List User)))
      (us : List User) (u : User) (us' : List User)
      → scanned hash_key format parse v c r us ≡ some (ok (u, us'))
      → ((v' : User) → c ≡ some (ok v') → Keeps v v')
      → ((w : User) (ws : List User) → r ≡ some (ok (w, ws)) → Same us ws)
      → Same (v ∷ us) us'
  unfolding count_if
  scanned-Same v none none us u us' h hc hr = cc
  scanned-Same v none (some (err e)) us u us' h hc hr = cc
  scanned-Same v none (some (ok (w, ws))) us u us' h hc hr =
      let (same_names, same_count) = hr w ws refl in
      let e : us' ≡ v ∷ ws = cc in
      rw e (ap (λ ns. v.username ∷ ns) same_names, ap (λ n. one_if (is_admin v) + n) same_count)
  scanned-Same v (some (err e)) r us u us' h hc hr = cc
  scanned-Same v (some (ok v')) r us u us' h hc hr =
      let (same_name, same_role) = hc v' refl in
      let e : us' ≡ v' ∷ us = cc in
      rw e (ap (λ n. n ∷ names us) same_name, ap (λ b. one_if b + count_if is_admin us) same_role)

  -- Only the keys of an account are written.
  scan-Same :
      (now : ℕ) (want : String) (us : List User) (u : User) (us' : List User)
      → scan hash_key format parse now want us ≡ some (ok (u, us'))
      → Same us us'
  unfolding scan
  scan-Same now want [] u us' h = cc
  scan-Same now want (v ∷ us) u us' h =
      scanned-Same v _ _ us u us' h
        (λ v' e. checked_use-Keeps now v (use_key hash_key format parse now want v.api_keys) v' e)
        (λ w ws e. scan-Same now want us w ws e)

  pub authenticate_api_key-IsSound :
      (seen : File) (disk : Write) (now : ℕ) (raw : String) (s : Store)
      → IsSoundFile seen.content
      → IsSound s
      → IsSound (authenticate_api_key hash_key format parse seen disk now raw s).0
  unfolding authenticate_api_key
  authenticate_api_key-IsSound seen disk now raw s hf h =
      let key =
        scanned_state (reload seen s)
          (scan hash_key format parse now (hash_key raw) (reload seen s).data'.users) refl
          (reload-IsSound seen s hf h) in
      ground (arith, h, key)
    where
      scanned_state :
          (s : Store) (o : Option (Result Error (User × List User)))
          → o ≡ scan hash_key format parse now (hash_key raw) s.data'.users
          → IsSound s
          → IsSound (used hash_key format parse disk s o).0
      scanned_state s none e h = h
      scanned_state s (some (err x)) e h = h
      scanned_state s (some (ok (u, us))) e h =
          let (same_names, same_count) = scan-Same now (hash_key raw) s.data'.users u us (sym e) in
          save_quietly-AreSound disk us s (AreSound-same s.data'.users us same_names same_count h)
