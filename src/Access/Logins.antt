-- ===== src/Access/Logins.antt =====
-- internal/api/auth.go: who can claim an unclaimed gateway.
use trust_proxy.Base.{
  ℕ, String, Bool, true, false, Option, none, some, ◌≡◌, ◌⊎◌, inl, inr, refl, ◌∙◌, arith, ◌==◌,
  ◌&&◌, not, if◌then◌else◌, is_empty, ok, err,
}
use trust_proxy.Users.{Outcome, reload}
use trust_proxy.Users.Accounts.{PublicUser, create}
use trust_proxy.Sessions.{Claims, Authn, check_bootstrap_code, clear_bootstrap_code}
use trust_proxy.Access.Handlers.{
  Api, Login, Env, Reply, conflict, need_code, code_as_name, without_code, logged_in, is_code,
  created, handle_bootstrap,
}

emptied :
    (b : Bool) (o : Api × Reply) (api : Api) (u : PublicUser) (t : Option (String × ℕ))
    → (if b then o else (api, conflict)).1 ≡ logged_in u t
    → (b ≡ true) × (o.1 ≡ logged_in u t)
emptied true o api u t h = (refl, h)
emptied false o api u t h = ground arith

coded :
    (loopback code : Bool) (o : Api × Reply) (api : Api) (u : PublicUser) (t : Option (String × ℕ))
    → (if not loopback && not code then (api, need_code) else o).1 ≡ logged_in u t
    → ((loopback ≡ true) ⊎ (code ≡ true))
      × ((if not loopback && not code then (api, need_code) else o) ≡ o)
coded true code o api u t h = (inl refl, refl)
coded false true o api u t h = (inr refl, refl)
coded false false o api u t h = ground arith

not_the_code :
    (b : Bool) (o : Api × Reply) (api : Api) (u : PublicUser) (t : Option (String × ℕ))
    → (if b then (api, code_as_name) else o).1 ≡ logged_in u t
    → (if b then (api, code_as_name) else o) ≡ o
not_the_code true o api u t h = ground arith
not_the_code false o api u t h = refl

spent : (authn : Option Authn) (code : String) → is_code (without_code authn) code ≡ false
unfolding check_bootstrap_code clear_bootstrap_code
spent none code = refl
spent (some a) code = refl

module _ (numeric_date : ℕ → ℕ) (sign : Claims → Option String) (parse : ℕ → String → Option Claims)
    (hash_password : String → String → String) where
  created-authn :
      (env : Env) (authn : Option Authn) (generated : Bool) (o : Outcome PublicUser)
      (u : PublicUser) (t : Option (String × ℕ))
      → (created numeric_date sign parse hash_password env authn generated o).1 ≡ logged_in u t
      → (created numeric_date sign parse hash_password env authn generated o).0.authn
        ≡ without_code authn
  created-authn env authn generated (s, err e) u t h = ground arith
  created-authn env authn generated (s, ok v) u t h = refl

  -- Bootstrap logs somebody in only if the registry, as it is read then, has no accounts, and if the
  -- request comes from the machine itself or carries the one-time code of the gateway; after that no
  -- code is good for another bootstrap.
  pub bootstrap_guarded :
      (env : Env) (loopback : Bool) (q : Login) (api : Api) (u : PublicUser)
      (t : Option (String × ℕ)) (code : String)
      → (handle_bootstrap numeric_date sign parse hash_password env loopback (some q) api).1
        ≡ logged_in u t
      → (is_empty (reload env.at_first api.users).data'.users ≡ true)
        × ((loopback ≡ true) ⊎ (is_code api.authn q.code ≡ true))
        × (is_code
              (handle_bootstrap numeric_date sign parse hash_password env loopback
                (some q)
                api).0.authn
              code
            ≡ false)
  unfolding handle_bootstrap
  bootstrap_guarded env loopback q api u t code h =
      let now : Api = record api { users = reload env.at_first api.users } in
      let made =
        create hash_password env.at_change env.disk env.draw q.username q.password "admin"
          now.users in
      let (unclaimed, rest) = emptied _ _ now u t h in
      let (allowed, past_code) = coded loopback (is_code api.authn q.code) _ now u t rest in
      let past_name =
        not_the_code (not (q.username == "") && is_code api.authn q.username)
          (created numeric_date sign parse hash_password env api.authn q.generated made) now u t
          (rw past_code at rest) in
      let done = past_code ∙ past_name in
      (
        unclaimed,
        allowed,
        rw (unclaimed, done, created-authn env api.authn q.generated made u t (rw done at rest))
            (spent api.authn code),
      )
