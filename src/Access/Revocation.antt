-- ===== src/Access/Revocation.antt =====
-- internal/api/auth.go over internal/users/store.go: the registry as the middleware sees it, and how
-- long a session lasts.
use trust_proxy.Base.{
  ℕ, suc, ◌≤◌, ◌<◌, String, true, false, Option, none, some, ◌≡◌, ◌≢◌, inl, inr, refl, sym, ap,
  subst, arith, ◌==◌, Result, ok, err, is_empty,
}
use trust_proxy.Users.{User, File, Store, Error, Write, reload, by_id, valid_password, same_stamp}
use trust_proxy.Users.Accounts.{PublicUser, public, set_password}
use trust_proxy.Users.Keys.{authenticate_api_key}
use trust_proxy.Users.Logins.{set_password_found, authenticate_api_key_enabled}
use trust_proxy.Sessions.{Claims, Authn, session_token, issue, verify, issue_claims}
use trust_proxy.Sessions.Laws.{ReadsBack, verify-issue, session_token-cookie}
use trust_proxy.Access.{Request, Web}
use trust_proxy.Access.Guard.{
  Accounts, Server, revoked, authenticate, api_key_from, is_static, re_read,
}
use trust_proxy.Access.Callers.{authenticate_ways}

abbrev pub public_of : Option User → Option PublicUser
public_of none = none
public_of (some u) = some (public u)

abbrev pub answer_or_none : Result Error PublicUser → Option PublicUser
answer_or_none (ok u) = some u
answer_or_none (err e) = none

some_injective : {a b : Accounts} → some a ≡ some b → a ≡ b
some_injective e = cc

reload_same : (seen : File) (s : Store) → same_stamp seen.stamp s.stamp ≡ true → reload seen s ≡ s
unfolding reload
reload_same seen s e = rw e

module _ (hash_key : String → String) (format : ℕ → String) (parse : String → Option ℕ) where
  -- The registry at a time, where `seen` stands at its path.
  unfoldable pub accounts_of : File → Write → ℕ → Store → Accounts
  accounts_of seen disk now s = record {
    by_key =
        λ key. answer_or_none (authenticate_api_key hash_key format parse seen disk now key s).1;
    account = λ id. public_of (by_id id (reload seen s).data'.users);
    is_empty = is_empty (reload seen s).data'.users;
  }

  module _ (web : Web) (verify : String → Option Claims) where
    abbrev pub server_of : File → Write → ℕ → Store → String → Server
    server_of seen disk now s token = record {
      accounts = some (accounts_of seen disk now s);
      verifier = some verify;
      token = token;
    }

    is_revoked :
        (static : String) (r : Request) (a : Accounts) (c : Claims) (o : Option PublicUser)
        → api_key_from r ≡ ""
        → (session_token r.cookie r.authorization == "") ≡ false
        → verify (session_token r.cookie r.authorization) ≡ some c
        → a.account c.subject ≡ o
        → re_read c o ≡ err revoked
        → let server : Server = record {
          accounts = some a;
          verifier = some verify;
          token = static;
        } in
          is_static server r ≡ false
          → let server : Server = record {
            accounts = some a;
            verifier = some verify;
            token = static;
          } in
            authenticate web server r ≡ err revoked
    unfolding authenticate
    is_revoked static r a c o no_key has_session valid found old no_static =
        rw (no_key, no_static, has_session, valid, found, old)

    old_epoch :
        (c : Claims) (u : PublicUser)
        → c.epoch ≤ u.session_epoch
        → (v : PublicUser) → v.session_epoch ≡ suc u.session_epoch
        → re_read c (some v) ≡ err revoked
    old_epoch c u earlier v later = ground arith

    -- Setting a password ends every earlier session: as long as no other process has written the
    -- registry since, a request with a session token of an epoch up to the one that the account had
    -- before, and with no API key and not the static token, is refused as revoked.
    pub set_password_revokes :
        (hash_password : String → String → String) (seen after : File) (disk used : Write) (now : ℕ)
        (salt password static : String) (s : Store) (u : User) (c : Claims) (r : Request)
        → valid_password password ≡ true
        → by_id c.subject (reload seen s).data'.users ≡ some u
        → c.epoch ≤ u.session_epoch
        → let s' = (set_password hash_password seen disk (some salt) c.subject password s).0 in
          same_stamp after.stamp s'.stamp ≡ true
          → api_key_from r ≡ ""
          → (session_token r.cookie r.authorization == "") ≡ false
          → verify (session_token r.cookie r.authorization) ≡ some c
          → let s' = (set_password hash_password seen disk (some salt) c.subject password s).0 in
            is_static (server_of after used now s' static) r ≡ false
            → let s' = (set_password hash_password seen disk (some salt) c.subject password s).0 in
              authenticate web (server_of after used now s' static) r ≡ err revoked
    unfolding accounts_of
    set_password_revokes hash_password seen after disk used now salt password static s u c r strong
          found earlier unwritten no_key has_session valid no_static =
        let s' = (set_password hash_password seen disk (some salt) c.subject password s).0 in
        let changed : User = record u {
          password_hash = hash_password salt password;
          session_epoch = suc u.session_epoch;
          password_generated = false;
        } in
        let stored : by_id c.subject s'.data'.users ≡ some changed =
          set_password_found hash_password seen disk salt c.subject password s u strong found in
        is_revoked static r _ c (some (public changed)) no_key has_session valid
          (rw (reload_same after s' unwritten) (ap public_of stored))
          (old_epoch c (public u) earlier (public changed) refl) no_static

    key_enabled :
        (o : Result Error PublicUser) (u : PublicUser)
        → ((p : PublicUser) → o ≡ ok p → p.disabled ≡ false)
        → answer_or_none o ≡ some u
        → u.disabled ≡ false
    key_enabled (ok p) u enabled e = let same : u ≡ p = cc in rw same (enabled p refl)
    key_enabled (err x) u enabled e = cc

    by_held_key :
        (seen : File) (disk : Write) (now : ℕ) (s : Store) (r : Request) (u : PublicUser)
        (a : Accounts)
        → accounts_of seen disk now s ≡ a
        → a.by_key (api_key_from r) ≡ some u
        → u.disabled ≡ false
    unfolding accounts_of
    by_held_key seen disk now s r u a same k =
        key_enabled (authenticate_api_key hash_key format parse seen disk now (api_key_from r) s).1
          u (authenticate_api_key_enabled hash_key format parse seen disk now (api_key_from r) s)
          (subst (λ b. b.by_key (api_key_from r) ≡ some u) (sym same) k)

    -- Over the registry of the user store, a request is never authenticated as an account that is
    -- disabled at that time, by whatever credentials it has.
    pub authenticate_enabled :
        (seen : File) (disk : Write) (now : ℕ) (s : Store) (token : String) (r : Request)
        (u : PublicUser)
        → authenticate web (server_of seen disk now s token) r ≡ ok (some u)
        → u.disabled ≡ false
    unfolding accounts_of
    authenticate_enabled seen disk now s token r u h =
        elim (authenticate_ways web (server_of seen disk now s token) r u h) [
          | inl (a, same, k) ↦ by_held_key seen disk now s r u a (some_injective same) k
          | inr (inl (_, e)) ↦ rw e
          | inr (inr (inl (_, _, _, _, _, _, _, enabled, _))) ↦ enabled
          | inr (inr (inr (_, _, e))) ↦ rw e
        ]

is_live_session :
    (web : Web) (s : Server) (r : Request) (a : Accounts) (verify : String → Option Claims)
    (c : Claims) (u : PublicUser)
    → s.accounts ≡ some a
    → s.verifier ≡ some verify
    → api_key_from r ≡ ""
    → is_static s r ≡ false
    → (session_token r.cookie r.authorization == "") ≡ false
    → verify (session_token r.cookie r.authorization) ≡ some c
    → a.account c.subject ≡ some u
    → re_read c (some u) ≡ ok (some u)
    → authenticate web s r ≡ ok (some u)
unfolding authenticate
is_live_session web s r a verify c u ea ev no_key no_static named valid known current =
    rw (ea, ev, no_key, no_static, named, valid, known, current)

module _ (numeric_date : ℕ → ℕ) (sign : Claims → Option String)
    (parse : ℕ → String → Option Claims) where
  still_current :
      (c : Claims) (u : PublicUser)
      → u.disabled ≡ false
      → c.epoch ≡ u.session_epoch
      → re_read c (some u) ≡ ok (some u)
  still_current c u enabled epoch = ground arith

  -- A session lasts: a request with no other credential whose cookie is a token that was issued to
  -- an account is authenticated as that account until the token expires, at the time that
  -- golang-jwt makes of the expiry that Issue gave (jwt.NewNumericDate), as long as the account is enabled and its epoch is the one that it then
  -- had. What is asked of golang-jwt is that it reads
  -- back the claims that it signed until they expire.
  pub session_lasts :
      (web : Web) (authn : Authn) (a : Accounts) (static token : String) (r : Request)
      (u : PublicUser) (issued_at t exp : ℕ) (name role : String)
      → ReadsBack numeric_date sign parse
      → u.id ≢ ""
      → token ≢ ""
      → issue numeric_date sign authn issued_at u.id name role u.session_epoch ≡ some (token, exp)
      → t < numeric_date exp
      → a.account u.id ≡ some u
      → u.disabled ≡ false
      → r.cookie ≡ token
      → api_key_from r ≡ ""
      → let server : Server = record {
        accounts = some a;
        verifier = some (verify sign parse t);
        token = static;
      } in
        is_static server r ≡ false
        → let server : Server = record {
          accounts = some a;
          verifier = some (verify sign parse t);
          token = static;
        } in
          authenticate web server r ≡ ok (some u)
  session_lasts web authn a static token r u issued_at t exp name role reads named real h live known
        enabled sent no_key no_static =
      let c = issue_claims numeric_date authn issued_at u.id name role u.session_epoch in
      let (is_cookie, filled) = session_token-cookie r.cookie r.authorization (rw sent real) in
      is_live_session web _ r a (verify sign parse t) c u refl refl no_key no_static filled
        (rw (is_cookie, sent)
          (verify-issue numeric_date sign parse authn issued_at t u.id name role u.session_epoch
            token exp reads named h live))
        known (still_current c u enabled refl)
