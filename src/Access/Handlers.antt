-- ===== src/Access/Handlers.antt =====
-- internal/api/auth.go: the handlers that log in: handleBootstrap, handleLogin, handleRegister and
-- handleRedeemTicket, with issueSession. The server has a registry and, if `authn` is there, sessions.
-- A body that does not decode is `none`. Each call of the registry sees a file of its own.
use trust_proxy.Base.{
  ℕ, String, Bool, true, false, [], Option, none, some, ◌==◌, ◌&&◌, not, if◌then◌else◌, is_empty,
  ok, err,
}
use trust_proxy.Users.{User, File, Write, Store, Error, Outcome, reload, by_id}
use trust_proxy.Users.Accounts.{
  Draw, PublicUser, public, create, register, mark_password_generated, authenticate,
}
use trust_proxy.Sessions.{
  Claims, Authn, issue, check_bootstrap_code, clear_bootstrap_code, redeem_ticket,
}

pub record Api : Type 0 where
  pub users : Store
  pub authn : Option Authn

-- LoginRequest, and what handleBootstrap reads besides.
pub record Login : Type 0 where
  pub username : String
  pub password : String
  pub code : String
  pub generated : Bool

-- What the environment does: the files that the calls of the registry see, in their order, the
-- writes, what is drawn, and the time.
pub record Env : Type 0 where
  pub at_first : File
  pub at_change : File
  pub at_mark : File
  pub at_read : File
  pub disk : Write
  pub mark_disk : Write
  pub draw : Draw
  pub now : ℕ
  pub login_time : String

pub data Reply : Type 0 where
  not_available conflict bad_body need_code code_as_name bad_credentials no_token : Reply
  bad_ticket gone : Reply
  refused : Error → Reply
  -- The account, and the token and its expiry if the server has sessions.
  logged_in : PublicUser → Option (String × ℕ) → Reply

-- CheckBootstrapCode of a server that has sessions.
abbrev pub is_code : Option Authn → String → Bool
is_code none got = false
is_code (some a) got = check_bootstrap_code a got

abbrev has_sessions : Option Authn → Bool
has_sessions none = false
has_sessions (some a) = true

abbrev pub without_code : Option Authn → Option Authn
without_code none = none
without_code (some a) = some (clear_bootstrap_code a)

abbrev no_user : PublicUser
no_user = record {
  id = "";
  username = "";
  role = "";
  disabled = false;
  has_proxy_cred = false;
  api_keys = [];
  created_at = "";
  last_login_at = "";
  session_epoch = 0;
  password_generated = false;
}

module _ (numeric_date : ℕ → ℕ) (sign : Claims → Option String) (parse : ℕ → String → Option Claims)
    (hash_password : String → String → String) where
  abbrev pub with_token : PublicUser → Option (String × ℕ) → Reply
  with_token u none = no_token
  with_token u (some t) = logged_in u (some t)

  abbrev pub issue_session : ℕ → Option Authn → PublicUser → Reply
  issue_session now none u = logged_in u none
  issue_session now (some a) u =
      with_token u (issue numeric_date sign a now u.id u.username u.role u.session_epoch)

  -- The account after it was marked; the zero value if it is gone by then.
  abbrev read_back : Option User → PublicUser
  read_back none = no_user
  read_back (some v) = public v

  abbrev pub finished : Env → Option Authn → Bool → Store → PublicUser → Api × Reply
  finished env authn generated s u =
      let marked = (mark_password_generated env.at_mark env.mark_disk u.id s).0 in
      let s' = if generated then reload env.at_read marked else s in
      let u' = if generated then read_back (by_id u.id s'.data'.users) else u in
      (
        record { users = s'; authn = without_code authn },
        issue_session env.now (without_code authn) u',
      )

  abbrev pub created : Env → Option Authn → Bool → Outcome PublicUser → Api × Reply
  created env authn generated (s, err e) = (record { users = s; authn = authn }, refused e)
  created env authn generated (s, ok u) = finished env authn generated s u

  abbrev pub bootstrap_body : Env → Bool → Api → Option Login → Api × Reply
  bootstrap_body env loopback api none = (api, bad_body)
  bootstrap_body env loopback api (some q) =
      if not loopback && not (is_code api.authn q.code)
      then (api, need_code)
      else if not (q.username == "") && is_code api.authn q.username
      then (api, code_as_name)
      else created env api.authn q.generated (
          create hash_password env.at_change env.disk env.draw q.username q.password "admin"
            api.users)

  -- `loopback`: whether the request comes from the machine itself.
  unfoldable pub handle_bootstrap : Env → Bool → Option Login → Api → Api × Reply
  handle_bootstrap env loopback body given =
      let api : Api = record given { users = reload env.at_first given.users } in
      if is_empty api.users.data'.users
      then bootstrap_body env loopback api body
      else (api, conflict)

  abbrev pub logged : Env → Option Authn → Reply → Outcome PublicUser → Api × Reply
  logged env authn failure (s, err e) = (record { users = s; authn = authn }, failure)
  logged env authn failure (s, ok u) =
      (record { users = s; authn = authn }, issue_session env.now authn u)

  abbrev registered : Env → Option Authn → Outcome PublicUser → Api × Reply
  registered env authn (s, err e) = (record { users = s; authn = authn }, refused e)
  registered env authn (s, ok u) =
      (record { users = s; authn = authn }, issue_session env.now authn u)

  unfoldable handle_register : Env → Option Login → Api → Api × Reply
  handle_register env none api = (api, bad_body)
  handle_register env (some q) api =
      registered env api.authn
        (register hash_password env.at_first env.disk env.draw q.username q.password api.users)

  module _ (verify_password : String → String → Bool) where
    abbrev login_with : Env → Api → Login → Option Authn → Api × Reply
    login_with env api q none = (api, not_available)
    login_with env api q (some a) = logged env (some a) bad_credentials (
        authenticate verify_password env.at_first env.disk env.login_time q.username q.password
          api.users)

    -- One answer for every failure.
    unfoldable handle_login : Env → Option Login → Api → Api × Reply
    handle_login env none api = (api, if has_sessions api.authn then bad_body else not_available)
    handle_login env (some q) api = login_with env api q api.authn

  abbrev pub redeemed_user : ℕ → Api → Option User → Api × Reply
  redeemed_user now api none = (api, gone)
  redeemed_user now api (some u) =
      if u.disabled then (api, gone) else (api, issue_session now api.authn (public u))

  abbrev pub redeemed : Env → Store → Authn × Option String → Api × Reply
  redeemed env s (a, none) = (record { users = s; authn = some a }, bad_ticket)
  redeemed env s (a, some id) =
      let s' = reload env.at_first s in
      redeemed_user env.now (record { users = s'; authn = some a }) (by_id id s'.data'.users)

  abbrev redeem_with : Env → String → Api → Option Authn → Api × Reply
  redeem_with env t api none = (api, not_available)
  redeem_with env t api (some a) = redeemed env api.users (redeem_ticket env.now t a)

  unfoldable pub handle_redeem_ticket : Env → String → Api → Api × Reply
  handle_redeem_ticket env t api = redeem_with env t api api.authn
