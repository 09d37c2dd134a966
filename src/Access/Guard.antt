-- ===== src/Access/Guard.antt =====
-- internal/api/auth.go: authenticate and withAuth. A registry and a verifier of session tokens are
-- snapshots at the time of the request; `none` is one that the server does not have.
use trust_proxy.Base.{
  ℕ, String, Bool, true, false, [], Option, none, some, ◌==◌, ◌&&◌, ◌||◌, not, nat_eq,
  if◌then◌else◌, Result, ok, err,
}
use trust_proxy.Base.Text.{strip_prefix, trim_prefix}
use trust_proxy.Access.{
  Level, access_public, access_admin, Request, Web, is_self_service, is_mutation, origin_ok,
  is_loopback, client_key, costly_public,
}
use trust_proxy.Access.Table.{requirement}
use trust_proxy.Users.Accounts.{PublicUser}
use trust_proxy.Users.Keys.{key_prefix}
use trust_proxy.Sessions.{Claims, session_token}
use trust_proxy.Throttle.{Throttle, allow, acquire}

-- What the server asks of the registry: AuthenticateAPIKey, ByID and Empty.
pub record Accounts : Type 0 where
  pub by_key : String → Option PublicUser
  pub account : String → Option PublicUser
  pub is_empty : Bool

pub record Server : Type 0 where
  pub accounts : Option Accounts
  -- authn.Verify at the time of the request.
  pub verifier : Option (String → Option Claims)
  -- --api-token, "" if there is none.
  pub token : String

pub data AuthError : Type 0 where
  bad_key bad_session revoked : AuthError

abbrev made_up : String → String → PublicUser
made_up id name = record {
  id = id;
  username = name;
  role = "admin";
  disabled = false;
  has_proxy_cred = false;
  api_keys = [];
  created_at = "";
  last_login_at = "";
  session_epoch = 0;
  password_generated = false;
}

abbrev pub static_user : PublicUser
static_user = made_up "static-token" "api-token"

abbrev pub unclaimed_user : PublicUser
unclaimed_user = made_up "unclaimed" "unclaimed"

abbrev pub bearer : Request → String
bearer r = trim_prefix "Bearer " r.authorization

unfoldable pub api_key_from : Request → String
api_key_from r =
    if (strip_prefix key_prefix r.api_key).0
    then r.api_key
    else if (strip_prefix key_prefix (bearer r)).0
    then bearer r
    else ""

-- The caller, nobody, or an error.
abbrev pub Answer : Type 0
Answer = Result AuthError (Option PublicUser)

pub data Attempt : Type 0 where
  skipped refused : Attempt
  found : PublicUser → Attempt

abbrev pub attempt_of : Option PublicUser → Attempt
attempt_of none = refused
attempt_of (some u) = found u

abbrev pub try_key : Option Accounts → String → Attempt
try_key none key = skipped
try_key (some a) key = if key == "" then skipped else attempt_of (a.by_key key)

abbrev pub is_current : Claims → PublicUser → Bool
is_current c u = not u.disabled && nat_eq c.epoch u.session_epoch

abbrev pub if_current : Bool → PublicUser → Answer
if_current b u = if b then ok (some u) else err revoked

abbrev pub re_read : Claims → Option PublicUser → Answer
re_read c none = err revoked
re_read c (some u) = if_current (is_current c u) u

-- The session; `none` where it does not decide.
abbrev pub session_answer : Option Accounts → Option Claims → Option Answer
session_answer accounts none = some (err bad_session)
session_answer none (some c) = none
session_answer (some a) (some c) = some (re_read c (a.account c.subject))

abbrev pub try_session : Option Accounts → Option (String → Option Claims) → String → Option Answer
try_session accounts none tok = none
try_session accounts (some verify) tok =
    if tok == "" then none else session_answer accounts (verify tok)

abbrev pub is_unclaimed : Option Accounts → String → Bool
is_unclaimed none token = true
is_unclaimed (some a) token = a.is_empty && token == ""

-- What is left after the key, the static token and the session.
abbrev pub last_answer : Attempt → Bool → Bool → Answer
last_answer refused unclaimed loopback = err bad_key
last_answer _ unclaimed loopback =
    if unclaimed && loopback then ok (some unclaimed_user) else ok none

abbrev pub after_session : Option Answer → Attempt → Bool → Bool → Answer
after_session (some a) key unclaimed loopback = a
after_session none key unclaimed loopback = last_answer key unclaimed loopback

abbrev pub answer_of : Attempt → Bool → Option Answer → Bool → Bool → Answer
answer_of (found u) static session unclaimed loopback = ok (some u)
answer_of key true session unclaimed loopback = ok (some static_user)
answer_of key false session unclaimed loopback = after_session session key unclaimed loopback

abbrev pub is_static : Server → Request → Bool
is_static s r = not (s.token == "") && bearer r == s.token

pub data Verdict : Type 0 where
  -- The handler runs, and whether it holds a slot that its end gives back.
  next : Bool → Verdict
  cross_origin too_many busy no_accounts unauthorized not_admin : Verdict

abbrev pub slot_verdict : Throttle × Bool → Throttle × Verdict
slot_verdict (t, got) = (t, if got then next true else busy)

abbrev pub budget_verdict : Throttle × Bool → Throttle × Verdict
budget_verdict (t, allowed) = if allowed then slot_verdict (acquire t) else (t, too_many)

abbrev pub no_caller : Option Accounts → Verdict
no_caller none = unauthorized
no_caller (some a) = if a.is_empty then no_accounts else unauthorized

abbrev pub is_own : PublicUser → Option String → Bool
is_own u none = false
is_own u (some id) = id == u.id

abbrev pub caller_verdict : Level → Request → PublicUser → Verdict
caller_verdict access_admin r u =
    if u.role == "admin" || is_own u (is_self_service r) then next false else not_admin
caller_verdict _ r u = next false

abbrev pub login_verdict : Level → Request → Option Accounts → Answer → Verdict
login_verdict need r accounts (err e) = no_caller accounts
login_verdict need r accounts (ok none) = no_caller accounts
login_verdict need r accounts (ok (some u)) = caller_verdict need r u

module _ (web : Web) (server : Server) where
  unfoldable pub authenticate : Request → Answer
  authenticate r =
      answer_of (try_key server.accounts (api_key_from r)) (is_static server r)
        (try_session server.accounts server.verifier (session_token r.cookie r.authorization))
        (is_unclaimed server.accounts server.token) (is_loopback web r.remote_addr)

  -- Behind the check of the origin.
  abbrev pub authorized : ℕ → Request → Level → Throttle → Throttle × Verdict
  authorized now r access_public t =
      if costly_public r then budget_verdict (allow now (client_key web r) t) else (t, next false)
  authorized now r need t = (t, login_verdict need r server.accounts (authenticate r))

  unfoldable pub with_auth : ℕ → Request → Throttle → Throttle × Verdict
  with_auth now r t =
      if not (strip_prefix "/api/" r.path).0
      then (t, next false)
      else if is_mutation r.method && not (origin_ok web r)
      then (t, cross_origin)
      else authorized now r (requirement web r) t
