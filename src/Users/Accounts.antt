-- ===== src/Users/Accounts.antt =====
-- internal/users/store.go: accounts, passwords, roles and logins.
use trust_proxy.Base.{
  ℕ, suc, String, Bool, true, false, List, [], ◌∷◌, ◌++◌, Option, none, some, ◌==◌, ◌&&◌, ◌||◌, not,
  ltb, nat_eq, if◌then◌else◌, is_empty, map, Result, ok, err,
}
use trust_proxy.Base.Text.{trim_space}
use trust_proxy.Users.{
  ApiKey, User, File, Store, Error, Write, Outcome, fails, reload, save, save_quietly, with_users,
  normalize_role, known_role, byte_length, valid_username, valid_password, find_name, by_id,
  put_name, put_id, remove_id, is_admin, admin_count, enabled_admin_count, mutate, wrote, failed,
}
use trust_proxy.Users.Error.{
  bad_username, bad_password, user_exists, bad_role, no_user, last_admin, no_accounts,
  registration_closed, invalid_credentials, account_disabled, proxy_password_short, random_failed,
  save_failed,
}

-- A key and an account without their secrets.
pub record PublicKey : Type 0 where
  pub id : String
  pub label : String
  pub prefix : String
  pub created_at : String
  pub last_used_at : String
  pub expires_at : String

pub record PublicUser : Type 0 where
  pub id : String
  pub username : String
  pub role : String
  pub disabled : Bool
  pub has_proxy_cred : Bool
  pub api_keys : List PublicKey
  pub created_at : String
  pub last_login_at : String
  pub session_epoch : ℕ
  pub password_generated : Bool

abbrev pub public_key : ApiKey → PublicKey
public_key k = record {
  id = k.id;
  label = k.label;
  prefix = k.prefix;
  created_at = k.created_at;
  last_used_at = k.last_used_at;
  expires_at = k.expires_at;
}

abbrev pub public : User → PublicUser
public u = record {
  id = u.id;
  username = u.username;
  role = u.role;
  disabled = u.disabled;
  has_proxy_cred = not (u.proxy_password == "");
  api_keys = map public_key u.api_keys;
  created_at = u.created_at;
  last_login_at = u.last_login_at;
  session_epoch = u.session_epoch;
  password_generated = u.password_generated;
}

-- The role of a new account: the first is an admin.
unfoldable pub new_role : List User → String → Result Error String
unfolding normalize_role
new_role [] role = ok "admin"
new_role (_ ∷ _) given =
    let role = normalize_role given in if known_role role then ok role else err bad_role

-- What the environment gives to an operation: the id that is drawn, the salt (`none`: no random
-- bytes) and the time.
pub record Draw : Type 0 where
  pub id : String
  pub salt : Option String
  pub now : String

abbrev pub new_user : Draw → String → String → String → User
new_user draw hash name role = record {
  id = draw.id;
  username = name;
  password_hash = hash;
  role = role;
  disabled = false;
  proxy_password = "";
  api_keys = [];
  created_at = draw.now;
  last_login_at = "";
  session_epoch = 0;
  password_generated = false;
}

-- A save that fails takes the new account back.
abbrev pub append_user : Write → User → Store → Outcome PublicUser
append_user (wrote stamp) u s =
    (record (with_users s (s.data'.users ++ u ∷ [])) { stamp = stamp }, ok (public u))
append_user failed u s = fails s save_failed

module _ (hash_password : String → String → String) where
  abbrev pub hashed : String → Option String → Result Error String
  hashed p none = err random_failed
  hashed p (some salt) = ok (hash_password salt p)

  abbrev pub create_with :
      Write → Draw → String → Store → Result Error String → Result Error String → Outcome PublicUser
  create_with disk draw name s (err e) hash = fails s e
  create_with disk draw name s (ok role) (err e) = fails s e
  create_with disk draw name s (ok role) (ok hash) =
      append_user disk (new_user draw hash name role) s

  abbrev pub create_free :
      Write → Draw → String → String → String → Store → Option User → Outcome PublicUser
  create_free disk draw name password role s (some _) = fails s user_exists
  create_free disk draw name password role s none =
      create_with disk draw name s (new_role s.data'.users role) (hashed password draw.salt)

  unfoldable pub create :
      File → Write → Draw → String → String → String → Store → Outcome PublicUser
  unfolding reload find_name new_role
  create seen disk draw given password role s =
      let name = trim_space given in
      let s' = reload seen s in
      if not (valid_username name)
      then fails s bad_username
      else if not (valid_password password)
      then fails s bad_password
      else create_free disk draw name password role s' (find_name name s'.data'.users)

  unfoldable pub register : File → Write → Draw → String → String → Store → Outcome PublicUser
  unfolding create
  register seen disk draw name password s =
      if is_empty s.data'.users
      then fails s no_accounts
      else if not s.data'.allow_registration
      then fails s registration_closed
      else create seen disk draw name password "client" s

  abbrev pub new_password : String → User → User
  new_password hash u = record u {
    password_hash = hash;
    session_epoch = suc u.session_epoch;
    password_generated = false;
  }

  abbrev pub set_hash : File → Write → String → Store → Result Error String → Outcome (Unit {0})
  set_hash seen disk id s (err e) = fails s e
  set_hash seen disk id s (ok hash) = mutate seen disk id (λ u. ok (new_password hash u)) s

  unfoldable pub set_password :
      File → Write → Option String → String → String → Store → Outcome (Unit {0})
  unfolding mutate
  set_password seen disk salt id password s =
      if not (valid_password password)
      then fails s bad_password
      else set_hash seen disk id s (hashed password salt)

unfoldable pub mark_password_generated : File → Write → String → Store → Outcome (Unit {0})
mark_password_generated seen disk id s =
    mutate seen disk id (λ u. ok (record u { password_generated = true })) s

unfoldable pub set_proxy_password : File → Write → String → String → Store → Outcome (Unit {0})
set_proxy_password seen disk id password s =
    if not (password == "") && ltb (byte_length password) 8
    then fails s proxy_password_short
    else mutate seen disk id (λ u. ok (record u { proxy_password = password })) s

unfoldable pub set_allow_registration : Write → Bool → Store → Outcome (Unit {0})
set_allow_registration disk allow s =
    save disk tt (record s { data' = record s.data' { allow_registration = allow } })

abbrev pub write_user : Write → String → User → Store → Outcome (Unit {0})
write_user disk id u' s = save disk tt (with_users s (put_id id u' s.data'.users))

abbrev pub set_role_of : Write → String → String → Store → Option User → Outcome (Unit {0})
set_role_of disk id role s none = fails s no_user
set_role_of disk id role s (some u) =
    if is_admin u && not (role == "admin") && nat_eq (admin_count s.data'.users) 1
    then fails s last_admin
    else write_user disk id (record u { role = role }) s

unfoldable pub set_role : Write → String → String → Store → Outcome (Unit {0})
unfolding by_id put_id normalize_role
set_role disk id given s =
    let role = normalize_role given in
    if not (known_role role)
    then fails s bad_role
    else set_role_of disk id role s (by_id id s.data'.users)

abbrev pub set_disabled_of : Write → String → Bool → Store → Option User → Outcome (Unit {0})
set_disabled_of disk id disabled s none = fails s no_user
set_disabled_of disk id disabled s (some u) =
    if disabled && is_admin u && nat_eq (enabled_admin_count s.data'.users) 1
    then fails s last_admin
    else write_user disk id (record u { disabled = disabled }) s

unfoldable pub set_disabled : Write → String → Bool → Store → Outcome (Unit {0})
unfolding by_id put_id
set_disabled disk id disabled s = set_disabled_of disk id disabled s (by_id id s.data'.users)

abbrev pub delete_of : Write → String → Store → Option User → Outcome (Unit {0})
delete_of disk id s none = fails s no_user
delete_of disk id s (some u) =
    if is_admin u && nat_eq (admin_count s.data'.users) 1
    then fails s last_admin
    else save disk tt (with_users s (remove_id id s.data'.users))

unfoldable pub delete : Write → String → Store → Outcome (Unit {0})
unfolding by_id remove_id
delete disk id s = delete_of disk id s (by_id id s.data'.users)

-- The users of the mixed inbound and their passwords.
abbrev pub has_proxy : User → Bool
has_proxy u = not (u.disabled || u.proxy_password == "")

unfoldable credentials : List User → List (String × String)
credentials [] = []
credentials (u ∷ us) =
    if has_proxy u then (u.username, u.proxy_password) ∷ credentials us else credentials us

unfoldable proxy_credentials : File → Store → Store × List (String × String)
unfolding credentials reload
proxy_credentials seen s = let s' = reload seen s in (s', credentials s'.data'.users)

module _ (verify_password : String → String → Bool) where
  -- The save of the time of the login may fail: its error is dropped.
  abbrev pub login_of : Write → String → String → String → Store → Option User → Outcome PublicUser
  login_of disk now name password s none = fails s invalid_credentials
  login_of disk now name password s (some u) =
      let live : User = record u { last_login_at = now } in
      if not (verify_password u.password_hash password)
      then fails s invalid_credentials
      else if u.disabled
      then fails s account_disabled
      else (save_quietly disk (with_users s (put_name name live s.data'.users)), ok (public live))

  unfoldable pub authenticate : File → Write → String → String → String → Store → Outcome PublicUser
  unfolding find_name put_name reload
  authenticate seen disk now name password s =
      let s' = reload seen s in login_of disk now name password s' (find_name name s'.data'.users)
