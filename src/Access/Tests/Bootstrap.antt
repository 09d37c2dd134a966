-- ===== src/Access/Tests/Bootstrap.antt =====
-- The claim of a gateway that has no accounts.
use trust_proxy.Base.{ℕ, String, true, false, [], Option, none, some, ◌≡◌, ◌⊎◌, refl, is_empty}
use trust_proxy.Base.Text.{trim_space}
use trust_proxy.Users.{Doc, File, reload, document, wrote, failed, valid_username, valid_password}
use trust_proxy.Users.Accounts.{Draw, PublicUser, create}
use trust_proxy.Sessions.{Claims, check_bootstrap_code, clear_bootstrap_code, issue}
use trust_proxy.Access.Handlers.{Api, Login, Env, is_code, handle_bootstrap}
use trust_proxy.Access.Logins.{bootstrap_guarded}

abbrev doc : Doc
doc = record { users = []; allow_registration = false }

abbrev file : File
file = record { stamp = record { size = 1; mod_time = 1 }; content = document doc }

abbrev draw : Draw
draw = record { id = "1"; salt = some "salt"; now = "now" }

abbrev env : Env
env = record {
  at_first = file;
  at_change = file;
  at_mark = file;
  at_read = file;
  disk = wrote (record { size = 2; mod_time = 2 });
  mark_disk = failed;
  draw = draw;
  now = 5;
  login_time = "now";
}

abbrev exact : ℕ → ℕ
exact t = t

abbrev login : Login
login = record {
  username = "ann";
  password = "battery staple";
  code = "one-time";
  generated = false;
}

abbrev api : Api
api = record {
  users = record { data' = doc; stamp = file.stamp };
  authn = some (record { bootstrap = "one-time"; ttl = 40; tickets = [] });
}

abbrev sign : Claims → Option String
sign c = some "token"

abbrev parse : ℕ → String → Option Claims
parse t token = none

abbrev hash_password : String → String → String
hash_password salt p = p

abbrev ann : PublicUser
ann = record {
  id = "1";
  username = "ann";
  role = "admin";
  disabled = false;
  has_proxy_cred = false;
  api_keys = [];
  created_at = "now";
  last_login_at = "";
  session_epoch = 0;
  password_generated = false;
}

bootstrap_guarded_example :
    (is_empty (reload file api.users).data'.users ≡ true)
    × ((false ≡ true) ⊎ (is_code api.authn "one-time" ≡ true))
    × (is_code
          (handle_bootstrap exact sign parse hash_password env false (some login) api).0.authn
          "one-time"
        ≡ false)
unfolding handle_bootstrap reload create trim_space valid_username valid_password
    check_bootstrap_code issue clear_bootstrap_code
bootstrap_guarded_example =
    bootstrap_guarded exact sign parse hash_password env false login api ann (some ("token", 45))
      "one-time" refl
