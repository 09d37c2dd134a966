-- ===== src/Users/Tests.antt =====
-- The theorems on accounts at a small registry.
use Prim.Native.String.{◌++◌ as append}
use trust_proxy.Base.{
  ℕ, String, Bool, true, false, List, [], ◌∷◌, Option, some, ◌≡◌, refl, arith, inr, ◌==◌, any,
  Result, ok, err,
}
use trust_proxy.Base.Text.{strip_prefix, trim_space}
use trust_proxy.Users.{
  ApiKey, User, Doc, File, Store, FileStamp, wrote, failed, find_match, count_if, reload, by_id,
  enabled_admin_count, document, missing, Outcome, valid_password, valid_username,
}
use trust_proxy.Users.Accounts.{Draw, PublicUser, public, set_role, register}
use trust_proxy.Users.Keys.{authenticate_api_key, key_prefix}
use trust_proxy.Users.Registry.Steps.{IsSound}
use trust_proxy.Users.Registry.History.{Call, run, run-IsSound, role_op, delete_op, read}
use trust_proxy.Users.Logins.{authenticate_api_key-ok, holds}
use trust_proxy.Users.Roles.{set_role_locks_out, register_first}

abbrev hash_password : String → String → String
hash_password salt p = append salt p

abbrev verify_password : String → String → Bool
verify_password hash p = hash == append "salt" p

abbrev hash_key : String → String
hash_key raw = append "hash of " raw

abbrev format : ℕ → String
format now = "now"

abbrev parse : String → Option ℕ
parse text = some 50

abbrev key : ApiKey
key = record {
  id = "k1";
  label = "cli";
  prefix = "tp_abc";
  hash = "hash of tp_abc";
  created_at = "now";
  last_used_at = "";
  expires_at = "then";
}

abbrev account : String → String → Bool → User
account id name disabled = record {
  id = id;
  username = name;
  password_hash = "saltcorrect horse";
  role = "admin";
  disabled = disabled;
  proxy_password = "";
  api_keys = key ∷ [];
  created_at = "now";
  last_login_at = "";
  session_epoch = 3;
  password_generated = true;
}

abbrev ann : User
ann = account "1" "ann" false

abbrev bob : User
bob = account "2" "bob" true

abbrev stamp : FileStamp
stamp = record { size = 1; mod_time = 1 }

abbrev doc : Doc
doc = record { users = ann ∷ bob ∷ []; allow_registration = true }

abbrev registry : Store
registry = record { data' = doc; stamp = stamp }

abbrev same_file : File
same_file = record { stamp = stamp; content = document doc }

-- Another process has removed the file.
abbrev no_file : File
no_file = record { stamp = record { size = 0; mod_time = 0 }; content = missing }

abbrev draw : Draw
draw = record { id = "3"; salt = some "salt"; now = "now" }

registry-IsSound : IsSound registry
unfolding count_if find_match
registry-IsSound = (inr (omega arith), ((refl, tt), (tt, tt)))

abbrev calls : List Call
calls =
    record { op = role_op "1" "client"; seen = same_file; disk = failed }
    ∷ record { op = delete_op "2"; seen = same_file; disk = wrote stamp }
    ∷ record { op = read; seen = no_file; disk = failed }
    ∷ []

run-IsSound_example :
    IsSound (run hash_password verify_password hash_key format parse calls registry)
run-IsSound_example =
    run-IsSound hash_password verify_password hash_key format parse calls registry
      (registry-IsSound, (registry-IsSound, (tt, tt))) registry-IsSound

set_role_locks_out_example :
    enabled_admin_count (set_role (wrote stamp) "1" "client" registry).0.data'.users ≡ 0
unfolding count_if by_id
set_role_locks_out_example =
    set_role_locks_out (wrote stamp) "1" registry ann refl refl refl (omega arith)

abbrev used_ann : User
used_ann = record ann { api_keys = record key { last_used_at = "now" } ∷ [] }

authenticate_api_key-ok_example :
    ((strip_prefix key_prefix "tp_abc").0 ≡ true)
    × (any
          (holds hash_key format parse 40 "hash of tp_abc" "1")
          (reload same_file registry).data'.users
        ≡ true)
unfolding authenticate_api_key reload
authenticate_api_key-ok_example =
    authenticate_api_key-ok hash_key format parse same_file failed 40 "tp_abc" registry
      (public used_ann) refl

abbrev client_result : Outcome PublicUser
unfolding register
client_result =
    register hash_password same_file (wrote stamp) draw "carl" "a long password" registry

abbrev nobody : PublicUser
nobody = public (account "" "" true)

abbrev user_or {ℓ} : {E : Type ℓ} → PublicUser → Result E PublicUser → PublicUser
user_or p (ok q) = q
user_or p (err e) = p

abbrev carl : PublicUser
unfolding register
carl = user_or nobody client_result.1

abbrev first : PublicUser
unfolding register
first =
    user_or nobody
      (register hash_password no_file (wrote stamp) draw "carl" "a long password" registry).1

register_first_example : first.role ≡ "admin"
unfolding register reload first valid_username trim_space valid_password
register_first_example =
    register_first hash_password no_file (wrote stamp) draw "carl" "a long password" registry first
      refl refl
