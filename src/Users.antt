-- ===== src/Users.antt =====
-- internal/users/store.go: the accounts of the console. The lock is held for a whole operation (a
-- login takes it twice, here in one run). Hashes, random tokens and the format of times are
-- parameters; a file that another process wrote is seen at the start of an operation that reloads.
pub mod Accounts
pub mod Keys
pub mod Registry
pub mod Logins
pub mod Roles
mod Tests
use Prim.Native.Char.{Char, code}
use Prim.Native.String
use trust_proxy.Base.{
  ℕ, suc, ◌+◌, String, Bool, true, false, List, [], ◌∷◌, Option, none, some, ◌==◌, ◌&&◌, ◌||◌, not,
  nat_eq, leb, ltb, if◌then◌else◌, map, Result, ok, err,
}
use trust_proxy.Base.Text.{trim_space, equal_fold}

pub record ApiKey : Type 0 where
  pub id : String
  pub label : String
  pub prefix : String
  pub hash : String
  pub created_at : String
  pub last_used_at : String
  pub expires_at : String

pub record User : Type 0 where
  pub id : String
  pub username : String
  pub password_hash : String
  pub role : String
  pub disabled : Bool
  pub proxy_password : String
  pub api_keys : List ApiKey
  pub created_at : String
  pub last_login_at : String
  pub session_epoch : ℕ
  pub password_generated : Bool

pub record Doc : Type 0 where
  pub users : List User
  pub allow_registration : Bool

-- The size and the time of change of the file; both 0 where there is none.
pub record FileStamp : Type 0 where
  pub size : ℕ
  pub mod_time : ℕ

-- What stands at the path: nothing, what cannot be read, what cannot be decoded, or a document.
pub data Content : Type 0 where
  missing unreadable garbled : Content
  document : Doc → Content

pub record File : Type 0 where
  pub stamp : FileStamp
  pub content : Content

pub record Store : Type 0 where
  pub data' : Doc
  pub stamp : FileStamp

pub data Error : Type 0 where
  bad_username bad_password user_exists bad_role no_user last_admin no_accounts : Error
  registration_closed invalid_credentials account_disabled key_expired no_key : Error
  proxy_password_short random_failed save_failed : Error

-- A write of the file leaves a new stamp, or fails.
pub data Write : Type 0 where
  wrote : FileStamp → Write
  failed : Write

abbrev pub Outcome {ℓ} : Type ℓ → Type ℓ
Outcome A = Store × Result Error A

abbrev pub fails {ℓ} : {A : Type ℓ} → Store → Error → Outcome A
fails s e = (s, err e)

abbrev pub same_stamp : FileStamp → FileStamp → Bool
same_stamp a b = nat_eq a.size b.size && nat_eq a.mod_time b.mod_time

-- A half-written file keeps the copy in memory.
abbrev pub reload_from : Store → FileStamp → Content → Store
reload_from s stamp missing = record {
  data' = record { users = []; allow_registration = false };
  stamp = stamp;
}
reload_from s stamp unreadable = s
reload_from s stamp garbled = s
reload_from s stamp (document fresh) = record { data' = fresh; stamp = stamp }

unfoldable pub reload : File → Store → Store
reload seen s = if same_stamp seen.stamp s.stamp then s else reload_from s seen.stamp seen.content

abbrev pub save {ℓ} : {A : Type ℓ} → Write → A → Store → Outcome A
save (wrote stamp) a s = (record s { stamp = stamp }, ok a)
save failed a s = (s, err save_failed)

-- A save whose error is dropped.
abbrev pub save_quietly : Write → Store → Store
save_quietly (wrote stamp) s = record s { stamp = stamp }
save_quietly failed s = s

abbrev pub with_users : Store → List User → Store
with_users s us = record s { data' = record s.data' { users = us } }

unfoldable pub normalize_role : String → String
normalize_role role = if role == "user" then "client" else role

abbrev pub known_role : String → Bool
known_role role = role == "admin" || role == "client"

-- The number of bytes of a text in UTF-8, which is Go's len.
abbrev width : Char → ℕ
width c =
    let n = code c in
    if ltb n 0x80 then 1 else if ltb n 0x800 then 2 else if ltb n 0x10000 then 3 else 4

unfoldable byte_length : String → ℕ
byte_length String.[] = 0
byte_length (String.◌∷◌ c s) = width c + byte_length s

abbrev name_char : Char → Bool
name_char c =
    let n = code c in
    nat_eq n b'-'
    || nat_eq n b'_'
    || nat_eq n b'.'
    || nat_eq n b'@'
    || (leb b'0' n && leb n b'9')
    || (leb b'a' n && leb n b'z')
    || (leb b'A' n && leb n b'Z')

unfoldable name_chars : String → Bool
name_chars String.[] = true
name_chars (String.◌∷◌ c s) = name_char c && name_chars s

unfoldable pub valid_username : String → Bool
unfolding byte_length name_chars
valid_username given =
    let name = trim_space given in
    not (ltb (byte_length name) 2 || ltb 32 (byte_length name)) && name_chars name

unfoldable pub valid_password : String → Bool
unfolding byte_length
valid_password p = not (ltb (byte_length p) 10) && not (ltb 256 (byte_length p))

unfoldable find_match : String → String → Bool
unfolding equal_fold trim_space
find_match stored given = equal_fold (trim_space stored) (trim_space given)

-- The first account of that name, and the first of that id.
unfoldable find_name : String → List User → Option User
find_name name [] = none
find_name name (u ∷ us) = if find_match u.username name then some u else find_name name us

unfoldable pub by_id : String → List User → Option User
by_id id [] = none
by_id id (u ∷ us) = if u.id == id then some u else by_id id us

-- A write through the pointer that find_name and by_id return.
unfoldable put_name : String → User → List User → List User
put_name name u' [] = []
put_name name u' (u ∷ us) = if find_match u.username name then u' ∷ us else u ∷ put_name name u' us

pub put_id : String → User → List User → List User
put_id id u' [] = []
put_id id u' (u ∷ us) = if u.id == id then u' ∷ us else u ∷ put_id id u' us

unfoldable remove_id : String → List User → List User
remove_id id [] = []
remove_id id (u ∷ us) = if u.id == id then us else u ∷ remove_id id us

abbrev pub is_admin : User → Bool
is_admin u = u.role == "admin"

abbrev pub is_enabled_admin : User → Bool
is_enabled_admin u = u.role == "admin" && not u.disabled

abbrev pub one_if : Bool → ℕ
one_if true = 1
one_if false = 0

pub count_if : (User → Bool) → List User → ℕ
count_if p [] = 0
count_if p (u ∷ us) = one_if (p u) + count_if p us

abbrev pub admin_count : List User → ℕ
admin_count us = count_if is_admin us

abbrev pub enabled_admin_count : List User → ℕ
enabled_admin_count us = count_if is_enabled_admin us

abbrev pub write_found : Write → String → Result Error User → Store → Outcome (Unit {0})
write_found disk id (err e) s = fails s e
write_found disk id (ok u') s = save disk tt (with_users s (put_id id u' s.data'.users))

abbrev pub edit_found :
    Write → String → (User → Result Error User) → Store → Option User → Outcome (Unit {0})
edit_found disk id f s none = fails s no_user
edit_found disk id f s (some u) = write_found disk id (f u) s

-- `disk`: what becomes of the write, and `seen` what stands at the path.
unfoldable pub mutate :
    File → Write → String → (User → Result Error User) → Store → Outcome (Unit {0})
unfolding reload by_id put_id
mutate seen disk id f s =
    let s' = reload seen s in edit_found disk id f s' (by_id id s'.data'.users)

abbrev normalized : User → User
unfolding normalize_role
normalized u = record u { role = normalize_role u.role }

-- NewStore, of what stands at the path.
unfoldable new_store : File → Option Store
unfolding normalized
new_store seen = elim seen.content [
  | missing ↦ some (record {
    data' = record { users = []; allow_registration = false };
    stamp = record { size = 0; mod_time = 0 };
  })
  | unreadable ↦ none
  | garbled ↦ none
  | document d ↦
      some (record { data' = record d { users = map normalized d.users }; stamp = seen.stamp })
]
