-- ===== src/Users/Keys.antt =====
-- internal/users/store.go: API keys.
use Prim.Native.String.{◌++◌ as append}
use trust_proxy.Base.{
  ℕ, zero, suc, ◌+◌, String, Bool, false, List, [], ◌∷◌, ◌++◌, Option, none, some, ◌==◌, ◌&&◌, not,
  ltb, if◌then◌else◌, Result, ok, err,
}
use trust_proxy.Base.Text.{trim_space, strip_prefix}
use trust_proxy.Users.{
  ApiKey, User, File, Store, Error, Write, Outcome, fails, reload, save_quietly, with_users, mutate,
}
use trust_proxy.Users.Error.{invalid_credentials, account_disabled, key_expired, no_key}
use trust_proxy.Users.Accounts.{PublicKey, PublicUser, public, public_key}

abbrev pub key_prefix : String
key_prefix = "tp_"

take_chars : ℕ → String → String
take_chars zero s = String.[]
take_chars (suc n) String.[] = String.[]
take_chars (suc n) (String.◌∷◌ c s) = String.◌∷◌ c (take_chars n s)

pub remove_key : String → List ApiKey → Result Error (List ApiKey)
remove_key id [] = err no_key
remove_key id (k ∷ ks) =
    if k.id == id then ok ks else elim (remove_key id ks) [ ok ks' ↦ ok (k ∷ ks') | err e ↦ err e ]

abbrev pub with_keys : User → Result Error (List ApiKey) → Result Error User
with_keys u (ok ks) = ok (record u { api_keys = ks })
with_keys u (err e) = err e

unfoldable pub delete_api_key : File → Write → String → String → Store → Outcome (Unit {0})
unfolding remove_key
delete_api_key seen disk user_id key_id s =
    mutate seen disk user_id (λ u. with_keys u (remove_key key_id u.api_keys)) s

-- Times are numbers of nanoseconds; `format` and `parse` are those of RFC 3339, and `parse` has
-- no result for a text that is not one.
module _ (hash_key : String → String) (format : ℕ → String) (parse : String → Option ℕ) where
  -- `token` is the random part of the key, and `ttl` is 0 where the duration is not positive.
  abbrev new_key : String → String → ℕ → String → ℕ → ApiKey
  unfolding take_chars
  new_key id token now label ttl =
      let raw = append key_prefix token in
      record {
        id = id;
        label = trim_space label;
        prefix = take_chars 10 raw;
        hash = hash_key raw;
        created_at = format now;
        last_used_at = "";
        expires_at = if ltb 0 ttl then format (now + ttl) else "";
      }

  abbrev pub created : String → ApiKey → Outcome (Unit {0}) → Outcome (PublicKey × String)
  created raw key (s, ok _) = (s, ok (public_key key, raw))
  created raw key (s, err e) = (s, err e)

  unfoldable pub create_api_key :
      File
      → Write
      → String
      → String
      → ℕ
      → String
      → String
      → ℕ
      → Store
      → Outcome (PublicKey × String)
  unfolding new_key
  create_api_key seen disk id token now user_id label ttl s =
      let key = new_key id token now label ttl in
      created (append key_prefix token) key
        (mutate seen disk user_id (λ u. ok (record u { api_keys = u.api_keys ++ key ∷ [] })) s)

  -- An expiry that does not parse is none.
  abbrev passed : ℕ → Option ℕ → Bool
  passed now none = false
  passed now (some t) = ltb t now

  pub expired : ℕ → String → Bool
  expired now text = not (text == "") && passed now (parse text)

  -- The first key with the hash, with its time of use written.
  unfoldable pub use_key : ℕ → String → List ApiKey → Option (ApiKey × List ApiKey)
  use_key now want [] = none
  use_key now want (k ∷ ks) =
      if k.hash == want
      then some (k, record k { last_used_at = format now } ∷ ks)
      else elim (use_key now want ks) [ none ↦ none | some (k', ks') ↦ some (k', k ∷ ks') ]

  abbrev pub checked_use : ℕ → User → Option (ApiKey × List ApiKey) → Option (Result Error User)
  checked_use now u none = none
  checked_use now u (some (k, ks)) = some (
      if u.disabled
      then err account_disabled
      else if expired now k.expires_at
      then err key_expired
      else ok (record u { api_keys = ks }))

  abbrev pub scanned :
      User
      → Option (Result Error User)
      → Option (Result Error (User × List User))
      → List User
      → Option (Result Error (User × List User))
  scanned u none none us = none
  scanned u none (some (err e)) us = some (err e)
  scanned u none (some (ok (u', us'))) us = some (ok (u', u ∷ us'))
  scanned u (some (err e)) rest us = some (err e)
  scanned u (some (ok u')) rest us = some (ok (u', u' ∷ us))

  -- The loop over the accounts and their keys: no key, an error, or the account that has the key
  -- and the accounts with its use written.
  unfoldable pub scan : ℕ → String → List User → Option (Result Error (User × List User))
  unfolding expired use_key
  scan now want [] = none
  scan now want (u ∷ us) =
      scanned u (checked_use now u (use_key now want u.api_keys)) (scan now want us) us

  abbrev pub used : Write → Store → Option (Result Error (User × List User)) → Outcome PublicUser
  used disk s none = fails s invalid_credentials
  used disk s (some (err e)) = fails s e
  used disk s (some (ok (u, us))) = (save_quietly disk (with_users s us), ok (public u))

  unfoldable pub authenticate_api_key : File → Write → ℕ → String → Store → Outcome PublicUser
  unfolding scan reload strip_prefix
  authenticate_api_key seen disk now raw s =
      let s' = reload seen s in
      if not (strip_prefix key_prefix raw).0
      then fails s invalid_credentials
      else used disk s' (scan now (hash_key raw) s'.data'.users)
