-- ===== src/Access/Tests.antt =====
-- The theorems on access at a small server.
mod Bootstrap
use Prim.Native.String.{◌++◌ as append}
use trust_proxy.Base.{
  ◌+◌, ◌-◌, ◌*◌, ◌%◌, ◌^◌, ℕ, String, Bool, true, false, [], ◌∷◌, Option, none, some, ◌≡◌, ◌≢◌, ◌⊎◌,
  refl, arith, ◌==◌, ◌&&◌, if◌then◌else◌, ok, err, eq_iff, nat_eq, nat_eq_iff, ltb, sym, ◌<◌,
}
use trust_proxy.Base.Text.{strip_prefix, equal_fold}
use trust_proxy.Throttle.{Throttle}
use trust_proxy.Users.{
  User, Doc, File, FileStamp, Store, failed, document, by_id, reload, valid_password,
}
use trust_proxy.Users.Accounts.{PublicUser, public, set_password}
use trust_proxy.Sessions.{Claims, Authn, session_token, issue, verify}
use trust_proxy.Sessions.Laws.{ReadsBack}
use trust_proxy.Access.{
  access_admin, Request, Web, is_self_service, is_mutation, origin_ok, is_loopback,
  node_proxy_target, path0,
}
use trust_proxy.Access.Table.{requirement, level_of, lookup}
use trust_proxy.Access.Guard.{
  bearer, Accounts, Server, next, revoked, authenticate, with_auth, is_static, static_user,
  unclaimed_user, api_key_from, is_unclaimed,
}
use trust_proxy.Access.Laws.{MayAdminister, admin_only, mutation_same_origin, self_service_reached}
use trust_proxy.Access.Callers.{HasKey, HasSession, authenticate_ways}
use trust_proxy.Access.Routes.{open_writes, has_name, open_routes_read}
use trust_proxy.Access.Revocation.{
  server_of, accounts_of, set_password_revokes, authenticate_enabled, session_lasts,
}
use trust_proxy.Access.Scope.{Connections, scope_connections, scope_user, own_view, client_sees_own}
use trust_proxy.Access.Samples.{
  web, cleo, claims, read_session, accounts, server, throttle, own_keys,
}

-- A header with a part of the prefix is taken whole.
partly_bearer : bearer (record own_keys { authorization = "Bob-token" }) ≡ "Bob-token"
unfolding strip_prefix
partly_bearer = refl

partly_key : api_key_from (record own_keys { authorization = "Btp_x" }) ≡ ""
unfolding api_key_from strip_prefix
partly_key = refl

own_keys_level : requirement web own_keys ≡ access_admin
unfolding requirement node_proxy_target strip_prefix level_of lookup
own_keys_level = refl

is_cleo : (r : Request) → r ≡ own_keys → authenticate web server r ≡ ok (some (public cleo))
unfolding authenticate api_key_from session_token strip_prefix
is_cleo r e = rw e

own_keys_reached : with_auth web server 5 own_keys throttle ≡ (throttle, next false)
unfolding strip_prefix is_mutation origin_ok equal_fold is_self_service path0 node_proxy_target
own_keys_reached =
    self_service_reached web server 5 own_keys throttle (public cleo) refl own_keys_level refl
      (is_cleo own_keys refl) refl

admin_only_example :
    (u : PublicUser) × (authenticate web server own_keys ≡ ok (some u)) × MayAdminister own_keys u
unfolding strip_prefix
admin_only_example =
    admin_only web server 5 own_keys throttle false refl own_keys_level
      (λ i. (own_keys_reached i).1)

mutation_same_origin_example :
    (own_keys.origin ≡ "")
    ⊎ ((h : String) × (web.url_host own_keys.origin ≡ some h) × (equal_fold h own_keys.host ≡ true))
unfolding strip_prefix is_mutation
mutation_same_origin_example =
    mutation_same_origin web server 5 own_keys throttle false refl refl
      (λ i. (own_keys_reached i).1)

authenticate_ways_example :
    HasKey web server own_keys (public cleo)
    ⊎ ((is_static server own_keys ≡ true) × (public cleo ≡ static_user))
    ⊎ HasSession web server own_keys (public cleo)
    ⊎ ((is_unclaimed server.accounts server.token ≡ true)
        × (is_loopback web own_keys.remote_addr ≡ true)
        × (public cleo ≡ unclaimed_user))
authenticate_ways_example =
    authenticate_ways web server own_keys (public cleo) (is_cleo own_keys refl)

-- A connection: its account and the bytes up and down.
abbrev Flow : Type 0
Flow = String × ℕ × ℕ

abbrev flows : Connections {A = Flow} (λ f. f.0) (λ f. f.1) (λ f. f.2)
flows = record {
  upload_total = 111;
  download_total = 222;
  connections = ("Cleo", 1, 2) ∷ ("ann", 10, 20) ∷ ("cleo", 100, 200) ∷ [];
}

not_admin_name : cleo.role ≢ "admin"
not_admin_name = λ e. let x : false ≡ true = (eq_iff "client" "admin").1 e in cc

cleo_named : cleo.username ≢ ""
cleo_named = λ e. let x : false ≡ true = (eq_iff "cleo" "").1 e in cc

client_sees_own_example :
    scope_connections (λ f. f.0) (λ f. f.1) (λ f. f.2) flows (scope_user web server own_keys)
    ≡ own_view (λ f. f.0) (λ f. f.1) (λ f. f.2) "cleo" flows.connections
client_sees_own_example =
    client_sees_own (λ f. f.0) (λ f. f.1) (λ f. f.2) web server own_keys (public cleo) flows
      (is_cleo own_keys refl) not_admin_name cleo_named

abbrev stamp : FileStamp
stamp = record { size = 1; mod_time = 1 }

abbrev doc : Doc
doc = record { users = cleo ∷ []; allow_registration = false }

abbrev file : File
file = record { stamp = stamp; content = document doc }

abbrev registry : Store
registry = record { data' = doc; stamp = stamp }

abbrev hash_key : String → String
hash_key raw = raw

abbrev format : ℕ → String
format now = "now"

abbrev parse_time : String → Option ℕ
parse_time text = none

abbrev hash_password : String → String → String
hash_password salt p = append salt p

set_password_revokes_example :
    authenticate web
      (server_of hash_key format parse_time web read_session file failed 50
        (set_password hash_password file failed (some "pepper") "7" "battery staple" registry).0
        "s3cret")
      own_keys
    ≡ err revoked
unfolding reload by_id valid_password api_key_from session_token strip_prefix set_password
set_password_revokes_example =
    set_password_revokes hash_key format parse_time web read_session hash_password file file failed
      failed 50 "pepper" "battery staple" "s3cret" registry cleo claims own_keys refl refl
      (omega arith) refl refl refl refl refl

is_cleo_stored :
    authenticate web
      (server_of hash_key format parse_time web read_session file failed 50 registry "")
      own_keys
    ≡ ok (some (public cleo))
unfolding authenticate api_key_from session_token strip_prefix accounts_of reload by_id
is_cleo_stored = refl

authenticate_enabled_example : cleo.disabled ≡ false
authenticate_enabled_example =
    authenticate_enabled hash_key format parse_time web read_session file failed 50 registry ""
      own_keys (public cleo) is_cleo_stored

abbrev seconds : ℕ → ℕ
seconds n = n * 10 ^ 9

abbrev whole_seconds : ℕ → ℕ
whole_seconds t = t - t % 10 ^ 9

abbrev authn : Authn
authn = record { bootstrap = ""; ttl = seconds 40; tickets = [] }

abbrev issued_claims : Claims
issued_claims = record {
  subject = "7";
  username = "cleo";
  role = "client";
  epoch = 2;
  expires = seconds 50;
}

abbrev same_claims : Claims → Bool
same_claims c =
    c.subject == "7"
    && c.username == "cleo"
    && c.role == "client"
    && nat_eq c.epoch 2
    && nat_eq c.expires (seconds 50)

-- A signer of those claims alone.
abbrev sign : Claims → Option String
sign c = if same_claims c then some "session" else none

abbrev parse : ℕ → String → Option Claims
parse t token = if token == "session" && ltb t (seconds 50) then some issued_claims else none

both : (a b : Bool) → (a && b) ≡ true → (a ≡ true) × (b ≡ true)
both true b h = (refl, h)
both false b h = cc

same_claims-issued : (c : Claims) → same_claims c ≡ true → issued_claims ≡ c
same_claims-issued c h =
    let (h1, expires) = both _ (nat_eq c.expires (seconds 50)) h in
    let (h2, epoch) = both _ (nat_eq c.epoch 2) h1 in
    let (h3, role) = both _ (c.role == "client") h2 in
    let (subject, name) = both (c.subject == "7") (c.username == "cleo") h3 in
    λ i. record {
      subject = sym ((eq_iff c.subject "7").0 subject) i;
      username = sym ((eq_iff c.username "cleo").0 name) i;
      role = sym ((eq_iff c.role "client").0 role) i;
      epoch = sym ((nat_eq_iff c.epoch 2).0 epoch) i;
      expires = sym ((nat_eq_iff c.expires (seconds 50)).0 expires) i;
    }

signed_here :
    (b : Bool) (token : String)
    → (if b then some "session" else none) ≡ some token
    → (b ≡ true) × ("session" ≡ token)
signed_here true token h = (refl, cc)
signed_here false token h = cc

read_here : (t : ℕ) → t < seconds 50 → parse t "session" ≡ some issued_claims
read_here t early = ground arith

reads_back : ReadsBack whole_seconds sign parse
reads_back c token t end date signed live =
    let (same, sent) = signed_here (same_claims c) token signed in
    let e = same_claims-issued c same in rw (← sent, ← e) (read_here t (rw (← e) at live))

real_token : own_keys.cookie ≢ ""
real_token = λ e. let x : false ≡ true = (eq_iff "session" "").1 e in cc

real_id : cleo.id ≢ ""
real_id = λ e. let x : false ≡ true = (eq_iff "7" "").1 e in cc

session_lasts_example :
    authenticate web
      (record {
        accounts = some accounts;
        verifier = some (verify sign parse (seconds 20));
        token = "";
      })
      own_keys
    ≡ ok (some (public cleo))
unfolding issue api_key_from strip_prefix
session_lasts_example =
    session_lasts whole_seconds sign parse web authn accounts "" "session" own_keys (public cleo)
      (seconds 10 + 7) (seconds 20) (seconds 50 + 7) "cleo" "client" reads_back real_id real_token
      refl (omega arith) refl refl refl refl refl
