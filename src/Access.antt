-- ===== src/Access.antt =====
-- internal/api/access.go and internal/api/auth.go: who may reach which route. Access.Table is the
-- table of the routes, Access.Guard the middleware. What the code asks of net/http, net/url and net
-- is the parameter `Web`.
pub mod Table
pub mod Guard
pub mod Laws
pub mod Handlers
pub mod Logins
pub mod Callers
pub mod Routes
pub mod Scope
pub mod Revocation
pub mod Samples
mod Tests
use Prim.Native.Char.{code}
use Prim.Native.String.{◌++◌ as append}
use trust_proxy.Base.{
  ℕ, String, Bool, true, false, List, [], ◌∷◌, Option, none, some, ◌==◌, ◌&&◌, ◌||◌, not, nat_eq,
  if◌then◌else◌,
}
use trust_proxy.Base.Text.{strip_prefix, equal_fold}

pub data Level : Type 0 where
  access_public access_user access_admin : Level

abbrev pub rank : Level → ℕ
rank access_public = 0
rank access_user = 1
rank access_admin = 2

pub record Request : Type 0 where
  pub method : String
  -- r.URL.Path, decoded, and r.URL.EscapedPath().
  pub path : String
  pub escaped_path : String
  pub host : String
  pub origin : String
  pub api_key : String
  pub authorization : String
  -- The value of the session cookie, "" if there is none.
  pub cookie : String
  pub remote_addr : String

-- Go's net/http, net/url and net.
pub record Web : Type 0 where
  -- The pattern of the table that ServeMux serves a method and an escaped path by; "" for none.
  pub pattern_of : String → String → String
  -- (&url.URL{Path: path}).EscapedPath()
  pub escape : String → String
  -- The host of a parsed URL; `none` for a text that does not parse.
  pub url_host : String → Option String
  -- The host of an address with a port; `none` for another text.
  pub split_host_port : String → Option String
  -- Whether a text is an address of the loopback.
  pub is_loopback_ip : String → Bool

-- The text from its first slash on, and the text before it; `none` where there is no slash.
unfoldable cut_slash : String → Option (String × String)
cut_slash String.[] = none
cut_slash (String.◌∷◌ c s) =
    let rest = cut_slash s in
    if nat_eq (code c) b'/'
    then some (String.[], String.◌∷◌ c s)
    else elim rest [ none ↦ none | some (before, from) ↦ some (String.◌∷◌ c before, from) ]

abbrev pub relayed : Bool × String → Option (String × String) → Option String
relayed (false, _) _ = none
relayed (true, _) none = none
relayed (true, _) (some (_, from)) = some (append "/api" from)

-- The path that a request below a node is forwarded as.
unfoldable pub node_proxy_target : String → Option String
unfolding strip_prefix cut_slash
node_proxy_target p = let below = strip_prefix "/api/nodes/" p in relayed below (cut_slash below.1)

abbrev pub target_or : String → Option String → String
target_or p none = p
target_or p (some target) = target

unfoldable pub path0 : String → String
unfolding node_proxy_target
path0 p = target_or p (node_proxy_target p)

abbrev self_service_split : String → String → Option (String × String) → Option String
self_service_split method rest none = if method == "PATCH" then some rest else none
self_service_split method rest (some (id, from)) =
    if (strip_prefix "/apikeys" from).0 then some id else none

-- The id of the account whose own password or keys a request is about.
unfoldable pub is_self_service : Request → Option String
unfolding strip_prefix cut_slash path0
is_self_service r =
    let below = strip_prefix "/api/users/" (path0 r.path) in
    if below.0 then self_service_split r.method below.1 (cut_slash below.1) else none

unfoldable pub is_mutation : String → Bool
is_mutation method = not (method == "GET" || method == "HEAD" || method == "OPTIONS")

abbrev pub same_host : String → Option String → Bool
same_host host none = false
same_host host (some h) = equal_fold h host

unfoldable costly_public : Request → Bool
unfolding path0
costly_public r =
    let p = path0 r.path in
    r.method == "POST"
    && (p == "/api/auth/login" || p == "/api/auth/bootstrap" || p == "/api/auth/register")

module _ (web : Web) where
  unfoldable pub origin_ok : Request → Bool
  unfolding equal_fold
  origin_ok r = if r.origin == "" then true else same_host r.host (web.url_host r.origin)

  abbrev host_or : String → Option String → String
  host_or remote none = remote
  host_or remote (some host) = host

  unfoldable pub is_loopback : String → Bool
  is_loopback remote = web.is_loopback_ip (host_or remote (web.split_host_port remote))

  unfoldable client_key : Request → String
  client_key r = host_or r.remote_addr (web.split_host_port r.remote_addr)
