-- ===== src/Access/Table.antt =====
-- internal/api/access.go: routeLevels, in groups. The relay of the nodes stands among the admin
-- routes, as it does in the source.
use trust_proxy.Base.{String, List, [], ◌∷◌, ◌++◌, Option, none, some, ◌==◌, if◌then◌else◌}
use trust_proxy.Access.{
  Level, access_public, access_user, access_admin, Web, Request, node_proxy_target,
}

abbrev pub Entry : Type 0
Entry = String × Level

-- The routes that anyone who can reach the port may call.
abbrev pub public_routes : List Entry
public_routes =
    ("GET /api/health", access_public)
    ∷ ("GET /api/auth/state", access_public)
    ∷ ("POST /api/auth/bootstrap", access_public)
    ∷ ("POST /api/auth/login", access_public)
    ∷ ("POST /api/auth/logout", access_public)
    ∷ ("POST /api/auth/register", access_public)
    ∷ ("GET /api/auth/ticket", access_public)
    ∷ []

-- The routes of any account that is logged in.
abbrev pub client_routes : List Entry
client_routes =
    ("GET /api/status", access_user)
    ∷ ("GET /api/auth/me", access_user)
    ∷ ("POST /api/auth/ticket", access_user)
    ∷ ("GET /api/connections", access_user)
    ∷ ("GET /api/traffic", access_user)
    ∷ ("GET /api/events", access_user)
    ∷ ("GET /api/detections", access_user)
    ∷ ("GET /api/history", access_user)
    ∷ ("GET /api/proxies", access_user)
    ∷ ("GET /api/proxy-scores", access_user)
    ∷ ("POST /api/permit-requests", access_user)
    ∷ ("GET /api/permit-requests", access_user)
    ∷ []

abbrev pub engine_routes : List Entry
engine_routes =
    ("GET /api/logs", access_admin)
    ∷ ("GET /api/history/stats", access_admin)
    ∷ ("GET /api/detections/stats", access_admin)
    ∷ ("GET /api/dns-queries/stats", access_admin)
    ∷ ("GET /api/netcheck", access_admin)
    ∷ ("GET /api/fingerprints", access_admin)
    ∷ ("GET /api/effective-rules", access_admin)
    ∷ ("GET /api/rules", access_admin)
    ∷ ("GET /api/proxies/{name}/delay", access_admin)
    ∷ ("PUT /api/proxies/select", access_admin)
    ∷ ("GET /api/mode", access_admin)
    ∷ ("POST /api/mode", access_admin)
    ∷ ("POST /api/mode/confirm", access_admin)
    ∷ ("GET /api/posture", access_admin)
    ∷ ("PUT /api/posture", access_admin)
    ∷ ("POST /api/autoblock", access_admin)
    ∷ ("GET /api/clash-mode", access_admin)
    ∷ ("PUT /api/clash-mode", access_admin)
    ∷ ("POST /api/doctor/nftables/install", access_admin)
    ∷ ("GET /api/subscriptions", access_admin)
    ∷ ("POST /api/subscriptions", access_admin)
    ∷ ("DELETE /api/subscriptions/{id}", access_admin)
    ∷ ("GET /api/subscriptions/{id}/export", access_admin)
    ∷ ("POST /api/subscriptions/{id}/refresh", access_admin)
    ∷ ("POST /api/subscriptions/{id}/apply", access_admin)
    ∷ ("POST /api/subscriptions/{id}/unapply", access_admin)
    ∷ ("GET /api/proxy-gen/protocols", access_admin)
    ∷ ("POST /api/proxy-gen", access_admin)
    ∷ []

abbrev pub policy_routes : List Entry
policy_routes =
    ("DELETE /api/connections/{id}", access_admin)
    ∷ ("DELETE /api/connections", access_admin)
    ∷ ("GET /api/detection-config", access_admin)
    ∷ ("PUT /api/detection-config", access_admin)
    ∷ ("GET /api/quarantine", access_admin)
    ∷ ("DELETE /api/quarantine", access_admin)
    ∷ ("POST /api/quarantine/permit", access_admin)
    ∷ ("GET /api/whitelist", access_admin)
    ∷ ("POST /api/whitelist", access_admin)
    ∷ ("DELETE /api/whitelist", access_admin)
    ∷ ("GET /api/blacklist", access_admin)
    ∷ ("POST /api/blacklist", access_admin)
    ∷ ("DELETE /api/blacklist", access_admin)
    ∷ ("GET /api/directlist", access_admin)
    ∷ ("POST /api/directlist", access_admin)
    ∷ ("DELETE /api/directlist", access_admin)
    ∷ ("PUT /api/directlist/private", access_admin)
    ∷ ("GET /api/customrules", access_admin)
    ∷ ("POST /api/customrules", access_admin)
    ∷ ("PATCH /api/customrules/{id}", access_admin)
    ∷ ("DELETE /api/customrules/{id}", access_admin)
    ∷ ("POST /api/customrules/{id}/move", access_admin)
    ∷ ("GET /api/customrules/packs/catalog", access_admin)
    ∷ ("POST /api/customrules/packs/apply", access_admin)
    ∷ ("PATCH /api/customrules/packs/{name}", access_admin)
    ∷ ("DELETE /api/customrules/packs/{name}", access_admin)
    ∷ ("POST /api/permit-requests/{id}/approve", access_admin)
    ∷ ("DELETE /api/permit-requests/{id}", access_admin)
    ∷ ("GET /api/proxygroups", access_admin)
    ∷ ("PUT /api/proxygroups", access_admin)
    ∷ ("POST /api/proxy-scores/reset", access_admin)
    ∷ ("GET /api/rulesets", access_admin)
    ∷ ("GET /api/rulesets/catalog", access_admin)
    ∷ ("GET /api/rulesets/{tag}/rules", access_admin)
    ∷ ("POST /api/rulesets", access_admin)
    ∷ ("PATCH /api/rulesets/{tag}", access_admin)
    ∷ ("DELETE /api/rulesets/{tag}", access_admin)
    ∷ []

abbrev pub machine_routes : List Entry
machine_routes =
    ("GET /api/nodes", access_admin)
    ∷ ("POST /api/nodes", access_admin)
    ∷ ("PATCH /api/nodes/{id}", access_admin)
    ∷ ("DELETE /api/nodes/{id}", access_admin)
    ∷ ("/api/nodes/{id}/{rest...}", access_user)
    ∷ ("GET /api/dns", access_admin)
    ∷ ("PUT /api/dns", access_admin)
    ∷ ("GET /api/final", access_admin)
    ∷ ("PUT /api/final", access_admin)
    ∷ ("GET /api/tun", access_admin)
    ∷ ("PUT /api/tun", access_admin)
    ∷ ("GET /api/inbound", access_admin)
    ∷ ("PUT /api/inbound", access_admin)
    ∷ ("POST /api/inbound/confirm", access_admin)
    ∷ ("GET /api/retention", access_admin)
    ∷ ("PUT /api/retention", access_admin)
    ∷ ("GET /api/defaults", access_admin)
    ∷ ("GET /api/endpoints", access_admin)
    ∷ ("POST /api/endpoints", access_admin)
    ∷ ("PATCH /api/endpoints/{tag}", access_admin)
    ∷ ("DELETE /api/endpoints/{tag}", access_admin)
    ∷ ("GET /api/node-overrides", access_admin)
    ∷ ("PUT /api/node-overrides", access_admin)
    ∷ ("PATCH /api/node-overrides", access_admin)
    ∷ ("POST /api/nodes/disable", access_admin)
    ∷ ("POST /api/nodes/enable", access_admin)
    ∷ ("GET /api/profiles", access_admin)
    ∷ ("POST /api/profiles", access_admin)
    ∷ ("POST /api/profiles/{id}/activate", access_admin)
    ∷ ("DELETE /api/profiles/{id}", access_admin)
    ∷ []

abbrev pub account_routes : List Entry
account_routes =
    ("GET /api/auth/settings", access_admin)
    ∷ ("PUT /api/auth/settings", access_admin)
    ∷ ("GET /api/users", access_admin)
    ∷ ("POST /api/users", access_admin)
    ∷ ("PATCH /api/users/{id}", access_admin)
    ∷ ("DELETE /api/users/{id}", access_admin)
    ∷ ("POST /api/users/{id}/apikeys", access_admin)
    ∷ ("DELETE /api/users/{id}/apikeys/{keyID}", access_admin)
    ∷ []

abbrev pub route_levels : List Entry
route_levels =
    public_routes ++ client_routes ++ engine_routes ++ policy_routes ++ machine_routes
    ++ account_routes

unfoldable pub lookup : String → List Entry → Option Level
lookup pattern [] = none
lookup pattern ((p, l) ∷ table) = if p == pattern then some l else lookup pattern table

abbrev pub level_or_admin : Option Level → Level
level_or_admin none = access_admin
level_or_admin (some l) = l

abbrev pub at_least_user : Level → Level
at_least_user access_public = access_user
at_least_user l = l

module _ (web : Web) where
  -- The path that is looked up, which is not empty.
  abbrev pub probe_path : String → String
  probe_path path = let escaped = web.escape path in if escaped == "" then "/" else escaped

  unfoldable pub level_of : String → String → Level
  level_of method path =
      level_or_admin (lookup (web.pattern_of method (probe_path path)) route_levels)

  abbrev pub required : Request → Option String → Level
  required r none = level_of r.method r.escaped_path
  required r (some target) = at_least_user (level_of r.method target)

  unfoldable pub requirement : Request → Level
  requirement r = required r (node_proxy_target r.path)
