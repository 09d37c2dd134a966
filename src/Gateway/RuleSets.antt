-- ===== src/Gateway/RuleSets.antt =====
-- internal/gateway/gateway_rulesets.go: the descriptors of the imported rule sets, the HTTP client
-- that fetches them, the cache file, and the rejects of the sets whose role is deny. The path of the
-- cache (filepath.Join of the data directory and "cache.db") is an argument.
use trust_proxy.Base.{
  String, Bool, true, false, List, [], ◌∷◌, ◌++◌, Option, none, some, ◌==◌, ◌&&◌, ◌||◌, not,
  if◌then◌else◌, is_empty, Result, ok, err, ◌>>=◌, any, all, filter,
}
use trust_proxy.Json.{
  Json, null, str, bool, obj, field, end, Fields, array, Object, Error, malformed, get, set,
  read_object, read_list, write_object, put, find, text_at,
}
use trust_proxy.Policy.{rule_role_is_deny}
use trust_proxy.Gateway.Rules.{prelude_len, insert_at, reject_rules}

-- apitypes.RuleSet, without the name that is shown.
pub record RuleSet : Type 0 where
  pub tag : String
  pub type : String
  pub format : String
  pub url : String
  pub path : String
  pub download_detour : String
  pub update_interval : String
  pub role : String
  pub enabled : Bool

abbrev pub rule_set_http_client_tag : String
rule_set_http_client_tag = "rule-set-fetch"

abbrev is_map : Json → Bool
is_map null = true
is_map (obj _) = true
is_map _ = false

abbrev pub declare_in : Object → List Json → Result Error Object
declare_in cfg clients =
    if not (all is_map clients)
    then err malformed
    else if any (λ c. text_at "tag" c == rule_set_http_client_tag) clients
    then ok cfg
    else set "http_clients"
        (array (clients ++ obj (field "tag" (str rule_set_http_client_tag) end) ∷ [])) cfg

pub declare_rule_set_http_client : Object → Result Error Object
unfolding find put text_at
declare_rule_set_http_client cfg = do
  clients ← read_list (get "http_clients" cfg)
  declare_in cfg clients

abbrev is_active : RuleSet → Bool
is_active rs = rs.enabled && not (rs.tag == "")

unfoldable pub enabled_sets : List RuleSet → List RuleSet
enabled_sets sets = filter is_active sets

-- Whether the set is fetched by the shared client.
abbrev uses_shared_client : RuleSet → Bool
uses_shared_client rs =
    not (rs.type == "local") && (rs.download_detour == "" || rs.download_detour == "direct")

abbrev http_client : RuleSet → Json
http_client rs =
    if uses_shared_client rs
    then str rule_set_http_client_tag
    else obj (field "detour" (str rs.download_detour) end)

unfoldable descriptor : RuleSet → Json
descriptor rs =
    let head = λ (rest : Fields). obj (
      field "type" (str rs.type)
        (field "tag" (str rs.tag) (field "format" (str rs.format) rest))) in
    if rs.type == "local"
    then head (field "path" (str rs.path) end)
    else head (
        field "url" (str rs.url) (
          field "http_client" (http_client rs)
            (field "update_interval" (str rs.update_interval) end)))

-- The loop over the enabled sets: what is seen, the descriptors that are added, and whether one of
-- them needs the shared client.
pub add_descriptors : List String → List RuleSet → List Json × Bool
unfolding descriptor
add_descriptors seen [] = ([], false)
add_descriptors seen (rs ∷ sets) =
    let old = add_descriptors seen sets in
    let new = add_descriptors (rs.tag ∷ seen) sets in
    if any (λ t. t == rs.tag) seen
    then old
    else (descriptor rs ∷ new.0, uses_shared_client rs || new.1)

pub tags_seen : List Json → List String
unfolding text_at
tags_seen [] = []
tags_seen (d ∷ ds) = if text_at "tag" d == "" then tags_seen ds else text_at "tag" d ∷ tags_seen ds

unfoldable pub deny_tags : List RuleSet → List String
deny_tags [] = []
deny_tags (rs ∷ sets) =
    if rule_role_is_deny rs.role then rs.tag ∷ deny_tags sets else deny_tags sets

unfoldable pub rule_set_rejects : List RuleSet → List Json
unfolding deny_tags enabled_sets
rule_set_rejects sets = reject_rules "rule_set" (deny_tags (enabled_sets sets))

-- experimental, {} if it is not there.
abbrev pub read_experimental : Option Json → Result Error Object
read_experimental none = ok (some end)
read_experimental (some raw) = read_object raw

abbrev cache_file : String → Json
cache_file path = obj (field "enabled" (bool true) (field "path" (str path) end))

abbrev pub add_cache_file : String → Object → Option Json → Result Error Object
add_cache_file path exp none = set "cache_file" (cache_file path) exp
add_cache_file path exp (some _) = ok exp

unfoldable pub ensure_cache_file : Object → String → Result Error Object
unfolding find put
ensure_cache_file cfg path = do
  exp ← read_experimental (get "experimental" cfg)
  exp' ← add_cache_file path exp (get "cache_file" exp)
  set "experimental" (write_object exp') cfg

abbrev pub declare_if : Bool → Object → Result Error Object
declare_if true cfg = declare_rule_set_http_client cfg
declare_if false cfg = ok cfg

-- The rejects go behind the prelude; with none the rules are not read.
abbrev pub put_rejects : List Json → Object → Result Error Object
put_rejects [] route = ok route
put_rejects (r ∷ rs) route = do
  rules ← read_list (get "rules" route)
  set "rules" (array (insert_at (prelude_len rules) (r ∷ rs) rules)) route

abbrev pub inject_into : Object → List RuleSet → String → Option Json → Result Error Object
inject_into cfg sets path none = ok cfg
inject_into cfg sets path (some raw) = do
  route ← read_object raw
  descriptors ← read_list (get "rule_set" route)
  let added = add_descriptors (tags_seen descriptors) (enabled_sets sets)
  route₁ ← set "rule_set" (array (descriptors ++ added.0)) route
  cfg₁ ← declare_if added.1 cfg
  route₂ ← put_rejects (rule_set_rejects sets) route₁
  cfg₂ ← set "route" (write_object route₂) cfg₁
  ensure_cache_file cfg₂ path

unfoldable pub inject_rule_sets : Object → List RuleSet → String → Result Error Object
unfolding find put declare_rule_set_http_client ensure_cache_file enabled_sets add_descriptors
    tags_seen rule_set_rejects prelude_len
inject_rule_sets cfg sets path =
    if is_empty (enabled_sets sets) then ok cfg else inject_into cfg sets path (get "route" cfg)
