-- ===== src/Gateway/Security.antt =====
-- internal/gateway/gateway_security.go: the secret of the Clash API, the management ports, the
-- deny-list, the process and device gates, and the quarantine.
use trust_proxy.Base.{
  ℕ, String, Bool, true, List, [], ◌∷◌, ◌++◌, Option, none, some, ◌==◌, ◌&&◌, not, if◌then◌else◌,
  is_empty, Result, ok, ◌>>=◌, map, filter,
}
use trust_proxy.Base.Text.{contains_any}
use trust_proxy.Json.{
  Json, num, str, bool, obj, field, end, Fields, array, texts, Object, Error, get, set, read_object,
  write_object, put, find,
}
use trust_proxy.Whitelist
use trust_proxy.Blacklist
use trust_proxy.Quarantine
use trust_proxy.Quarantine.{Entry}
use trust_proxy.Gateway.Rules.{
  edit_rules, prelude_len, insert_at, reject_rules, split_domain_matchers,
}

-- if value != "" { m[key] = value }
abbrev pub set_if : String → String → Object → Result Error Object
set_if key value m = if value == "" then ok m else set key (str value) m

abbrev pub edit_clash_api : Object → Object → String → String → Option Json → Result Error Object
edit_clash_api cfg exp secret addr none = ok cfg
edit_clash_api cfg exp secret addr (some raw) = do
  ca ← read_object raw
  ca₁ ← set_if "secret" secret ca
  ca₂ ← set_if "external_controller" addr ca₁
  exp' ← set "clash_api" (write_object ca₂) exp
  set "experimental" (write_object exp') cfg

abbrev pub edit_experimental : Object → String → String → Option Json → Result Error Object
edit_experimental cfg secret addr none = ok cfg
edit_experimental cfg secret addr (some raw) = do
  exp ← read_object raw
  edit_clash_api cfg exp secret addr (get "clash_api" exp)

unfoldable pub inject_clash_secret : Object → String → String → Result Error Object
unfolding find put
inject_clash_secret cfg secret addr =
    if secret == "" && addr == ""
    then ok cfg
    else edit_experimental cfg secret addr (get "experimental" cfg)

abbrev pub management_rule : List ℕ → Json
management_rule ports = obj (
    field "action" (str "route")
      (field "outbound" (str "direct") (field "source_port" (array (map num ports)) end)))

unfoldable pub inject_management : Object → List ℕ → Result Error Object
unfolding edit_rules prelude_len
inject_management cfg ports =
    if is_empty ports
    then ok cfg
    else edit_rules cfg
        λ rules. some (insert_at (prelude_len rules) (management_rule ports ∷ []) rules)

-- Rules that go behind the prelude; nothing is written if there are none.
abbrev pub below_prelude : List Json → List Json → Option (List Json)
below_prelude new rules =
    if is_empty new then none else some (insert_at (prelude_len rules) new rules)

unfoldable pub blacklist_rejects : Blacklist.Rules → List Json
unfolding split_domain_matchers
blacklist_rejects bl =
    let (sfx, rgx) = split_domain_matchers bl.domains in
    reject_rules "domain_suffix" sfx
    ++ reject_rules "domain_regex" rgx
    ++ reject_rules "domain_keyword" bl.keywords
    ++ reject_rules "domain_regex" bl.regexes
    ++ reject_rules "ip_cidr" bl.ips

unfoldable pub inject_blacklist : Object → Blacklist.Rules → Result Error Object
unfolding edit_rules prelude_len blacklist_rejects
inject_blacklist cfg bl = edit_rules cfg (below_prelude (blacklist_rejects bl))

abbrev is_path : String → Bool
is_path p = contains_any p "/\\"

abbrev pub text_field : String → List String → Fields → Fields
text_field key [] rest = rest
text_field key (v ∷ vs) rest = field key (texts (v ∷ vs)) rest

abbrev pub inverted_reject : Fields → Json
inverted_reject matchers = obj (field "action" (str "reject") (field "invert" (bool true) matchers))

unfoldable pub process_gate : List String → List Json
process_gate [] = []
process_gate (p ∷ ps) =
    let names = filter (λ x. not (is_path x)) (p ∷ ps) in
    let paths = filter is_path (p ∷ ps) in
    inverted_reject (text_field "process_name" names (text_field "process_path" paths end)) ∷ []

unfoldable pub device_gate : List String → List Json
device_gate [] = []
device_gate (d ∷ ds) = inverted_reject (text_field "source_ip_cidr" (d ∷ ds) end) ∷ []

unfoldable pub floor_rejects : Whitelist.Rules → List Json
unfolding process_gate device_gate contains_any
floor_rejects wl = process_gate wl.processes ++ device_gate wl.devices

unfoldable pub inject_process_device_floor : Object → Whitelist.Rules → Result Error Object
unfolding edit_rules prelude_len floor_rejects
inject_process_device_floor cfg wl =
    if is_empty wl.processes && is_empty wl.devices
    then ok cfg
    else edit_rules cfg λ rules. some (insert_at (prelude_len rules) (floor_rejects wl) rules)

abbrev pub address_rejects : List String → List String → List Json
address_rejects names ips =
    let (sfx, rgx) = split_domain_matchers names in
    reject_rules "domain_suffix" sfx
    ++ reject_rules "domain_regex" rgx
    ++ reject_rules "ip_cidr" ips

unfoldable pub quarantine_rejects : List Entry → List Json
quarantine_rejects q = address_rejects (Quarantine.domains q) (Quarantine.ips q)

unfoldable pub inject_quarantine : Object → List Entry → Result Error Object
unfolding edit_rules prelude_len quarantine_rejects
inject_quarantine cfg q =
    if is_empty (Quarantine.domains q) && is_empty (Quarantine.ips q)
    then ok cfg
    else edit_rules cfg λ rules. some (insert_at (prelude_len rules) (quarantine_rejects q) rules)
