-- ===== src/Gateway/Mode.antt =====
-- internal/gateway/gateway_mode.go: the switch to the Clash mode "Global".
use trust_proxy.Base.{String, [], ◌∷◌, Option, none, some, Result, ok, ◌>>=◌}
use trust_proxy.Json.{
  Json, str, obj, field, end, Object, Error, get, set, read_object, write_object, put, find,
}
use trust_proxy.Gateway.Rules.{edit_rules, insert_at, catch_all_idx}
use trust_proxy.Gateway.RuleSets.{ensure_cache_file}

abbrev pub global_rule : Json
global_rule = obj (
    field "action" (str "route")
      (field "clash_mode" (str "Global") (field "outbound" (str "proxy") end)))

abbrev pub default_mode : String → Object → Option Json → Result Error Object
default_mode mode ca none = set "default_mode" (str mode) ca
default_mode mode ca (some _) = ok ca

abbrev pub mode_in_api : Object → Object → String → Option Json → Result Error Object
mode_in_api cfg exp mode none = ok cfg
mode_in_api cfg exp mode (some raw) = do
  ca ← read_object raw
  ca' ← default_mode mode ca (get "default_mode" ca)
  exp' ← set "clash_api" (write_object ca') exp
  set "experimental" (write_object exp') cfg

abbrev pub mode_in_experimental : Object → String → Option Json → Result Error Object
mode_in_experimental cfg mode none = ok cfg
mode_in_experimental cfg mode (some raw) = do
  exp ← read_object raw
  mode_in_api cfg exp mode (get "clash_api" exp)

unfoldable pub set_clash_default_mode : Object → String → Result Error Object
unfolding find put
set_clash_default_mode cfg mode = mode_in_experimental cfg mode (get "experimental" cfg)

abbrev pub global_if : Object → String → Option Json → Result Error Object
global_if cfg path none = ok cfg
global_if cfg path (some _) = do
  cfg₁ ← edit_rules cfg λ rules. some (insert_at (catch_all_idx rules) (global_rule ∷ []) rules)
  cfg₂ ← set_clash_default_mode cfg₁ "Rule"
  ensure_cache_file cfg₂ path

unfoldable pub inject_clash_mode_global : Object → String → Result Error Object
unfolding find edit_rules catch_all_idx set_clash_default_mode ensure_cache_file
inject_clash_mode_global cfg path = global_if cfg path (get "route" cfg)
