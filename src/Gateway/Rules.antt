-- ===== src/Gateway/Rules.antt =====
-- internal/gateway/gateway.go and gateway_allow.go: what the injectors share. Route rules are decoded
-- JSON; keys are matched as they are spelled.
pub mod Laws
use Prim.Native.Char.{Char, code}
use Prim.Native.String
use trust_proxy.Base.{
  ℕ, suc, String, Bool, true, false, List, [], ◌∷◌, ◌++◌, Option, none, some, ◌==◌, ◌&&◌, ◌||◌, not,
  if◌then◌else◌, any, all, is_empty, take, drop, length, nat_eq, Result, ok, err, ◌>>=◌, map,
}
use trust_proxy.Base.Text.{contains_any, char_in}
use trust_proxy.Json.{
  Json, null, bool, num, str, arr, obj, Fields, end, field, Items, items, array, texts, find, put,
  Object, read_object, write_object, get, set, read_list, text_at, fields, Error,
}

abbrev pub private_cidrs : List String
private_cidrs =
    "10.0.0.0/8" ∷ "172.16.0.0/12" ∷ "192.168.0.0/16" ∷ "127.0.0.0/8" ∷ "169.254.0.0/16"
    ∷ "100.64.0.0/10" ∷ "::1/128" ∷ "fc00::/7" ∷ "fe80::/10" ∷ []

abbrev pub is_prelude : Json → Bool
is_prelude r = let action = text_at "action" r in action == "sniff" || action == "hijack-dns"

unfoldable pub prelude_len : List Json → ℕ
unfolding text_at
prelude_len [] = 0
prelude_len (r ∷ rs) = let rest = suc (prelude_len rs) in if is_prelude r then rest else 0

unfoldable str_slice_items : Items → List String
str_slice_items Items.nil = []
str_slice_items (Items.cons (str s) vs) = s ∷ str_slice_items vs
str_slice_items (Items.cons _ vs) = str_slice_items vs

-- A JSON array of texts that may be absent or a bare text.
unfoldable pub str_slice_of : Option Json → List String
unfolding str_slice_items
str_slice_of (some (str s)) = s ∷ []
str_slice_of (some (arr vs)) = str_slice_items vs
str_slice_of _ = []

abbrev pub bare_key : String → Bool
bare_key k = k == "network" || k == "action" || k == "outbound"

unfoldable pub only_bare_keys : Fields → Bool
only_bare_keys end = true
only_bare_keys (field k v fs) = bare_key k && only_bare_keys fs

unfoldable pub is_catch_all_rule : Json → Bool
unfolding str_slice_of only_bare_keys find
is_catch_all_rule (obj fs) =
    let networks = str_slice_of (find "network" fs) in
    any (λ n. n == "tcp") networks && any (λ n. n == "udp") networks && only_bare_keys fs
is_catch_all_rule _ = false

unfoldable pub catch_all_idx : List Json → ℕ
unfolding is_catch_all_rule
catch_all_idx [] = 0
catch_all_idx (r ∷ rs) =
    let rest = suc (catch_all_idx rs) in if is_catch_all_rule r then 0 else rest

-- rules[:at], then the new rules, then rules[at:].
abbrev pub insert_at : ℕ → List Json → List Json → List Json
insert_at at new rules = take at rules ++ new ++ drop at rules

-- The frame that every injector repeats: decode the route and its rules, and write back the rules
-- that it makes of them. `none` leaves the document alone, and so does a document with no route.
abbrev pub write_rules : Object → Object → List Json → Result Error Object
write_rules cfg route rules = do
  route' ← set "rules" (array rules) route
  set "route" (write_object route') cfg

abbrev pub write_if : Object → Object → Option (List Json) → Result Error Object
write_if cfg route none = ok cfg
write_if cfg route (some rules) = write_rules cfg route rules

abbrev pub edit_route :
    Object → (List Json → Option (List Json)) → Option Json → Result Error Object
edit_route cfg f none = ok cfg
edit_route cfg f (some raw) = do
  route ← read_object raw
  rules ← read_list (get "rules" route)
  write_if cfg route (f rules)

unfoldable pub edit_rules : Object → (List Json → Option (List Json)) → Result Error Object
unfolding find put
edit_rules cfg f = edit_route cfg f (get "route" cfg)

-- Rules that the injectors make, their keys in the order in which Go writes them.
abbrev pub reject_rule : String → List String → Json
reject_rule key values = obj (field "action" (str "reject") (field key (texts values) end))

abbrev pub reject_rules : String → List String → List Json
reject_rules key [] = []
reject_rules key (v ∷ vs) = reject_rule key (v ∷ vs) ∷ []

abbrev pub route_rule : String → List String → String → Json
route_rule key values outbound =
    obj (
      field "action" (str "route") (field key (texts values) (field "outbound" (str outbound) end)))

abbrev pub route_rules : String → List String → String → List Json
route_rules key [] outbound = []
route_rules key (v ∷ vs) outbound = route_rule key (v ∷ vs) outbound ∷ []

abbrev meta : String
meta = "\\.+*?()|[]{}^$"

-- regexp.QuoteMeta of one character.
abbrev quote_meta : Char → String
quote_meta c =
    if char_in meta c then String.◌++◌ "\\" (String.◌∷◌ c String.[]) else String.◌∷◌ c String.[]

unfoldable glob_body : String → String
glob_body String.[] = "$"
glob_body (String.◌∷◌ c s) =
    String.◌++◌
      (if nat_eq (code c) b'*' then ".*" else if nat_eq (code c) b'?' then "." else quote_meta c)
      (glob_body s)

unfoldable glob_to_regex : String → String
unfolding glob_body
glob_to_regex g = String.◌++◌ "^" (glob_body g)

-- The plain entries, and the globs as regular expressions.
unfoldable pub split_domain_matchers : List String → List String × List String
unfolding glob_to_regex contains_any
split_domain_matchers [] = ([], [])
split_domain_matchers (d ∷ ds) =
    let rest = split_domain_matchers ds in
    if contains_any d "*?" then (rest.0, glob_to_regex d ∷ rest.1) else (d ∷ rest.0, rest.1)
