-- ===== src/CustomRules.antt =====
-- internal/customrules/store.go: the ordered rules of the operator. The tests of an address (Go's net
-- package) and of a regular expression (Go's regexp package) and the hash of an ID (SHA-256, its
-- first twelve hexadecimal digits) are parameters. The lock is held for a whole operation.
pub mod Operations
pub mod Validity
pub mod Preservation
pub mod History
pub mod Ids
pub mod Order
pub mod Packs
mod Tests
use Prim.Native.String.{◌++◌ as append}
use trust_proxy.Base.{
  ℕ, suc, ◌-◌, String, Bool, true, false, List, [], ◌∷◌, ◌++◌, Option, none, some, ◌==◌, not, ◌&&◌,
  ◌||◌, ltb, nat_eq, if◌then◌else◌, filter, map, get_elem?, set, length, Result, ok, err, ◌>>=◌,
}
use trust_proxy.Base.Text.{trim_space, to_lower, contains_any}
use trust_proxy.ListStore.{Store, Write, Found, no_file, unreadable, holds, mutate}
use trust_proxy.Policy.{CustomRule, normalize_custom_rule, grants_permit, route_egress}
use trust_proxy.Gateway.Allow.{match_key}

-- apitypes.CustomRule: what policy reads, and the rest. Note is carried along and left out.
pub record Rule : Type 0 where
  pub id : String
  pub policy : CustomRule
  pub pack : String

pub data Error : Type 0 where
  bad_match no_value bad_egress bad_action no_axis no_node bad_address bad_regex bad_domain : Error
  not_found no_pack save_failed : Error

abbrev pub valid_egress : String → Bool
valid_egress a =
    a == "direct" || a == "proxy" || a == "block" || a == "node" || a == "none" || a == ""

abbrev trimmed_policy : CustomRule → CustomRule
trimmed_policy r = record r {
  match = trim_space r.match;
  value = trim_space r.value;
  action = trim_space r.action;
  egress = trim_space r.egress;
  node = trim_space r.node;
}

abbrev pub is_domain_match : String → Bool
is_domain_match m = m == "domain" || m == "domain_suffix"

abbrev pub takes_node : String → Bool
takes_node eg = eg == "node" || eg == "proxy"

abbrev pub drop_node : CustomRule → CustomRule
drop_node r = if takes_node (route_egress r) then r else record r { node = "" }

abbrev pub axis_error : CustomRule → Option Error
axis_error r =
    if match_key r.match == ""
    then some bad_match
    else if r.value == ""
    then some no_value
    else if not (r.egress == "") && not (valid_egress r.egress)
    then some bad_egress
    else if not (r.action == "") && not (valid_egress r.action) && not (r.action == "none")
    then some bad_action
    else if not (grants_permit r) && route_egress r == ""
    then some no_axis
    else if route_egress r == "node" && r.node == ""
    then some no_node
    else none

-- The IDs that a rule is given are of the text of its identity.
abbrev pub identity : CustomRule → String
identity r =
    let eg = if route_egress r == "" then r.egress else route_egress r in
    append r.match (
      append "|" (
        append r.value (
          append "|" (
            append eg
              (append "|" (append r.node (append "|" (if grants_permit r then "1" else "0"))))))))

abbrev pub passed : CustomRule → Option Error → Result Error CustomRule
passed r none = ok (drop_node r)
passed r (some e) = err e

abbrev pub lower_value : CustomRule → CustomRule
lower_value r = record r { value = to_lower r.value }

abbrev pub with_policy : Rule → Result Error CustomRule → Result Error Rule
with_policy r (err e) = err e
with_policy r (ok p) = ok (record r { policy = p; pack = trim_space r.pack })

module _ (valid_cidr compiles : String → Bool) where
  abbrev pub check_value : CustomRule → Result Error CustomRule
  check_value r =
      if r.match == "ip_cidr"
      then (if valid_cidr r.value then ok r else err bad_address)
      else if r.match == "regex"
      then (if compiles r.value then ok r else err bad_regex)
      else if is_domain_match r.match
      then (if contains_any (to_lower r.value) " \t" then err bad_domain else ok (lower_value r))
      else ok r

  unfoldable pub validate_policy : CustomRule → Result Error CustomRule
  validate_policy given =
      let r = trimmed_policy (normalize_custom_rule given) in
      passed r (axis_error r) >>= check_value

  unfoldable pub validate : Rule → Result Error Rule
  validate r = with_policy r (validate_policy r.policy)

module _ (hash : String → String) where
  unfoldable pub id_for : Rule → String
  id_for r = hash (identity r.policy)

  abbrev pub with_id : Rule → Rule
  with_id r = record r { id = id_for r }
