-- ===== src/CustomRules/Tests.antt =====
-- The theorems on custom rules at a few rules.
use trust_proxy.Base.{
  suc, ◌≤◌, String, Bool, true, false, List, [], ◌∷◌, none, some, ◌≡◌, ◌≢◌, refl, arith, ◌==◌, ok,
  eq_iff, Bool-cases, inl, inr, ◌+◌,
}
use trust_proxy.Base.Text.{trim_space, contains_any, to_lower}
use trust_proxy.ListStore.{Store, Write, wrote, failed, no_file}
use trust_proxy.Policy.{normalize_custom_rule, grants_permit, route_egress}
use trust_proxy.CustomRules.{Rule, validate, validate_policy, with_id, id_for}
use trust_proxy.CustomRules.Operations.{Patch, add, find, update, open_store}
use trust_proxy.CustomRules.Preservation.{
  Call, add_call, update_call, move_call, remove_pack_call, AreValid,
}
use trust_proxy.CustomRules.History.{run, open_run-AreValid}
use trust_proxy.CustomRules.Ids.{one_if, count_id, add-find, update_duplicates}

abbrev valid_cidr : String → Bool
valid_cidr s = s == "10.0.0.0/8"

abbrev compiles : String → Bool
compiles s = true

-- A hash that tells the rules below apart.
abbrev hash : String → String
hash text = text

abbrev rule : String → String → String → String → Rule
rule id value egress pack = record {
  id = id;
  policy = record {
    match = "domain";
    value = value;
    action = egress;
    egress = egress;
    permit = some true;
    node = "";
    enabled = true;
  };
  pack = pack;
}

abbrev a_id : String
a_id = "domain|a.com|direct||1"

abbrev b_id : String
b_id = "domain|b.com|proxy||1"

abbrev a_rule : Rule
a_rule = rule a_id "a.com" "direct" ""

abbrev b_rule : Rule
b_rule = rule b_id "b.com" "proxy" "tools"

abbrev c_rule : Rule
c_rule = rule "" " C.com " "direct" "tools"

abbrev c_valid : Rule
c_valid = rule "" "c.com" "direct" "tools"

abbrev both_rules : List Rule
both_rules = a_rule ∷ b_rule ∷ []

abbrev store : Store (List Rule)
store = record { current = both_rules; file = none }

abbrev to_a : Patch
to_a = record {
  enabled = none;
  match = none;
  value = some "a.com";
  action = some "direct";
  egress = none;
  permit = none;
  node = none;
  pack = none;
}

a_is_not_b : b_id ≢ a_id
a_is_not_b = λ e. let x : false ≡ true = (eq_iff b_id a_id).1 e in cc

c_is_valid : validate valid_cidr compiles c_rule ≡ ok c_valid
unfolding validate validate_policy normalize_custom_rule grants_permit route_egress trim_space
    to_lower contains_any
c_is_valid = refl

update_duplicates_example :
    count_id a_id (update valid_cidr compiles hash store b_id to_a wrote).0.current
    ≡ suc (count_id a_id both_rules)
unfolding validate validate_policy normalize_custom_rule grants_permit route_egress trim_space
    to_lower contains_any find id_for
update_duplicates_example =
    update_duplicates valid_cidr compiles hash store b_id to_a b_rule
      (rule b_id "a.com" "direct" "tools") wrote refl refl a_is_not_b

abbrev c_id : String
c_id = "domain|c.com|direct||1"

distinct_ids : (x : String) → count_id x both_rules ≤ 1
distinct_ids x = elim (Bool-cases (a_id == x)) [
  | inl e ↦ rw (← (eq_iff a_id x).0 e) (omega arith)
  | inr e ↦ rw e (bound (b_id == x))
]
  where
    bound : (b : Bool) → 0 + (one_if b + 0) ≤ 1
    bound true = omega arith
    bound false = omega arith

c_is_not_b : id_for hash c_valid ≢ b_id
unfolding id_for grants_permit route_egress
c_is_not_b = λ e. let x : false ≡ true = (eq_iff c_id b_id).1 e in cc

add-find_example :
    let after = (add valid_cidr compiles hash store c_rule (failed none)).0.current in
    ((x : String) → count_id x after ≤ 1)
    × (find (id_for hash c_valid) after ≡ some (with_id hash c_valid))
    × (find b_id after ≡ find b_id both_rules)
add-find_example =
    add-find valid_cidr compiles hash store c_rule c_valid (failed none) b_id distinct_ids
      c_is_valid c_is_not_b

abbrev tools : String
tools = "tools"

tools_named : tools ≢ ""
tools_named = λ e. let x : false ≡ true = (eq_iff "tools" "").1 e in cc

abbrev calls : List (Call × Write (List Rule))
calls =
    (add_call c_rule, wrote)
    ∷ (update_call b_id to_a, failed none)
    ∷ (move_call a_id false, wrote)
    ∷ (remove_pack_call "tools", wrote)
    ∷ []

abbrev opened : Store (List Rule)
opened = record { current = []; file = some [] }

open_run-AreValid_example :
    AreValid valid_cidr compiles hash (run valid_cidr compiles hash calls opened).current
unfolding open_store
open_run-AreValid_example =
    open_run-AreValid valid_cidr compiles hash no_file wrote opened none calls refl
      (tt, (tt, (tt, (tt, tt))))
