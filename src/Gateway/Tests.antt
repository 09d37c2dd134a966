-- ===== src/Gateway/Tests.antt =====
-- The theorems on the layers at a small router and configuration.
mod Router
use trust_proxy.Base.{
  String, Bool, true, false, List, [], ◌∷◌, Option, none, some, ◌≡◌, refl, arith, if◌then◌else◌,
  ◌==◌, ◌||◌, not, any, inr, Result, ok, err,
}
use trust_proxy.Json.{
  Json, null, bool, num, str, arr, obj, nil, cons, Items, Fields, end, field, of_items, find,
  text_at,
}
use trust_proxy.Json.{Object, array}
use trust_proxy.DirectList
use trust_proxy.FinalRoute
use trust_proxy.Quarantine
use trust_proxy.Policy.{
  CustomRule, rule_role_grants_permit, grants_permit, normalize_custom_rule, rule_role_route_egress,
  route_egress,
}
use trust_proxy.Gateway.Rules.{is_catch_all_rule}
use trust_proxy.Gateway.Rules.Laws.{rules_of}
use trust_proxy.Gateway.Security.{floor_rejects, quarantine_rejects, blacklist_rejects}
use trust_proxy.Gateway.RuleSets.{RuleSet, rule_set_rejects}
use trust_proxy.Gateway.Allow.{
  Policy, gate, resolve_rule, catch_all, sub_rules, egress_rules, has_user_permit,
}
use trust_proxy.Gateway.Layers.{Inputs, inject_policy}
use trust_proxy.Gateway.Layers.Layout.{Base, layers, base_rules, policy_rules, policy_rules-layers}
use trust_proxy.Gateway.Layers.Documents.{inject_policy-layers}
use trust_proxy.Gateway.Axes.{permit_ignores_route}
use trust_proxy.Gateway.Verdicts.{
  Arrives, default_deny, floor_first, management_first, permitted_final,
}
use trust_proxy.Gateway.Engine.{Engine, Verdict, rejected, routed, unmatched}
use trust_proxy.Gateway.Tests.Router.{walk, walk-skips, labels, sniff, base, policy, inputs, hits}

-- Sniffing keeps the flow.
sniffed : (f : List String) (xs : List Json) → walk (sniff ∷ xs) f ≡ walk xs f
unfolding hits is_catch_all_rule find
sniffed f xs = walk-skips sniff xs f refl

Arrives-new : Arrives labels base inputs ("new.com" ∷ []) ("new.com" ∷ [])
unfolding hits is_catch_all_rule find floor_rejects rule_set_rejects quarantine_rejects
    blacklist_rejects base Quarantine.domains Quarantine.ips
Arrives-new = record {
  prelude = sniffed ("new.com" ∷ []);
  management = (refl, tt);
  floor = (refl, tt);
  middle = tt;
  rule_mode = refl;
}

Arrives-ok : Arrives labels base inputs ("ok.com" ∷ []) ("ok.com" ∷ [])
unfolding hits is_catch_all_rule find floor_rejects rule_set_rejects quarantine_rejects
    blacklist_rejects base Quarantine.domains Quarantine.ips
Arrives-ok = record {
  prelude = sniffed ("ok.com" ∷ []);
  management = (refl, tt);
  floor = (refl, tt);
  middle = tt;
  rule_mode = refl;
}

default_deny_example : walk (layers base inputs) ("new.com" ∷ []) ≡ routed "blocked"
unfolding hits is_catch_all_rule find sub_rules
default_deny_example =
    default_deny labels base inputs ("new.com" ∷ []) ("new.com" ∷ []) Arrives-new refl
      (refl, (refl, tt))

floor_first_example : walk (layers base inputs) ("bad.com" ∷ []) ≡ rejected
unfolding hits is_catch_all_rule find floor_rejects rule_set_rejects quarantine_rejects
    blacklist_rejects base Quarantine.domains Quarantine.ips
floor_first_example =
    floor_first labels base inputs ("bad.com" ∷ []) ("bad.com" ∷ []) (sniffed ("bad.com" ∷ []))
      (refl, tt) refl

permitted_final_example : walk (layers base inputs) ("ok.com" ∷ []) ≡ routed "proxy"
unfolding hits is_catch_all_rule find sub_rules egress_rules has_user_permit FinalRoute.resolve
permitted_final_example =
    permitted_final labels base inputs ("ok.com" ∷ []) ("ok.com" ∷ []) Arrives-ok
      (inr (refl, refl, refl)) (refl, tt)

abbrev lan : DirectList.Rules
lan = record {
  domains = "lan" ∷ [];
  ips = "10.1.0.0/16" ∷ [];
  notes = none;
  private_direct = some false;
}

abbrev geo_set : String → RuleSet
geo_set role = record {
  tag = "geosite-cn";
  type = "remote";
  format = "binary";
  url = "https://example.com/geosite-cn.srs";
  path = "";
  download_detour = "direct";
  update_interval = "1d";
  role = role;
  enabled = true;
}

abbrev custom : String → Option Bool → CustomRule
custom egress permit = record {
  match = "domain";
  value = "x.com";
  action = "";
  egress = egress;
  permit = permit;
  node = "";
  enabled = true;
}

permit_ignores_route_example :
    let q = record policy {
      direct_list = lan;
      final = "direct";
      sets = geo_set "route-direct" ∷ [];
      custom = custom "proxy" (some false) ∷ [];
    } in
    (sub_rules q ≡ sub_rules policy) × (has_user_permit q ≡ has_user_permit policy)
unfolding rule_role_grants_permit grants_permit normalize_custom_rule
permit_ignores_route_example =
    permit_ignores_route policy lan "direct" (geo_set "route-direct") (custom "proxy" (some false))
      refl refl

abbrev document : Object
document =
    some (field "route" (obj (field "rules" (array (sniff ∷ catch_all "blocked" ∷ [])) end)) end)

abbrev value {ℓ κ} : {E : Type ℓ} {A : Type κ} → A → Result E A → A
value d (ok a) = a
value d (err e) = d

-- What the injectors make of the document.
abbrev merged : Object
unfolding inject_policy
merged = value none (inject_policy document inputs)

inject_policy-layers_example : rules_of merged ≡ some (layers base inputs)
unfolding base inject_policy rules_of merged Quarantine.domains Quarantine.ips
inject_policy-layers_example = inject_policy-layers base inputs document merged refl refl
