-- ===== src/Gateway/Layers/Settings.antt =====
-- What the injectors of gateway_rulesets.go, gateway_mode.go and injectClashSecret make of the route rules
-- of a document, beside the settings that they write.
use trust_proxy.Base.{
  String, true, List, [], ◌∷◌, ◌++◌, Option, none, some, ◌≡◌, ◌≢◌, refl, sym, ap, ◌∙◌, is_empty,
  ◌==◌, ◌&&◌, Result, ok, err, ◌>>=◌, >>=-ok, subst,
}
use trust_proxy.Json.{
  Json, Object, Error, get, set, find, put, find-put, read_object, read_list, write_object, null,
  array, items-of_items, obj, Fields,
}
use trust_proxy.Gateway.Rules.{prelude_len, insert_at, edit_rules, reject_rules}
use trust_proxy.Gateway.Rules.Laws.{
  rules_of, edited, edit_rules_lem, ok-injective, some-injective, rules_in, listed,
  set_route-rules_of,
}
use trust_proxy.Gateway.Security.{
  below_prelude, inject_clash_secret, edit_experimental, edit_clash_api, set_if,
}
use trust_proxy.Gateway.RuleSets.{
  rule_set_rejects, RuleSet, inject_rule_sets, ensure_cache_file, declare_if, inject_into,
  put_rejects, add_descriptors, tags_seen, enabled_sets, deny_tags, read_experimental,
  add_cache_file,
}
use trust_proxy.Gateway.Mode.{
  global_rule, inject_clash_mode_global, set_clash_default_mode, mode_in_experimental, mode_in_api,
  default_mode, global_if,
}
use trust_proxy.Gateway.Layers.{Inputs}
use trust_proxy.Gateway.Layers.Layout.{set_denied, at_catch_all}
use trust_proxy.Gateway.Layers.Turns.{Turns, same, set_experimental, guarded}

-- Steps that leave the rules alone.
abbrev Keeps : (Object → Result Error Object) → Type 0
Keeps m = Turns m (λ rs. rs)

ensure_cache_file-Keeps : (path : String) → Keeps (λ cfg. ensure_cache_file cfg path)
unfolding ensure_cache_file
ensure_cache_file-Keeps path cfg cfg' rs e h =
    let (exp, h₁, _) = >>=-ok _ (read_experimental (get "experimental" cfg)) h in
    let (exp', h₂, _) = >>=-ok _ (add_cache_file path exp (get "cache_file" exp)) h₁ in
    set_experimental (write_object exp') cfg cfg' rs e h₂

mode_in_api-Keeps :
    (exp : Object) (mode : String) (o : Option Json) → Keeps (λ cfg. mode_in_api cfg exp mode o)
mode_in_api-Keeps exp mode none cfg cfg' rs e h = same e h
mode_in_api-Keeps exp mode (some raw) cfg cfg' rs e h =
    let (ca, h₁, _) = >>=-ok _ (read_object raw) h in
    let (ca', h₂, _) = >>=-ok _ (default_mode mode ca (get "default_mode" ca)) h₁ in
    let (exp', h₃, _) = >>=-ok _ (set "clash_api" (write_object ca') exp) h₂ in
    set_experimental (write_object exp') cfg cfg' rs e h₃

mode_in_experimental-Keeps :
    (mode : String) (o : Option Json) → Keeps (λ cfg. mode_in_experimental cfg mode o)
mode_in_experimental-Keeps mode none cfg cfg' rs e h = same e h
mode_in_experimental-Keeps mode (some raw) cfg cfg' rs e h =
    let (exp, h₁, _) = >>=-ok _ (read_object raw) h in
    mode_in_api-Keeps exp mode (get "clash_api" exp) cfg cfg' rs e h₁

edit_clash_api-Keeps :
    (exp : Object) (secret addr : String) (o : Option Json)
    → Keeps (λ cfg. edit_clash_api cfg exp secret addr o)
edit_clash_api-Keeps exp secret addr none cfg cfg' rs e h = same e h
edit_clash_api-Keeps exp secret addr (some raw) cfg cfg' rs e h =
    let (ca, h₁, _) = >>=-ok _ (read_object raw) h in
    let (ca₁, h₂, _) = >>=-ok _ (set_if "secret" secret ca) h₁ in
    let (ca₂, h₃, _) = >>=-ok _ (set_if "external_controller" addr ca₁) h₂ in
    let (exp', h₄, _) = >>=-ok _ (set "clash_api" (write_object ca₂) exp) h₃ in
    set_experimental (write_object exp') cfg cfg' rs e h₄

edit_experimental-Keeps :
    (secret addr : String) (o : Option Json) → Keeps (λ cfg. edit_experimental cfg secret addr o)
edit_experimental-Keeps secret addr none cfg cfg' rs e h = same e h
edit_experimental-Keeps secret addr (some raw) cfg cfg' rs e h =
    let (exp, h₁, _) = >>=-ok _ (read_object raw) h in
    edit_clash_api-Keeps exp secret addr (get "clash_api" exp) cfg cfg' rs e h₁

pub inject_clash_secret-Keeps :
    (secret addr : String) → Keeps (λ cfg. inject_clash_secret cfg secret addr)
unfolding inject_clash_secret
inject_clash_secret-Keeps secret addr =
    guarded (secret == "" && addr == "") _ (λ rs. rs) (λ _ rs. refl)
      (λ _ cfg. edit_experimental-Keeps secret addr (get "experimental" cfg) cfg)

global_if-Turns :
    (path : String) (cfg cfg' : Object) (rs : List Json) (o : Option Json)
    → o ≢ none
    → rules_of cfg ≡ some rs
    → global_if cfg path o ≡ ok cfg'
    → rules_of cfg' ≡ some (at_catch_all (global_rule ∷ []) rs)
global_if-Turns path cfg cfg' rs none ne e h = absurd (ne refl)
global_if-Turns path cfg cfg' rs (some raw) ne e h =
    let put_rule = λ (x : List Json). some (at_catch_all (global_rule ∷ []) x) in
    let (c₁, h₁, first) = >>=-ok _ (edit_rules cfg put_rule) h in
    let (c₂, h₂, second) = >>=-ok _ (set_clash_default_mode c₁ "Rule") h₁ in
    let e₁ = edit_rules_lem cfg c₁ put_rule rs e first in
    let e₂ : rules_of c₂ ≡ some (at_catch_all (global_rule ∷ []) rs) =
      mode_in_experimental-Keeps "Rule" (get "experimental" c₁) c₁ c₂ _ e₁
        (unfold set_clash_default_mode in second) in
    ensure_cache_file-Keeps path c₂ cfg' _ e₂ h₂

has_route : (cfg : Object) (rs : List Json) → rules_of cfg ≡ some rs → get "route" cfg ≢ none
unfolding rules_of
has_route none rs e = cc
has_route (some fs) rs e = λ missing. cc (subst (λ o. rules_in o ≡ some rs) missing e)

pub inject_global-Turns :
    (path : String)
    → Turns (λ cfg. inject_clash_mode_global cfg path) (at_catch_all (global_rule ∷ []))
unfolding inject_clash_mode_global
inject_global-Turns path cfg cfg' rs e h =
    global_if-Turns path cfg cfg' rs (get "route" cfg) (has_route cfg rs e) e h

rules_put :
    (rs : List Json) (fs : Fields) → rules_in (some (obj (put "rules" (array rs) fs))) ≡ some rs
rules_put rs fs = rw (find-put "rules" "rules" (array rs) fs) (ap some (items-of_items rs))

put_read-rules :
    (new : List Json) (fs : Fields) (m : Result Error (List Json)) (route' : Object)
    (rs : List Json)
    → listed m ≡ some rs
    → (m >>= λ x. set "rules" (array (insert_at (prelude_len x) new x)) (some fs)) ≡ ok route'
    → rules_in (some (write_object route')) ≡ some (insert_at (prelude_len rs) new rs)
put_read-rules new fs (ok rs') route' rs e h =
    subst (λ r. rules_in (some (write_object r)) ≡ some (insert_at (prelude_len rs) new rs))
      (ok-injective h)
      (subst
        (λ x.
          rules_in (some (obj (put "rules" (array (insert_at (prelude_len rs') new rs')) fs)))
          ≡ some (insert_at (prelude_len x) new x))
        (some-injective e) (rules_put (insert_at (prelude_len rs') new rs') fs))
put_read-rules new fs (err x) route' rs e h = cc

put_rejects-rules :
    (new : List Json) (route route' : Object) (rs : List Json)
    → rules_in (some (write_object route)) ≡ some rs
    → put_rejects new route ≡ ok route'
    → rules_in (some (write_object route')) ≡ some (edited (below_prelude new rs) rs)
put_rejects-rules [] route route' rs e h =
    subst (λ r. rules_in (some (write_object r)) ≡ some rs) (ok-injective h) e
put_rejects-rules (r ∷ new) none route' rs e h = cc
put_rejects-rules (r ∷ new) (some fs) route' rs e h =
    put_read-rules (r ∷ new) fs (read_list (find "rules" fs)) route' rs e h

-- A key of the route other than "rules".
set_rule_set-rules :
    (v : Json) (route route' : Object) (rs : List Json)
    → rules_in (some (write_object route)) ≡ some rs
    → set "rule_set" v route ≡ ok route'
    → rules_in (some (write_object route')) ≡ some rs
set_rule_set-rules v none route' rs e h = cc
set_rule_set-rules v (some fs) route' rs e h =
    subst (λ r. rules_in (some (write_object r)) ≡ some rs) (ok-injective h)
      (rw (find-put "rule_set" "rules" v fs) e)

read_object-rules :
    (raw : Json) (route : Object) (rs : List Json)
    → rules_in (some raw) ≡ some rs
    → read_object raw ≡ ok route
    → rules_in (some (write_object route)) ≡ some rs
read_object-rules (obj fs) route rs e h =
    subst (λ r. rules_in (some (write_object r)) ≡ some rs) (ok-injective h) e
read_object-rules null route rs e h = cc
read_object-rules raw route rs e h = cc

inject_into-Turns :
    (sets : List RuleSet) (path : String) (cfg cfg' : Object) (rs : List Json) (o : Option Json)
    → rules_in o ≡ some rs
    → inject_into cfg sets path o ≡ ok cfg'
    → rules_of cfg' ≡ some (edited (below_prelude (rule_set_rejects sets) rs) rs)
inject_into-Turns sets path cfg cfg' rs none e h = cc
inject_into-Turns sets path cfg cfg' rs (some raw) e h =
    let (route, h₁, read) = >>=-ok _ (read_object raw) h in
    let (old, h₂, _) = >>=-ok _ (read_list (get "rule_set" route)) h₁ in
    let added = add_descriptors (tags_seen old) (enabled_sets sets) in
    let (route₁, h₃, put₁) = >>=-ok _ (set "rule_set" (array (old ++ added.0)) route) h₂ in
    let (cfg₁, h₄, _) = >>=-ok _ (declare_if added.1 cfg) h₃ in
    let (route₂, h₅, put₂) = >>=-ok _ (put_rejects (rule_set_rejects sets) route₁) h₄ in
    let (cfg₂, h₆, put₃) = >>=-ok _ (set "route" (write_object route₂) cfg₁) h₅ in
    let e₁ = set_rule_set-rules _ route route₁ rs (read_object-rules raw route rs e read) put₁ in
    let e₂ = put_rejects-rules (rule_set_rejects sets) route₁ route₂ rs e₁ put₂ in
    ensure_cache_file-Keeps path cfg₂ cfg' _ (set_route-rules_of _ cfg₁ cfg₂ put₃ ∙ e₂) h₆

rules_of-get :
    (cfg : Object) (rs : List Json) → rules_of cfg ≡ some rs → rules_in (get "route" cfg) ≡ some rs
unfolding rules_of
rules_of-get none rs e = cc
rules_of-get (some fs) rs e = e

no_rejects :
    (sets : List RuleSet) → is_empty (enabled_sets sets) ≡ true → rule_set_rejects sets ≡ []
unfolding deny_tags
no_rejects sets h = unfold rule_set_rejects in go (enabled_sets sets) h
  where
    go : (xs : List RuleSet) → is_empty xs ≡ true → reject_rules "rule_set" (deny_tags xs) ≡ []
    go [] h = refl
    go (x ∷ xs) h = cc

pub inject_rule_sets-set_denied :
    (i : Inputs) → Turns (λ cfg. inject_rule_sets cfg i.policy.sets i.cache_path) (set_denied i)
unfolding inject_rule_sets
inject_rule_sets-set_denied i =
    guarded (is_empty (enabled_sets i.policy.sets)) _ (set_denied i)
      (λ b rs. ap (λ new. edited (below_prelude new rs) rs) (sym (no_rejects i.policy.sets b)))
      (λ b cfg cfg' rs e h.
        inject_into-Turns i.policy.sets i.cache_path cfg cfg' rs (get "route" cfg)
          (rules_of-get cfg rs e) h)
