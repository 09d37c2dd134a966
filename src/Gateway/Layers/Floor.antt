-- ===== src/Gateway/Layers/Floor.antt =====
-- The rules of the security floor.
use trust_proxy.Base.{String, false, List, [], ◌∷◌, ◌++◌, ◌≡◌, refl, All, All-append}
use trust_proxy.Json.{Json, text_at, end}
use trust_proxy.Blacklist
use trust_proxy.Whitelist
use trust_proxy.Quarantine.{Entry, ips, domains}
use trust_proxy.Gateway.Rules.{
  is_prelude, is_catch_all_rule, reject_rule, reject_rules, split_domain_matchers,
}
use trust_proxy.Gateway.Rules.Laws.{NoCatchAll, NoPreludeHead}
use trust_proxy.Gateway.Security.{
  blacklist_rejects, quarantine_rejects, floor_rejects, text_field, inverted_reject, process_gate,
  device_gate,
}
use trust_proxy.Gateway.Layers.{Inputs}
use trust_proxy.Gateway.RuleSets.{RuleSet, rule_set_rejects, deny_tags, enabled_sets}

-- L1: who may not leave at all.
abbrev pub floor : Inputs → List Json
floor i =
    floor_rejects i.policy.whitelist
    ++ (rule_set_rejects i.policy.sets
        ++ (quarantine_rejects i.quarantine ++ blacklist_rejects i.blacklist))

-- Neither in the prelude nor a catch-all, and a reject.
abbrev pub IsPlain : Json → Type 0
IsPlain r = (is_prelude r ≡ false) × (is_catch_all_rule r ≡ false) × (text_at "action" r ≡ "reject")

abbrev pub AllPlain : List Json → Type 0
AllPlain = All IsPlain

pub AllPlain-NoCatchAll : (rs : List Json) → AllPlain rs → NoCatchAll rs
AllPlain-NoCatchAll [] h = tt
AllPlain-NoCatchAll (r ∷ rs) h = (h.0.1, AllPlain-NoCatchAll rs h.1)

pub AllPlain-NoPreludeHead :
    (rs xs : List Json) → AllPlain rs → NoPreludeHead xs → NoPreludeHead (rs ++ xs)
AllPlain-NoPreludeHead [] xs h k = k
AllPlain-NoPreludeHead (r ∷ rs) xs h k = h.0.0

abbrev KeyIsPlain : String → Type 0
KeyIsPlain key = (values : List String) → IsPlain (reject_rule key values)

rejects :
    (key : String) (values : List String) → KeyIsPlain key → AllPlain (reject_rules key values)
rejects key [] h = tt
rejects key (v ∷ vs) h = (h (v ∷ vs), tt)

suffix_plain : KeyIsPlain "domain_suffix"
unfolding is_catch_all_rule text_at
suffix_plain values = (refl, refl, refl)

regex_plain : KeyIsPlain "domain_regex"
unfolding is_catch_all_rule text_at
regex_plain values = (refl, refl, refl)

keyword_plain : KeyIsPlain "domain_keyword"
unfolding is_catch_all_rule text_at
keyword_plain values = (refl, refl, refl)

ip_plain : KeyIsPlain "ip_cidr"
unfolding is_catch_all_rule text_at
ip_plain values = (refl, refl, refl)

rule_set_plain : KeyIsPlain "rule_set"
unfolding is_catch_all_rule text_at
rule_set_plain values = (refl, refl, refl)

pub blacklist_rejects-AllPlain : (bl : Blacklist.Rules) → AllPlain (blacklist_rejects bl)
unfolding blacklist_rejects
blacklist_rejects-AllPlain bl =
    let join = All-append IsPlain in
    let split = split_domain_matchers bl.domains in
    join _ _
      (join _ _
        (join _ _ (join _ _ (rejects _ split.0 suffix_plain) (rejects _ split.1 regex_plain))
          (rejects _ bl.keywords keyword_plain))
        (rejects _ bl.regexes regex_plain))
      (rejects _ bl.ips ip_plain)

pub quarantine_rejects-AllPlain : (q : List Entry) → AllPlain (quarantine_rejects q)
unfolding quarantine_rejects
quarantine_rejects-AllPlain q =
    let join = All-append IsPlain in
    let split = split_domain_matchers (domains q) in
    join _ _ (join _ _ (rejects _ split.0 suffix_plain) (rejects _ split.1 regex_plain))
      (rejects _ (ips q) ip_plain)

pub rule_set_rejects-AllPlain : (sets : List RuleSet) → AllPlain (rule_set_rejects sets)
unfolding rule_set_rejects
rule_set_rejects-AllPlain sets = rejects _ (deny_tags (enabled_sets sets)) rule_set_plain

process_reject-IsPlain :
    (names paths : List String)
    → IsPlain
        (inverted_reject (text_field "process_name" names (text_field "process_path" paths end)))
unfolding is_catch_all_rule text_at
process_reject-IsPlain [] [] = (refl, refl, refl)
process_reject-IsPlain [] (p ∷ ps) = (refl, refl, refl)
process_reject-IsPlain (n ∷ ns) [] = (refl, refl, refl)
process_reject-IsPlain (n ∷ ns) (p ∷ ps) = (refl, refl, refl)

process_gate-AllPlain : (processes : List String) → AllPlain (process_gate processes)
unfolding process_gate
process_gate-AllPlain [] = tt
process_gate-AllPlain (p ∷ ps) = (process_reject-IsPlain _ _, tt)

device_gate-AllPlain : (devices : List String) → AllPlain (device_gate devices)
unfolding device_gate is_catch_all_rule text_at
device_gate-AllPlain [] = tt
device_gate-AllPlain (d ∷ ds) = ((refl, refl, refl), tt)

pub floor_rejects-AllPlain : (wl : Whitelist.Rules) → AllPlain (floor_rejects wl)
floor_rejects-AllPlain wl =
    unfold floor_rejects in
    All-append IsPlain _ _ (process_gate-AllPlain wl.processes) (device_gate-AllPlain wl.devices)

pub floor-AllPlain : (i : Inputs) → AllPlain (floor i)
floor-AllPlain i = All-append _ _ _ (floor_rejects-AllPlain i.policy.whitelist) (
    All-append _ _ _ (rule_set_rejects-AllPlain i.policy.sets) (
      All-append _ _ _ (quarantine_rejects-AllPlain i.quarantine)
        (blacklist_rejects-AllPlain i.blacklist)))
