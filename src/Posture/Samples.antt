-- ===== src/Posture/Samples.antt =====
-- internal/posture: small stores for the tests; DNS is a number.
use trust_proxy.Base.{
  ℕ, String, Bool, true, false, List, [], ◌∷◌, none, some, ◌≡◌, ◌≢◌, refl, map, eq_iff,
}
use trust_proxy.Base.Text.{trim_space, to_upper}
use trust_proxy.ListStore.{Store, Write, wrote, mutate}
use trust_proxy.Whitelist
use trust_proxy.Blacklist
use trust_proxy.DirectList
use trust_proxy.FinalRoute
use trust_proxy.Gateway.RuleSets.{RuleSet}
use trust_proxy.ProxyGroups.{
  Config as Groups, no_failover, validate_failover, interval, idle_timeout, normalize_codes,
  codes_from, is_code,
}
use trust_proxy.ProxyGroups.Settings.{set, check, check_groups}
use trust_proxy.ProxyScore.Config as Scoring
use trust_proxy.Posture.{Slot}
use trust_proxy.Posture.Live.{Disks, Policy, Stores, snapshot_live_policy}
use trust_proxy.Posture.Laws.{IsFinal}
use trust_proxy.Posture.Returns.{IsTaken}

abbrev pub balanced : String → Bool
balanced s = true

abbrev pub take_any : Store ℕ → ℕ → Write ℕ → Store ℕ × Bool
take_any s v disk = (record s { current = v }, false)

-- Groups of the countries alone, some of which are excluded.
abbrev pub excluding : List String → Groups
excluding codes = record {
  auto_country = true;
  exclude_countries = some codes;
  groups = [];
  failover = no_failover;
  scoring = Scoring.unset;
}

abbrev white : String → Whitelist.Rules
white d = record { domains = d ∷ []; ips = []; processes = []; devices = []; notes = none }

abbrev set_of : Bool → RuleSet
set_of on = record {
  tag = "geoip-cn";
  type = "remote";
  format = "binary";
  url = "https://a.example/geoip-cn.srs";
  path = "";
  download_detour = "direct";
  update_interval = "1d";
  role = "route-direct";
  enabled = on;
}

abbrev pub policy : String → Policy ℕ
policy d = record {
  whitelist = white d;
  blacklist = Blacklist.no_rules;
  direct = record { domains = []; ips = []; notes = none };
  custom = [];
  rule_sets = set_of true ∷ [];
  groups = some (excluding ("HK" ∷ []));
  dns = some 2;
  final = "direct";
}

abbrev pub stores : String → Stores ℕ
stores d = record {
  wl = record { current = white d; file = none };
  bl = record { current = Blacklist.no_rules; file = none };
  dl = record { current = record DirectList.seed { private_direct = some false }; file = none };
  cr = record { current = []; file = none };
  rs = record { current = []; file = none };
  pg = record { current = excluding ("CN" ∷ []); file = none };
  dns = record { current = 4; file = none };
  final = record { outbound = "proxy"; file = none; migrated = true };
}

abbrev pub disks : Disks ℕ
disks = record {
  rs = wrote;
  wl = wrote;
  bl = wrote;
  dl = wrote;
  cr = wrote;
  pg = wrote;
  dns = wrote;
  final = FinalRoute.wrote;
  marks = true;
}

abbrev direct : String
direct = "direct"

abbrev proxy : String
proxy = "proxy"

direct_named : direct ≢ ""
direct_named = λ e. let x : false ≡ true = (eq_iff "direct" "").1 e in cc

proxy_named : proxy ≢ ""
proxy_named = λ e. let x : false ≡ true = (eq_iff "proxy" "").1 e in cc

pub direct-IsFinal : IsFinal direct
unfolding trim_space FinalRoute.validate
direct-IsFinal = record { trimmed = refl; named = direct_named; accepted = refl }

proxy-IsFinal : IsFinal proxy
unfolding trim_space FinalRoute.validate
proxy-IsFinal = record { trimmed = refl; named = proxy_named; accepted = refl }

abbrev pub same : List RuleSet → List RuleSet
same sets = sets

abbrev turned_off : RuleSet → RuleSet
turned_off s = record s { enabled = false }

-- No source is within reach.
abbrev pub off : List RuleSet → List RuleSet
off sets = map turned_off sets

pub policy-IsTaken : (d : String) → IsTaken ℕ balanced take_any (policy d)
unfolding set check check_groups mutate validate_failover interval idle_timeout normalize_codes
    codes_from is_code to_upper trim_space Scoring.validate Scoring.check_ranges Scoring.first_true
    Scoring.first_negative Scoring.or_default
policy-IsTaken d = record {
  g = excluding ("HK" ∷ []);
  d = 2;
  groups = refl;
  dns = refl;
  groups_taken = λ s w. refl;
  dns_taken = λ s w. refl;
  final = direct-IsFinal;
}

pub live-IsTaken : IsTaken ℕ balanced take_any (snapshot_live_policy ℕ (stores "live.com"))
unfolding set check check_groups mutate validate_failover interval idle_timeout normalize_codes
    codes_from is_code to_upper trim_space Scoring.validate Scoring.check_ranges Scoring.first_true
    Scoring.first_negative Scoring.or_default snapshot_live_policy
live-IsTaken = record {
  g = excluding ("CN" ∷ []);
  d = 4;
  groups = refl;
  dns = refl;
  groups_taken = λ s w. refl;
  dns_taken = λ s w. refl;
  final = proxy-IsFinal;
}

-- The seed, which has no DNS.
abbrev pub seed : Policy ℕ
seed = record (policy "seed.com") { dns = none }

pub seed-IsTaken : IsTaken ℕ balanced take_any (record seed { dns = some 4 })
unfolding set check check_groups mutate validate_failover interval idle_timeout normalize_codes
    codes_from is_code to_upper trim_space Scoring.validate Scoring.check_ranges Scoring.first_true
    Scoring.first_negative Scoring.or_default
seed-IsTaken = record {
  g = excluding ("HK" ∷ []);
  d = 4;
  groups = refl;
  dns = refl;
  groups_taken = λ s w. refl;
  dns_taken = λ s w. refl;
  final = direct-IsFinal;
}

-- No country is excluded.
abbrev pub open_stores : Stores ℕ
open_stores = record (stores "live.com") { pg = record { current = excluding []; file = none } }

abbrev pub slot_of : String → Bool → Slot (Policy ℕ)
slot_of d seeded = record { policy = policy d; seeded = seeded }
