-- ===== src/Posture/Live.antt =====
-- internal/api/policysnapshot.go and applySlot of internal/api/posture.go: the live policy in its
-- stores, and a slot's policy written to it. All stores are there. The store of DNS is of any type `D`,
-- with a Set that refuses a value or takes it. Starting the data plane on
-- the new policy (ApplyProfile) succeeds or fails as an argument says.
use trust_proxy.Base.{
  true, false, String, Bool, List, [], ◌∷◌, ◌++◌, Option, none, some, ◌==◌, if◌then◌else◌,
}
use trust_proxy.ListStore.{Notes, Store, Write, mutate}
use trust_proxy.Whitelist
use trust_proxy.Blacklist
use trust_proxy.DirectList
use trust_proxy.FinalRoute
use trust_proxy.CustomRules.{Rule}
use trust_proxy.CustomRules.Operations.{set_rules as set_custom_rules}
use trust_proxy.Gateway.RuleSets.{RuleSet}
use trust_proxy.ProxyGroups.{Config as Groups, Error as GroupsError}
use trust_proxy.ProxyGroups.Settings.{set as set_config}

-- The no-proxy list of a slot, which has no private_direct.
pub record DirectPart : Type 0 where
  pub domains : List String
  pub ips : List String
  pub notes : Notes

-- The writes of the stores, in the order of alignLiveStores.
pub record Disks (D : Type 0) : Type 0 where
  pub rs : Write (List RuleSet)
  pub wl : Write Whitelist.Rules
  pub bl : Write Blacklist.Rules
  pub dl : Write DirectList.Rules
  pub cr : Write (List Rule)
  pub pg : Write Groups
  pub dns : Write D
  pub final : FinalRoute.Write
  pub marks : Bool

-- append([]string(nil), codes...): a copy of an empty list is nil.
abbrev pub copied_codes : Option (List String) → Option (List String)
copied_codes none = none
copied_codes (some []) = none
copied_codes (some (c ∷ cs)) = some (c ∷ cs)

-- The proxy groups as snapshotLivePolicy and applySlot copy them.
abbrev pub copied : Groups → Groups
copied c = record c { exclude_countries = copied_codes c.exclude_countries }

abbrev pub copied_groups : Option Groups → Option Groups
copied_groups none = none
copied_groups (some c) = some (copied c)

abbrev pub is_error : Option GroupsError → Bool
is_error none = false
is_error (some e) = true

-- Set of the proxy groups, and whether it refused.
abbrev pub set_groups : (String → Bool) → Store Groups → Groups → Write Groups → Store Groups × Bool
set_groups compiles s c disk = let (s', snap, e) = set_config compiles s c disk in (s', is_error e)

module _ (D : Type 0) where
  -- What snapshotLivePolicy captures.
  pub record Policy : Type 0 where
    pub whitelist : Whitelist.Rules
    pub blacklist : Blacklist.Rules
    pub direct : DirectPart
    pub custom : List Rule
    pub rule_sets : List RuleSet
    pub groups : Option Groups
    pub dns : Option D
    pub final : String

  pub record Stores : Type 0 where
    pub wl : Store Whitelist.Rules
    pub bl : Store Blacklist.Rules
    pub dl : Store DirectList.Rules
    pub cr : Store (List Rule)
    pub rs : Store (List RuleSet)
    pub pg : Store Groups
    pub dns : Store D
    pub final : FinalRoute.Store

  -- policyInputs.
  pub record Inputs : Type 0 where
    pub wl : Whitelist.Rules
    pub bl : Blacklist.Rules
    pub dl : DirectList.Rules
    pub cr : List Rule
    pub sets : List RuleSet
    pub pg : Groups
    pub dns : D

  unfoldable pub snapshot_live_policy : Stores → Policy
  snapshot_live_policy s = record {
    whitelist = s.wl.current;
    blacklist = s.bl.current;
    direct = record {
      domains = s.dl.current.domains;
      ips = s.dl.current.ips;
      notes = s.dl.current.notes;
    };
    custom = s.cr.current;
    rule_sets = s.rs.current;
    groups = some (copied s.pg.current);
    dns = some s.dns.current;
    final = s.final.outbound;
  }

  abbrev pub or_live {ℓ} : {A : Type ℓ} → Option A → A → A
  or_live none live = live
  or_live (some a) live = a

  unfoldable pub keep_machine_fields : Stores → Inputs → Inputs
  keep_machine_fields s i = record i {
    dl = record i.dl { private_direct = s.dl.current.private_direct };
  }

  abbrev pub inputs_of : Stores → Policy → Inputs
  inputs_of s p = record {
    wl = p.whitelist;
    bl = p.blacklist;
    dl = record {
      domains = p.direct.domains;
      ips = p.direct.ips;
      notes = p.direct.notes;
      private_direct = none;
    };
    cr = p.custom;
    sets = p.rule_sets;
    pg = or_live (copied_groups p.groups) s.pg.current;
    dns = or_live p.dns s.dns.current;
  }

  -- The names of the stores that refused their value.
  abbrev pub noted {ℓ} : {E : Type ℓ} → String → Option E → List String
  noted name none = []
  noted name (some e) = name ∷ []

  module _ (compiles : String → Bool) (set_dns : Store D → D → Write D → Store D × Bool) where
    abbrev refused : Bool → Option (Unit {0})
    refused b = if b then some tt else none

    unfoldable pub align_live_stores : Disks D → Inputs → String → Stores → Stores × List String
    align_live_stores disks given final s =
        let i = keep_machine_fields s given in
        let rs = mutate s.rs (λ _. i.sets) disks.rs in
        let wl = Whitelist.set_rules s.wl i.wl disks.wl in
        let bl = Blacklist.set_rules s.bl i.bl disks.bl in
        let dl = DirectList.set_rules s.dl i.dl disks.dl in
        let cr = set_custom_rules s.cr i.cr disks.cr in
        let pg = set_groups compiles s.pg i.pg disks.pg in
        let dns = set_dns s.dns i.dns disks.dns in
        let fin = FinalRoute.set s.final final disks.final disks.marks in
        (
          record {
            wl = wl.0;
            bl = bl.0;
            dl = dl.0;
            cr = cr.0;
            rs = rs.0;
            pg = pg.0;
            dns = dns.0;
            final = fin.0;
          },
          noted "rs" (refused rs.2)
              ++ noted "wl" wl.2
              ++ noted "bl" bl.2
              ++ noted "dl" dl.2
              ++ noted "cr" cr.2
              ++ noted "pg" (refused pg.1)
              ++ noted "dns" (refused dns.1)
              ++ noted "final" fin.2,
        )

    abbrev pub final_of : Policy → String
    final_of p = if p.final == "" then "direct" else p.final

    -- The stores, and the names of those that diverged; `none` where the data plane did not start.
    unfoldable pub apply_slot : Bool → Disks D → Policy → Stores → Stores × Option (List String)
    apply_slot starts disks p s =
        let i = keep_machine_fields s (inputs_of s p) in
        let (s', diverged) = align_live_stores disks i (final_of p) s in
        if starts then (s', some diverged) else (s, none)
