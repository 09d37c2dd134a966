-- ===== src/Whitelist.antt =====
-- internal/whitelist/store.go: the allow-list of destinations, processes and devices. The test of an
-- address (liststore.ValidCIDR, over Go's net package) is a parameter.
pub mod Laws
mod Tests
use trust_proxy.Base.{
  String, Bool, true, false, List, [], ◌∷◌, Option, none, some, ◌==◌, ◌||◌, ℕ, if◌then◌else◌, ltb,
}
use trust_proxy.Base.Text.{trim_space, trim, to_lower, contains_any}
use trust_proxy.ListStore.{
  Notes, Store, Write, set_note, clear_note, prune_notes, add, remove, filter_count, mutate,
}

pub record Rules : Type 0 where
  pub domains : List String
  pub ips : List String
  pub processes : List String
  pub devices : List String
  pub notes : Notes

pub data Error : Type 0 where
  invalid too_broad empty save_failed : Error

abbrev pub default_domains : List String
default_domains = "example.com" ∷ "api.ipify.org" ∷ "github.com" ∷ "githubusercontent.com" ∷ []

abbrev pub default_ips : List String
default_ips = "127.0.0.0/8" ∷ "10.0.0.0/8" ∷ "172.16.0.0/12" ∷ "192.168.0.0/16" ∷ []

abbrev pub seed : Rules
seed = record {
  domains = default_domains;
  ips = default_ips;
  processes = [];
  devices = [];
  notes = none;
}

-- The snapshot that the caller gets, and the error.
abbrev pub Outcome : Type 0
Outcome = Store Rules × Rules × Option Error

abbrev fails : Store Rules → Error → Outcome
fails s e = (s, s.current, some e)

abbrev save_error : Bool → Option Error
save_error b = if b then some save_failed else none

unfoldable pub update : Store Rules → (Rules → Rules) → Write Rules → Outcome
unfolding mutate
update s fn disk = let (s', snap, bad) = mutate s fn disk in (s', snap, save_error bad)

unfoldable pub apply_note : Notes → String → String → List String → Notes
apply_note notes dim value [] = notes
apply_note notes dim value (n ∷ _) = set_note notes dim value n

unfoldable pub set_rules : Store Rules → Rules → Write Rules → Outcome
unfolding update
set_rules s r disk = update s (λ _. r) disk

unfoldable normalize_domain : String → String
normalize_domain d = to_lower (trim_space d)

abbrev pub bad_domain : String → Bool
bad_domain d = d == "" || contains_any d "/ \t"

abbrev pub broad_domain : String → Bool
broad_domain d = trim d "*?." == ""

abbrev pub put_domain : String → List String → Rules → Rules
put_domain d note r = record r {
  domains = add r.domains d;
  notes = apply_note r.notes "domain" d note;
}

pub add_domain : Store Rules → String → List String → Write Rules → Outcome
unfolding update normalize_domain
add_domain s given note disk =
    let d = normalize_domain given in
    if bad_domain d
    then fails s invalid
    else if broad_domain d
    then fails s too_broad
    else update s (put_domain d note) disk

unfoldable pub remove_domain : Store Rules → String → Write Rules → Outcome
unfolding update
remove_domain s d =
    update s λ r. record r { domains = remove r.domains d; notes = clear_note r.notes "domain" d }

unfoldable add_process : Store Rules → String → List String → Write Rules → Outcome
unfolding update
add_process s given note disk =
    let p = trim_space given in
    if p == ""
    then fails s empty
    else update s
        (λ r. record r {
          processes = add r.processes p;
          notes = apply_note r.notes "process" p note;
        })
        disk

unfoldable remove_process : Store Rules → String → Write Rules → Outcome
unfolding update
remove_process s p =
    update s
      λ r. record r { processes = remove r.processes p; notes = clear_note r.notes "process" p }

unfoldable pub remove_ip : Store Rules → String → Write Rules → Outcome
unfolding update
remove_ip s ip =
    update s λ r. record r { ips = remove r.ips ip; notes = clear_note r.notes "ip" ip }

unfoldable remove_device : Store Rules → String → Write Rules → Outcome
unfolding update
remove_device s ip =
    update s λ r. record r { devices = remove r.devices ip; notes = clear_note r.notes "device" ip }

-- What NewStore finds at the path: no file, one that cannot be read or decoded, or rules.
pub data Found : Type 0 where
  missing unreadable : Found
  rules : Rules → Found

module _ (valid_cidr : String → Bool) where
  pub add_ip : Store Rules → String → List String → Write Rules → Outcome
  unfolding update
  add_ip s given note disk =
      let ip = trim_space given in
      if valid_cidr ip
      then update s (λ r. record r { ips = add r.ips ip; notes = apply_note r.notes "ip" ip note })
          disk
      else fails s invalid

  unfoldable add_device : Store Rules → String → List String → Write Rules → Outcome
  unfolding update
  add_device s given note disk =
      let ip = trim_space given in
      if valid_cidr ip
      then update s
          (λ r. record r {
            devices = add r.devices ip;
            notes = apply_note r.notes "device" ip note;
          })
          disk
      else fails s invalid

  -- The rules that are left, and the number of entries dropped.
  pub sanitize : Rules → Rules × ℕ
  sanitize r =
      let ips = filter_count r.ips valid_cidr 0 in
      let devices = filter_count r.devices valid_cidr ips.1 in
      (
        record r {
          ips = ips.0;
          devices = devices.0;
          notes =
              prune_notes
                (prune_notes (prune_notes (prune_notes r.notes "ip" ips.0) "device" devices.0)
                  "domain" r.domains)
                "process" r.processes;
        },
        devices.1,
      )

  unfoldable pub open_store : Found → Write Rules → Option (Store Rules × Option Error)
  unfolding sanitize update
  open_store missing disk =
      let opened = update (record { current = seed; file = none }) (λ r. r) disk in
      some (opened.0, opened.2)
  open_store unreadable _ = none
  open_store (rules r) disk =
      let clean = sanitize r in
      let start : Store Rules = record { current = clean.0; file = some r } in
      if ltb 0 clean.1 then some ((update start (λ x. x) disk).0, none) else some (start, none)
