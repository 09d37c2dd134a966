-- ===== src/DirectList.antt =====
-- internal/directlist/store.go: the no-proxy list. The test of an address (Go's net package) is a
-- parameter.
use trust_proxy.Base.{
  String, Bool, true, List, [], ◌∷◌, Option, none, some, ◌==◌, ◌||◌, ℕ, if◌then◌else◌, ltb,
}
use trust_proxy.Base.Text.{trim_space, trim, to_lower, contains_any}
use trust_proxy.ListStore.{
  Notes, Store, Write, set_note, clear_note, prune_notes, add, remove, filter_count, mutate, Found,
  no_file, unreadable, holds,
}

pub record Rules : Type 0 where
  pub domains : List String
  pub ips : List String
  pub notes : Notes
  pub private_direct : Option Bool

pub data Error : Type 0 where
  invalid too_broad save_failed : Error

unfoldable pub bypass_private : Rules → Bool
bypass_private r = elim r.private_direct [ none ↦ true | some b ↦ b ]

-- The seed of a new file: no entries, private addresses bypassed.
abbrev pub seed : Rules
seed = record { domains = []; ips = []; notes = none; private_direct = none }

abbrev pub Outcome : Type 0
Outcome = Store Rules × Rules × Option Error

abbrev fails : Store Rules → Error → Outcome
fails s e = (s, s.current, some e)

abbrev save_error : Bool → Option Error
save_error b = if b then some save_failed else none

unfoldable pub update : Store Rules → (Rules → Rules) → Write Rules → Outcome
unfolding mutate
update s fn disk = let (s', snap, bad) = mutate s fn disk in (s', snap, save_error bad)

unfoldable pub apply_note : Notes → String → String → List String → Notes
apply_note notes dim value [] = notes
apply_note notes dim value (n ∷ _) = set_note notes dim value n

unfoldable pub set_rules : Store Rules → Rules → Write Rules → Outcome
unfolding update
set_rules s r disk = update s (λ _. r) disk

unfoldable set_private_direct : Store Rules → Bool → Write Rules → Outcome
unfolding update
set_private_direct s on disk = update s (λ r. record r { private_direct = some on }) disk

unfoldable pub add_domain : Store Rules → String → List String → Write Rules → Outcome
unfolding update apply_note
add_domain s given note disk =
    let d = to_lower (trim_space given) in
    if d == "" || contains_any d "/ \t"
    then fails s invalid
    else if trim d "*?." == ""
    then fails s too_broad
    else update s
        (λ r. record r { domains = add r.domains d; notes = apply_note r.notes "domain" d note })
        disk

unfoldable pub remove_domain : Store Rules → String → Write Rules → Outcome
unfolding update
remove_domain s d =
    update s λ r. record r { domains = remove r.domains d; notes = clear_note r.notes "domain" d }

unfoldable pub remove_ip : Store Rules → String → Write Rules → Outcome
unfolding update
remove_ip s ip =
    update s λ r. record r { ips = remove r.ips ip; notes = clear_note r.notes "ip" ip }

module _ (valid_cidr : String → Bool) where
  unfoldable pub add_ip : Store Rules → String → List String → Write Rules → Outcome
  unfolding update apply_note
  add_ip s given note disk =
      let ip = trim_space given in
      if valid_cidr ip
      then update s (λ r. record r { ips = add r.ips ip; notes = apply_note r.notes "ip" ip note })
          disk
      else fails s invalid

  unfoldable pub sanitize : Rules → Rules × ℕ
  sanitize r =
      let ips = filter_count r.ips valid_cidr 0 in
      (
        record r {
          ips = ips.0;
          notes = prune_notes (prune_notes r.notes "ip" ips.0) "domain" r.domains;
        },
        ips.1,
      )

  unfoldable open_store : Found Rules → Write Rules → Option (Store Rules × Option Error)
  unfolding sanitize update
  open_store no_file disk =
      let opened = update (record { current = seed; file = none }) (λ r. r) disk in
      some (opened.0, opened.2)
  open_store unreadable _ = none
  open_store (holds r) disk =
      let clean = sanitize r in
      let start : Store Rules = record { current = clean.0; file = some r } in
      if ltb 0 clean.1 then some ((update start (λ x. x) disk).0, none) else some (start, none)
