-- ===== src/Blacklist.antt =====
-- internal/blacklist/store.go: the deny-list. The tests of an address (Go's net package) and of a
-- regular expression (Go's regexp package) are parameters.
use trust_proxy.Base.{
  String, Bool, List, [], ◌∷◌, Option, none, some, ◌==◌, ◌||◌, ℕ, if◌then◌else◌, ltb,
}
use trust_proxy.Base.Text.{trim_space, trim, to_lower, contains_any}
use trust_proxy.ListStore.{
  Notes, Store, Write, set_note, clear_note, prune_notes, add, remove, filter_count, mutate, Found,
  no_file, unreadable, holds,
}

pub record Rules : Type 0 where
  pub domains : List String
  pub keywords : List String
  pub regexes : List String
  pub ips : List String
  pub notes : Notes

pub data Error : Type 0 where
  invalid too_broad empty save_failed : Error

abbrev pub no_rules : Rules
no_rules = record { domains = []; keywords = []; regexes = []; ips = []; notes = none }

abbrev pub Outcome : Type 0
Outcome = Store Rules × Rules × Option Error

abbrev fails : Store Rules → Error → Outcome
fails s e = (s, s.current, some e)

abbrev save_error : Bool → Option Error
save_error b = if b then some save_failed else none

unfoldable pub update : Store Rules → (Rules → Rules) → Write Rules → Outcome
unfolding mutate
update s fn disk = let (s', snap, bad) = mutate s fn disk in (s', snap, save_error bad)

unfoldable pub apply_note : Notes → String → String → List String → Notes
apply_note notes dim value [] = notes
apply_note notes dim value (n ∷ _) = set_note notes dim value n

unfoldable pub set_rules : Store Rules → Rules → Write Rules → Outcome
unfolding update
set_rules s r disk = update s (λ _. r) disk

unfoldable pub add_domain : Store Rules → String → List String → Write Rules → Outcome
unfolding update apply_note
add_domain s given note disk =
    let d = to_lower (trim_space given) in
    if d == "" || contains_any d "/ \t"
    then fails s invalid
    else if trim d "*?." == ""
    then fails s too_broad
    else update s
        (λ r. record r { domains = add r.domains d; notes = apply_note r.notes "domain" d note })
        disk

unfoldable pub remove_domain : Store Rules → String → Write Rules → Outcome
unfolding update
remove_domain s d =
    update s λ r. record r { domains = remove r.domains d; notes = clear_note r.notes "domain" d }

unfoldable add_keyword : Store Rules → String → List String → Write Rules → Outcome
unfolding update apply_note
add_keyword s given note disk =
    let k = to_lower (trim_space given) in
    if k == ""
    then fails s empty
    else update s
        (λ r. record r { keywords = add r.keywords k; notes = apply_note r.notes "keyword" k note })
        disk

unfoldable remove_keyword : Store Rules → String → Write Rules → Outcome
unfolding update
remove_keyword s k =
    update s
      λ r. record r { keywords = remove r.keywords k; notes = clear_note r.notes "keyword" k }

unfoldable remove_regex : Store Rules → String → Write Rules → Outcome
unfolding update
remove_regex s re =
    update s λ r. record r { regexes = remove r.regexes re; notes = clear_note r.notes "regex" re }

unfoldable pub remove_ip : Store Rules → String → Write Rules → Outcome
unfolding update
remove_ip s ip =
    update s λ r. record r { ips = remove r.ips ip; notes = clear_note r.notes "ip" ip }

module _ (valid_cidr compiles : String → Bool) where
  unfoldable add_regex : Store Rules → String → List String → Write Rules → Outcome
  unfolding update apply_note
  add_regex s given note disk =
      let re = trim_space given in
      if re == ""
      then fails s empty
      else if compiles re
      then update s
          (λ r. record r { regexes = add r.regexes re; notes = apply_note r.notes "regex" re note })
          disk
      else fails s invalid

  unfoldable pub add_ip : Store Rules → String → List String → Write Rules → Outcome
  unfolding update apply_note
  add_ip s given note disk =
      let ip = trim_space given in
      if valid_cidr ip
      then update s (λ r. record r { ips = add r.ips ip; notes = apply_note r.notes "ip" ip note })
          disk
      else fails s invalid

  unfoldable pub sanitize : Rules → Rules × ℕ
  sanitize r =
      let ips = filter_count r.ips valid_cidr 0 in
      let regexes = filter_count r.regexes compiles ips.1 in
      (
        record r {
          ips = ips.0;
          regexes = regexes.0;
          notes =
              prune_notes
                (prune_notes (prune_notes (prune_notes r.notes "ip" ips.0) "regex" regexes.0)
                  "domain" r.domains)
                "keyword" r.keywords;
        },
        regexes.1,
      )

  unfoldable open_store : Found Rules → Write Rules → Option (Store Rules × Option Error)
  unfolding sanitize update
  open_store no_file disk =
      let opened = update (record { current = no_rules; file = none }) (λ r. r) disk in
      some (opened.0, opened.2)
  open_store unreadable _ = none
  open_store (holds r) disk =
      let clean = sanitize r in
      let start : Store Rules = record { current = clean.0; file = some r } in
      if ltb 0 clean.1 then some ((update start (λ x. x) disk).0, none) else some (start, none)
