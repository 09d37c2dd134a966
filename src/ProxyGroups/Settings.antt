-- ===== src/ProxyGroups/Settings.antt =====
-- internal/proxygroups/store.go: the file-backed store. A read and a write succeed or fail as an
-- argument says; the lock is held for a whole operation.
use trust_proxy.Base.{
  ℕ, ◌+◌, ◌-◌, String, Bool, true, false, List, [], ◌∷◌, Option, none, some, not, ◌||◌,
  if◌then◌else◌, ltb, nat_eq, length, Result, ok, err, ◌>>=◌,
}
use trust_proxy.Base.Text.{to_lower}
use trust_proxy.ListStore.{Store, Write, Found, no_file, unreadable, holds, mutate, wrote, failed}
use trust_proxy.ProxyGroups.{
  Group, no_failover, Config, Error, duplicate, bad_scoring, save_failed, contains,
  default_exclude_countries, validate_failover, normalize_codes, validate_group,
}
use trust_proxy.ProxyScore.Config as Scoring

abbrev pub codes_of : Option (List String) → List String
codes_of none = []
codes_of (some cs) = cs

abbrev pub keep_unless : Bool → Group → List Group → List Group
keep_unless seen g gs = if seen then gs else g ∷ gs

abbrev pub now_seen : List String → Result Error Group → List String
now_seen seen (err e) = seen
now_seen seen (ok g) = to_lower g.name ∷ seen

abbrev pub keep_valid : List String → Result Error Group → List Group → List Group
keep_valid seen (err e) gs = gs
keep_valid seen (ok g) gs = keep_unless (contains seen (to_lower g.name)) g gs

abbrev pub or_else {ℓ} : {A : Type ℓ} → A → Bool → A → A
or_else dflt valid a = if valid then a else dflt

abbrev pub is_none {ℓ} : {A : Type ℓ} → Option A → Bool
is_none none = true
is_none (some a) = false

abbrev pub one_if : Bool → ℕ
one_if b = if b then 1 else 0

abbrev pub seed : Config
seed = record {
  auto_country = true;
  exclude_countries = some default_exclude_countries;
  groups = [];
  failover = no_failover;
  scoring = Scoring.unset;
}

abbrev pub with_codes : Config → Config × Bool
with_codes c = elim c.exclude_countries [
  | none ↦ (record c { exclude_countries = some default_exclude_countries }, true)
  | some cs ↦ (c, false)
]

abbrev pub as_file : Config → Store Config
as_file c = record { current = c; file = some c }

abbrev pub written : Store Config → Config → Write Config → Store Config
written s c disk = (mutate s (λ _. c) disk).0

abbrev pub no_duplicate : List String → Group → Result Error Group
no_duplicate seen g = if contains seen (to_lower g.name) then err (duplicate g.name) else ok g

abbrev pub first_then : Group → Result Error (List Group) → Result Error (List Group)
first_then g (err e) = err e
first_then g (ok gs) = ok (g ∷ gs)

abbrev pub unless_error : Option Error → List Group → Result Error (List Group)
unless_error none gs = ok gs
unless_error (some e) gs = err e

abbrev pub scoring_error : Option Scoring.Fault → Option Error
scoring_error none = none
scoring_error (some e) = some (bad_scoring e)

abbrev pub chosen_codes : Option (List String) → Option (List String) → Option (List String)
chosen_codes none old = old
chosen_codes (some cs) old = some cs

abbrev pub replaced : Config → Config → List Group → Config
replaced old c gs = record c {
  exclude_countries =
      some (normalize_codes (codes_of (chosen_codes c.exclude_countries old.exclude_countries)));
  groups = gs;
}

abbrev save_error : Bool → Option Error
save_error b = if b then some save_failed else none

abbrev pub set_checked :
    Store Config
    → Config
    → Write Config
    → Result Error (List Group)
    → Store Config × Config × Option Error
set_checked s c disk (err e) = (s, s.current, some e)
set_checked s c disk (ok gs) =
    let (s', snap, bad) = mutate s (λ old. replaced old c gs) disk in (s', snap, save_error bad)

module _ (compiles : String → Bool) where
  -- The groups that sanitize keeps, with the names that were seen.
  unfoldable pub kept_groups : List String → List Group → List Group
  unfolding to_lower
  kept_groups seen [] = []
  kept_groups seen (g ∷ gs) =
      let checked = validate_group compiles g in
      let rest = kept_groups (now_seen seen checked) gs in keep_valid seen checked rest

  -- The configuration that is kept, and the count of what was changed.
  unfoldable pub sanitize : Config → Config × ℕ
  unfolding kept_groups
  sanitize c =
      let groups = kept_groups [] c.groups in
      let codes = normalize_codes (codes_of c.exclude_countries) in
      let good_failover = is_none (validate_failover c.failover) in
      let good_scoring = is_none (Scoring.validate c.scoring) in
      (
        record c {
          groups = groups;
          exclude_countries = some codes;
          failover = or_else no_failover good_failover c.failover;
          scoring = or_else Scoring.unset good_scoring c.scoring;
        },
        length c.groups
            - length groups
            + one_if (not (nat_eq (length codes) (length (codes_of c.exclude_countries))))
            + one_if (not good_failover)
            + one_if (not good_scoring),
      )

  -- NewStore; `none` is an error. The write of a configuration that was repaired may fail unseen.
  unfoldable pub open_store : Found Config → Write Config → Option (Store Config)
  unfolding sanitize mutate
  open_store no_file wrote = some (as_file seed)
  open_store no_file (failed left) = none
  open_store unreadable disk = none
  open_store (holds c) disk =
      let migrated = with_codes c in
      let cleaned = sanitize migrated.0 in
      some (
        if ltb 0 cleaned.1 || migrated.1
        then written (as_file c) cleaned.0 disk
        else record { current = cleaned.0; file = some c })

  -- The loop of Set over the groups.
  unfoldable pub check_groups : List String → List Group → Result Error (List Group)
  unfolding to_lower
  check_groups seen [] = ok []
  check_groups seen (g ∷ gs) = validate_group compiles g >>= λ g'.
      no_duplicate seen g' >>= λ g''. first_then g'' (check_groups (to_lower g''.name ∷ seen) gs)

  unfoldable pub check : Config → Result Error (List Group)
  unfolding check_groups
  check c = check_groups [] c.groups >>= λ gs.
      unless_error (validate_failover c.failover) gs >>= λ gs'.
      unless_error (scoring_error (Scoring.validate c.scoring)) gs'

  -- Set: the new store, the configuration that is returned, and the error.
  unfoldable pub set : Store Config → Config → Write Config → Store Config × Config × Option Error
  unfolding check mutate
  set s c disk = set_checked s c disk (check c)
