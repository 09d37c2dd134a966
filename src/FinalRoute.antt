-- ===== src/FinalRoute.antt =====
-- internal/finalroute/store.go: the egress of the traffic that no rule matches.
pub mod Laws
mod Tests
use trust_proxy.Base.{
  String, Bool, true, false, List, [], ◌∷◌, Option, none, some, ◌==◌, ◌||◌, ◌&&◌, not,
  if◌then◌else◌, any,
}
use trust_proxy.Base.Text.{trim_space, contains_any}

-- `outbound_required` and `invalid_outbound` are the errors of Validate.
pub data Error : Type 0 where
  outbound_required invalid_outbound save_failed : Error

abbrev pub is_built_in : String → Bool
is_built_in outbound = outbound == "proxy" || outbound == "direct" || outbound == "blocked"

unfoldable pub validate : String → Option Error
validate outbound =
    if is_built_in outbound
    then none
    else if outbound == ""
    then some outbound_required
    else if contains_any outbound " \t\n"
    then some invalid_outbound
    else none

abbrev pub resolve_trimmed : String → List String → String
resolve_trimmed outbound member_tags =
    if outbound == ""
    then "direct"
    else if is_built_in outbound
    then outbound
    else if any (λ t. t == outbound) member_tags
    then outbound
    else "direct"

unfoldable pub resolve : String → List String → String
unfolding trim_space
resolve given member_tags = resolve_trimmed (trim_space given) member_tags

-- The setting in memory, the one in the file (`none`: there is none), and whether the marker of the
-- migration stands beside it.
pub record Store : Type 0 where
  pub outbound : String
  pub file : Option String
  pub migrated : Bool

-- A save succeeds or fails as the environment says; a failed one leaves the file as it likes.
pub data Write : Type 0 where
  wrote : Write
  failed : Option String → Write

abbrev pub save : Store → Write → Store
save s wrote = record s { file = some s.outbound }
save s (failed left) = record s { file = left }

abbrev pub save_error : Write → Option Error
save_error wrote = none
save_error (failed _) = some save_failed

-- `marks`: whether the marker can be written.
abbrev pub mark : Bool → Store → Store
mark marks s = record s { migrated = s.migrated || marks }

abbrev pub set_saved : Store → String → Bool → Option Error → Store × String × Option Error
set_saved s outbound marks (some e) = (s, outbound, some e)
set_saved s outbound marks none = (mark marks s, outbound, none)

abbrev pub set_checked :
    Store → String → Write → Bool → Option Error → Store × String × Option Error
set_checked s outbound w marks (some e) = (s, s.outbound, some e)
set_checked s outbound w marks none =
    set_saved (save (record s { outbound = outbound }) w) outbound marks (save_error w)

-- Set: the new store, the setting that is returned, and the error.
unfoldable pub set : Store → String → Write → Bool → Store × String × Option Error
unfolding validate
set s given w marks =
    let trimmed = trim_space given in
    let outbound = if trimmed == "" then "direct" else trimmed in
    set_checked s outbound w marks (validate outbound)

unfoldable heal_abandoned_proxy_default : Store → Bool → Store × Bool
unfolding trim_space
heal_abandoned_proxy_default s marks =
    if not (trim_space s.outbound == "proxy") || s.migrated
    then (s, false)
    else (mark marks (record s { outbound = "direct" }), true)

-- The end of NewStore: a setting that is not valid becomes "direct".
abbrev pub repair : Store → Option Error → Write → Store
repair s none w = s
repair s (some e) w = save (record s { outbound = "direct" }) w

-- What NewStore finds: no file, one that cannot be read or decoded, or a setting. The two writes are
-- those of the healed and of the repaired setting; `none` is an error.
pub data Found : Type 0 where
  missing unreadable : Found
  outbound : String → Found

abbrev pub healed : Store × Bool → Write → Option Store
healed (s, false) w = some s
healed (s, true) wrote = some (save s wrote)
healed (s, true) (failed _) = none

abbrev pub repaired : Option Store → Write → Option Store
repaired none w = none
repaired (some s) w = some (repair s (validate s.outbound) w)

pub open_store : Found → Bool → Bool → Write → Write → Option Store
unfolding validate heal_abandoned_proxy_default
open_store missing migrated marks wrote second =
    some
      (mark marks (save (record { outbound = "direct"; file = none; migrated = migrated }) wrote))
open_store missing migrated marks (failed _) second = none
open_store unreadable migrated marks first second = none
open_store (outbound o) migrated marks first second =
    repaired
      (healed
        (heal_abandoned_proxy_default (record { outbound = o; file = some o; migrated = migrated })
          marks)
        first)
      second
