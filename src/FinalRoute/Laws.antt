-- ===== src/FinalRoute/Laws.antt =====
-- internal/finalroute/store.go: what Final can be.
use trust_proxy.Base.{
  String, Bool, true, List, Option, none, some, ◌≡◌, refl, sym, arith, ◌==◌, ◌||◌, ◌&&◌, not,
  if◌then◌else◌, any, eq_iff, Bool-cases, inl, inr, subst,
}
use trust_proxy.Base.Text.{trim_space}
use trust_proxy.FinalRoute.{Error, resolve_trimmed, set_checked}
use trust_proxy.FinalRoute.{
  Store, Write, wrote, failed, Found, is_built_in, validate, resolve, set, save, repair, repaired,
  open_store, missing, unreadable, outbound,
}

abbrev pub is_live : String → List String → Bool
is_live o tags = is_built_in o || (not (o == "") && any (λ t. t == o) tags)

resolve_trimmed_lem :
    (o : String) (tags : List String)
    → resolve_trimmed o tags ≡ (if is_live o tags then o else "direct")
resolve_trimmed_lem o tags = ground (
  arith,
  eq_iff o "",
  eq_iff o "proxy",
  eq_iff o "direct",
  eq_iff o "blocked",
  eq_iff "" "proxy",
  eq_iff "" "direct",
  eq_iff "" "blocked",
)

live_or_direct :
    (o : String) (tags : List String) → is_live (if is_live o tags then o else "direct") tags ≡ true
live_or_direct o tags = elim (Bool-cases (is_live o tags)) [
  | inl live ↦ rw (live, live)
  | inr dead ↦ rw dead
]

-- Final resolves to a built-in outbound or to a live member, never to a name that is neither; a
-- setting that is one of those, once trimmed, resolves to itself, and any other to "direct".
resolve-is_live :
    (given : String) (tags : List String)
    → (is_live (resolve given tags) tags ≡ true)
      × (resolve given tags
          ≡ (if is_live (trim_space given) tags then trim_space given else "direct"))
resolve-is_live given tags =
    let e = resolve_trimmed_lem (trim_space given) tags in
    unfold resolve in
    (subst (λ o. is_live o tags ≡ true) (sym e) (live_or_direct (trim_space given) tags), e)

save-outbound : (s : Store) (w : Write) → (save s w).outbound ≡ s.outbound
save-outbound s wrote = refl
save-outbound s (failed left) = refl

repair-validate :
    (s : Store) (w : Write) → validate (repair s (validate s.outbound) w).outbound ≡ none
repair-validate s w = go (validate s.outbound) refl
  where
    go : (o : Option _) → o ≡ validate s.outbound → validate (repair s o w).outbound ≡ none
    go none e = sym e
    go (some x) e =
        rw (save-outbound (record s { outbound = "direct" }) w) (unfold validate in refl)

repaired-validate :
    (o : Option Store) (w : Write) (s : Store) → repaired o w ≡ some s → validate s.outbound ≡ none
repaired-validate none w s h = cc
repaired-validate (some x) w s h =
    let e : repair x (validate x.outbound) w ≡ s = cc in
    subst (λ z. validate z.outbound ≡ none) e (repair-validate x w)

-- Whatever the file holds, the setting that a store opens with is one that Validate accepts.
open_store-validate :
    (found : Found) (migrated marks : Bool) (first second : Write) (s : Store)
    → open_store found migrated marks first second ≡ some s
    → validate s.outbound ≡ none
unfolding open_store
open_store-validate missing migrated marks wrote second s h =
    let e : "direct" ≡ s.outbound = cc in subst (λ z. validate z ≡ none) e (unfold validate in refl)
open_store-validate missing migrated marks (failed left) second s h = cc
open_store-validate unreadable migrated marks first second s h = cc
open_store-validate (outbound o) migrated marks first second s h = repaired-validate _ second s h

-- From a setting that Validate accepts, any Set leads to one that it accepts, be the Set refused,
-- saved or not.
set-validate :
    (s : Store) (given : String) (w : Write) (marks : Bool)
    → validate s.outbound ≡ none
    → validate (set s given w marks).0.outbound ≡ none
unfolding set
set-validate s given w marks h =
    go (if trim_space given == "" then "direct" else trim_space given) _ refl
  where
    go :
        (o : String) (e : Option Error)
        → validate o ≡ e
        → validate (set_checked s o w marks e).0.outbound ≡ none
    go o (some x) e = h
    go o none e = written w
      where
        written : (w : Write) → validate (set_checked s o w marks none).0.outbound ≡ none
        written wrote = e
        written (failed left) = e
