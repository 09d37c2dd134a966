-- ===== src/Posture/Laws.antt =====
-- internal/api/policysnapshot.go and internal/api/posture.go: a slot that is applied is what the live
-- stores then hold, and the fields of the machine are not touched.
use trust_proxy.Base.{String, Bool, true, false, Option, none, some, ◌≡◌, ◌≢◌, refl, ap}
use trust_proxy.Base.Text.{trim_space, differs}
use trust_proxy.ListStore.{Store, Write, mutate}
use trust_proxy.Whitelist
use trust_proxy.Blacklist
use trust_proxy.DirectList
use trust_proxy.FinalRoute
use trust_proxy.CustomRules.Operations.{set_rules as set_custom_rules, update_rules}
use trust_proxy.ProxyGroups.{Config as Groups}
use trust_proxy.Posture.Live.{
  Disks, Policy, Stores, snapshot_live_policy, keep_machine_fields, final_of, align_live_stores,
  apply_slot, or_live, copied, copied_groups, set_groups,
}

-- A setting that Set of the final route leaves as it is.
pub record IsFinal (final : String) : Type 0 where
  pub trimmed : trim_space final ≡ final
  pub named : final ≢ ""
  pub accepted : FinalRoute.validate final ≡ none

set_saved-outbound :
    (s : FinalRoute.Store) (o : String) (marks : Bool) (e : Option FinalRoute.Error)
    → s.outbound ≡ o
    → (FinalRoute.set_saved s o marks e).0.outbound ≡ o
set_saved-outbound s o marks none h = h
set_saved-outbound s o marks (some e) h = h

save-outbound :
    (s : FinalRoute.Store) (w : FinalRoute.Write) → (FinalRoute.save s w).outbound ≡ s.outbound
save-outbound s FinalRoute.wrote = refl
save-outbound s (FinalRoute.failed left) = refl

set-outbound :
    (s : FinalRoute.Store) (final : String) (w : FinalRoute.Write) (marks : Bool)
    → IsFinal final
    → (FinalRoute.set s final w marks).0.outbound ≡ final
unfolding FinalRoute.set
set-outbound s final w marks good =
    rw (good.trimmed, differs final "" good.named, good.accepted)
      (set_saved-outbound (FinalRoute.save (record s { outbound = final }) w) final marks _
        (save-outbound (record s { outbound = final }) w))

module _ (D : Type 0) (compiles : String → Bool)
    (set_dns : Store D → D → Write D → Store D × Bool) where
  -- Applying the policy of a slot never changes whether private addresses are bypassed, which is a
  -- fact about the machine: not if it starts, not if it does not, whatever the stores refuse.
  pub apply_slot_keeps_machine :
      (starts : Bool) (disks : Disks D) (p : Policy D) (s : Stores D)
      → (apply_slot D compiles set_dns starts disks p s).0.dl.current.private_direct
        ≡ s.dl.current.private_direct
  unfolding apply_slot align_live_stores DirectList.set_rules DirectList.update mutate
      keep_machine_fields
  apply_slot_keeps_machine true disks p s = refl
  apply_slot_keeps_machine false disks p s = refl

  -- The live policy after a slot is applied is the policy of the slot, whatever becomes of the writes
  -- of the files, provided that the slot has proxy groups and DNS that their stores take, and a final
  -- route that its store leaves as it is.
  pub snapshot-apply_slot :
      (disks : Disks D) (p : Policy D) (s : Stores D) (g : Groups) (d : D)
      → p.groups ≡ some g
      → p.dns ≡ some d
      → copied (set_groups compiles s.pg (copied g) disks.pg).0.current ≡ g
      → (set_dns s.dns d disks.dns).0.current ≡ d
      → IsFinal p.final
      → snapshot_live_policy D (apply_slot D compiles set_dns true disks p s).0 ≡ p
  unfolding apply_slot align_live_stores DirectList.set_rules DirectList.update mutate
      keep_machine_fields snapshot_live_policy Whitelist.set_rules Whitelist.update
      Blacklist.set_rules Blacklist.update set_custom_rules update_rules
  snapshot-apply_slot disks p s g d eg ed tg td good =
      let groups : some (
            copied
              (set_groups compiles s.pg (or_live D (copied_groups p.groups) s.pg.current)
                disks.pg).0.current)
          ≡ p.groups =
        rw eg (ap some tg) in
      let names : some (set_dns s.dns (or_live D p.dns s.dns.current) disks.dns).0.current ≡ p.dns =
        rw ed (ap some td) in
      let final : (FinalRoute.set s.final (final_of D compiles set_dns p) disks.final
            disks.marks).0.outbound
          ≡ p.final =
        rw (differs p.final "" good.named)
          (set-outbound s.final p.final disks.final disks.marks good) in
      λ i. record p { groups = groups i; dns = names i; final = final i }
