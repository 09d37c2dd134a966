-- ===== src/Quarantine/Laws.antt =====
-- internal/quarantine/store.go: what a block and a release leave.
use trust_proxy.Base.{
  String, Bool, true, false, List, [], ◌∷◌, ◌++◌, ◌≡◌, refl, ◌∙◌, arith, ◌==◌, ◌||◌, not, filter,
  Bool-cases, inl, inr, eq_refl,
}
use trust_proxy.Base.Text.{trim_space, to_lower, equal_fold}
use trust_proxy.ListStore.{Store, Write}
use trust_proxy.Quarantine.{Entry, has, add_entry, release, same_entry}

has-append :
    (es : List Entry) (e : Entry) (value : String) (is_ip : Bool)
    → has (es ++ e ∷ []) value is_ip ≡ (has es value is_ip || same_entry value is_ip e)
unfolding has
has-append [] e value is_ip = ground arith
has-append (x ∷ es) e value is_ip = ground (arith, has-append es e value is_ip)

same_entry_refl :
    (reason now value : String) (is_ip : Bool)
    → same_entry value is_ip (record { value = value; is_ip = is_ip; reason = reason; time = now })
      ≡ true
same_entry_refl reason now value true = unfold equal_fold in eq_refl (to_lower value)
same_entry_refl reason now value false = unfold equal_fold in eq_refl (to_lower value)

-- One round of Add: a value that is not empty is blocked after it, and what was blocked before it
-- stays blocked.
has-add_entry :
    (es : List Entry) (reason now value other : String) (is_ip other_is_ip : Bool)
    → (value == "") ≡ false
    → has es other other_is_ip ≡ true
    → (has (add_entry reason now es (value, is_ip)) value is_ip ≡ true)
      × (has (add_entry reason now es (value, is_ip)) other other_is_ip ≡ true)
unfolding add_entry
has-add_entry es reason now value other is_ip other_is_ip given blocked =
    elim (Bool-cases (has es value is_ip)) [
      | inl there ↦ rw (given, there) (there, blocked)
      | inr absent ↦
          rw (given, absent)
            (
              has-append es _ value is_ip ∙ (rw (absent) (same_entry_refl reason now value is_ip)),
              has-append es _ other other_is_ip ∙ (rw blocked),
            )
    ]

has-filter :
    (es : List Entry) (value : String) (is_ip : Bool)
    → has (filter (λ e. not (equal_fold e.value value)) es) value is_ip ≡ false
unfolding has
has-filter [] value is_ip = refl
has-filter (e ∷ es) value is_ip = ground (arith, has-filter es value is_ip)

-- After a release the value is blocked neither as a domain nor as an address, whatever the case of
-- its letters and whether the save succeeds or not.
has-release :
    (s : Store (List Entry)) (given : String) (disk : Write (List Entry)) (is_ip : Bool)
    → has (release s given disk).0.current (trim_space given) is_ip ≡ false
unfolding release
has-release s given disk is_ip = has-filter s.current (trim_space given) is_ip
