-- ===== src/ListStore/Notes.antt =====
-- internal/liststore/liststore.go: remarks.
use trust_proxy.Base.{
  String, List, [], ◌∷◌, none, some, ◌≡◌, ◌≢◌, refl, ◌∙◌, arith, ◌==◌, eq_iff, eq_refl, Bool-cases,
  inl, inr,
}
use trust_proxy.Base.Text.{trim_space}
use trust_proxy.ListStore.{
  Notes, entries, value_at, assign, delete, note_key, set_note, note_of, clear_key, nil_if_empty,
}

value_at-assign : (k v : String) (m : List (String × String)) → value_at k (assign k v m) ≡ v
unfolding value_at assign
value_at-assign k v [] = ground (arith, eq_refl k)
value_at-assign k v ((j, w) ∷ m) = ground (arith, eq_refl k, value_at-assign k v m)

value_at-assign_other :
    (k j v : String) (m : List (String × String)) → k ≢ j → value_at j (assign k v m) ≡ value_at j m
unfolding value_at assign
value_at-assign_other k j v [] ne = ground (arith, eq_iff k j)
value_at-assign_other k j v ((i, w) ∷ m) ne =
    ground (arith, eq_iff k j, eq_iff i k, eq_iff i j, value_at-assign_other k j v m ne)

value_at-delete : (k : String) (m : List (String × String)) → value_at k (delete k m) ≡ ""
unfolding value_at delete
value_at-delete k [] = refl
value_at-delete k ((j, w) ∷ m) = ground (arith, value_at-delete k m)

value_at-delete_other :
    (k j : String) (m : List (String × String)) → k ≢ j → value_at j (delete k m) ≡ value_at j m
unfolding value_at delete
value_at-delete_other k j [] ne = refl
value_at-delete_other k j ((i, w) ∷ m) ne =
    ground (arith, eq_iff i k, eq_iff i j, value_at-delete_other k j m ne)

abbrev value_in : String → Notes → String
value_in k none = ""
value_in k (some m) = value_at k m

note_of-value_in :
    (notes : Notes) (dim value : String)
    → note_of notes dim value ≡ value_in (note_key dim value) notes
unfolding note_of
note_of-value_in none dim value = refl
note_of-value_in (some m) dim value = refl

value_in-nil_if_empty :
    (k : String) (m : List (String × String)) → value_in k (nil_if_empty m) ≡ value_at k m
unfolding value_at
value_in-nil_if_empty k [] = refl
value_in-nil_if_empty k (e ∷ m) = refl

entries-value_in : (k : String) (notes : Notes) → value_at k (entries notes) ≡ value_in k notes
unfolding value_at
entries-value_in k none = refl
entries-value_in k (some m) = refl

cleared :
    (k j : String) (notes : Notes)
    → k ≢ j
    → (value_in k (clear_key k notes) ≡ "") × (value_in j (clear_key k notes) ≡ value_in j notes)
unfolding clear_key
cleared k j none ne = (refl, refl)
cleared k j (some m) ne = (
  value_in-nil_if_empty k (delete k m) ∙ value_at-delete k m,
  value_in-nil_if_empty j (delete k m) ∙ value_at-delete_other k j m ne,
)

-- The remark that is set is the one that is read back, trimmed, be it empty or not; and the remark
-- of an entry with another note key stays.
note_of-set_note :
    (notes : Notes) (dim value note other_dim other : String)
    → note_key dim value ≢ note_key other_dim other
    → (note_of (set_note notes dim value note) dim value ≡ trim_space note)
      × (note_of (set_note notes dim value note) other_dim other ≡ note_of notes other_dim other)
unfolding set_note clear_key
note_of-set_note notes dim value note other_dim other ne =
    let k = note_key dim value in
    let j = note_key other_dim other in
    elim (Bool-cases (trim_space note == "")) [
      | inl blank ↦
          rw
            (
              note_of-value_in _ dim value,
              note_of-value_in _ other_dim other,
              note_of-value_in notes other_dim other,
              blank,
              (eq_iff (trim_space note) "").0 blank,
            )
            (cleared k j notes ne)
      | inr given ↦
          rw
            (
              note_of-value_in _ dim value,
              note_of-value_in _ other_dim other,
              note_of-value_in notes other_dim other,
              given,
            )
            (
              value_at-assign k (trim_space note) (entries notes),
              value_at-assign_other k j (trim_space note) (entries notes) ne
                  ∙ entries-value_in j notes,
            )
    ]
