-- ===== src/ProxyGroups/Laws.antt =====
-- internal/proxygroups/store.go: what holds of the settings, whatever the file held and whatever Set
-- was given.
use trust_proxy.Base.{
  eq_iff, ◌||◌, String, Bool, true, false, List, [], ◌∷◌, ◌≡◌, refl, ap, subst, ◌∙◌, not, ◌==◌,
  arith, if◌then◌else◌, any, is_empty, Result, ok, err, Bool-cases, inl, inr, ◌⊎◌,
}
use trust_proxy.Base.Text.{differs, to_lower, to_upper, equal_fold}
use trust_proxy.ProxyGroups.{
  Group, Error, contains, validate_group, trimmed, check_trimmed, check_filter, valid_type,
  valid_filter, reserved_names,
}

module _ (compiles : String → Bool) where
  abbrev has_members : Group → Bool
  has_members g =
      if g.filter == "regex"
      then compiles g.value
      else if g.filter == "country"
      then not (g.value == "")
      else not (is_empty g.nodes)

  -- A group with a name that no built-in outbound has, a known type and a known filter, and what the
  -- filter needs.
  pub record IsUsable (g : Group) : Type 0 where
    pub named : (g.name == "") ≡ false
    pub not_proxy : equal_fold g.name "proxy" ≡ false
    pub not_auto : equal_fold g.name "auto" ≡ false
    pub not_direct : equal_fold g.name "direct" ≡ false
    pub not_blocked : equal_fold g.name "blocked" ≡ false
    pub typed : (g.kind ≡ "select") ⊎ (g.kind ≡ "urltest")
    pub filtered : (g.filter ≡ "country") ⊎ (g.filter ≡ "regex") ⊎ (g.filter ≡ "manual")
    pub members : has_members g ≡ true

  -- Each group is usable, and its name in lower case is none of `seen` and none of a group before it.
  abbrev pub AreFresh : List String → List Group → Type 0
  AreFresh seen [] = Unit {0}
  AreFresh seen (g ∷ gs) =
      (contains seen (to_lower g.name) ≡ false) × IsUsable g × AreFresh (to_lower g.name ∷ seen) gs

  upper_nonempty : (s : String) → (s == "") ≡ false → (to_upper s == "") ≡ false
  unfolding to_upper
  upper_nonempty String.[] h = h
  upper_nonempty (String.◌∷◌ c s) h = differs _ "" (λ e. cc)

  -- What the switch on the filter makes of a group, as far as it is read.
  record IsChecked (g g' : Group) : Type 0 where
    name : g'.name ≡ g.name
    kind : g'.kind ≡ g.kind
    filter : g'.filter ≡ g.filter
    members : has_members g' ≡ true

  same_group : {g g' : Group} → ◌≡◌ {A = Result Error Group} (ok g) (ok g') → g ≡ g'
  same_group e = cc

  as_is :
      (g g' : Group)
      → ◌≡◌ {A = Result Error Group} (ok g) (ok g')
      → has_members g ≡ true
      → IsChecked g g'
  as_is g g' e h =
      subst (IsChecked g) (same_group e)
        (record { name = refl; kind = refl; filter = refl; members = h })

  check_filter-IsChecked : (g g' : Group) → check_filter compiles g ≡ ok g' → IsChecked g g'
  check_filter-IsChecked g g' h = elim (Bool-cases (g.filter == "regex")) [
    | inl regex ↦ by_regex regex (Bool-cases (compiles g.value))
    | inr other ↦ elim (Bool-cases (g.filter == "country")) [
      | inl country ↦ by_country other country (Bool-cases (g.value == ""))
      | inr manual ↦ by_hand other manual (Bool-cases (is_empty g.nodes))
    ]
  ]
    where
      by_regex :
          (g.filter == "regex") ≡ true
          → (compiles g.value ≡ true) ⊎ (compiles g.value ≡ false)
          → IsChecked g g'
      by_regex r (inl good) = as_is g g' (ground (arith, h, r, good)) (rw r good)
      by_regex r (inr bad) = absurd (ground (arith, h, r, bad))

      by_country :
          (g.filter == "regex") ≡ false
          → (g.filter == "country") ≡ true
          → ((g.value == "") ≡ true) ⊎ ((g.value == "") ≡ false)
          → IsChecked g g'
      by_country r c (inl none_given) = absurd (ground (arith, h, r, c, none_given))
      by_country r c (inr given) =
          subst (IsChecked g)
            (same_group {g = record g { value = to_upper g.value }}
              (ground (arith, h, r, c, given)))
            (record {
              name = refl;
              kind = refl;
              filter = refl;
              members = rw (r, c, upper_nonempty g.value given) refl;
            })

      by_hand :
          (g.filter == "regex") ≡ false
          → (g.filter == "country") ≡ false
          → (is_empty g.nodes ≡ true) ⊎ (is_empty g.nodes ≡ false)
          → IsChecked g g'
      by_hand r c (inl empty) = absurd (ground (arith, h, r, c, empty))
      by_hand r c (inr some_nodes) =
          as_is g g' (ground (arith, h, r, c, some_nodes)) (rw (r, c, some_nodes) refl)

  passes :
      (b : Bool) (e : Error) (r : Result Error Group) {g : Group}
      → (if b then err e else r) ≡ ok g
      → (b ≡ false) × (r ≡ ok g)
  passes true e r h = cc
  passes false e r h = (refl, h)

  no_names :
      (a b c d : Bool)
      → (a || (b || (c || (d || false)))) ≡ false
      → (a ≡ false) × (b ≡ false) × (c ≡ false) × (d ≡ false)
  no_names a b c d h = (ground arith, ground arith, ground arith, ground arith)

  or_true : (a b : Bool) → not (a || b) ≡ false → (a ≡ true) ⊎ (b ≡ true)
  or_true true b h = inl refl
  or_true false true h = inr refl
  or_true false false h = cc

  valid_type-cases : (t : String) → not (valid_type t) ≡ false → (t ≡ "select") ⊎ (t ≡ "urltest")
  unfolding valid_type
  valid_type-cases t h = elim (or_true (t == "select") (t == "urltest") h) [
    | inl e ↦ inl ((eq_iff t "select").0 e)
    | inr e ↦ inr ((eq_iff t "urltest").0 e)
  ]

  valid_filter-cases :
      (f : String) → not (valid_filter f) ≡ false → (f ≡ "country") ⊎ (f ≡ "regex") ⊎ (f ≡ "manual")
  unfolding valid_filter
  valid_filter-cases f h = elim (or_true (f == "country" || f == "regex") (f == "manual") h) [
    | inl e ↦ elim (or_true (f == "country") (f == "regex") (rw e)) [
      | inl e' ↦ inl ((eq_iff f "country").0 e')
      | inr e' ↦ inr (inl ((eq_iff f "regex").0 e'))
    ]
    | inr e ↦ inr (inr ((eq_iff f "manual").0 e))
  ]

  check_trimmed-IsUsable : (g g' : Group) → check_trimmed compiles g ≡ ok g' → IsUsable g'
  check_trimmed-IsUsable g g' h =
      let (named, h₁) = passes (g.name == "") _ _ h in
      let (free, h₂) = passes (any (λ r. equal_fold g.name r) reserved_names) _ _ h₁ in
      let (typed, h₃) = passes (not (valid_type g.kind)) _ _ h₂ in
      let (filtered, h₄) = passes (not (valid_filter g.filter)) _ _ h₃ in
      let checked = check_filter-IsChecked g g' h₄ in
      let (no_proxy, no_auto, no_direct, no_blocked) =
        no_names (equal_fold g.name "proxy") (equal_fold g.name "auto") (equal_fold g.name "direct")
          (equal_fold g.name "blocked") free in
      record {
        named = ap (λ n. n == "") checked.name ∙ named;
        not_proxy = ap (λ n. equal_fold n "proxy") checked.name ∙ no_proxy;
        not_auto = ap (λ n. equal_fold n "auto") checked.name ∙ no_auto;
        not_direct = ap (λ n. equal_fold n "direct") checked.name ∙ no_direct;
        not_blocked = ap (λ n. equal_fold n "blocked") checked.name ∙ no_blocked;
        typed = valid_type-cases g'.kind (ap (λ t. not (valid_type t)) checked.kind ∙ typed);
        filtered =
            valid_filter-cases g'.filter (ap (λ f. not (valid_filter f)) checked.filter ∙ filtered);
        members = checked.members;
      }

  pub validate_group-IsUsable : (g g' : Group) → validate_group compiles g ≡ ok g' → IsUsable g'
  unfolding validate_group
  validate_group-IsUsable g g' h = check_trimmed-IsUsable (trimmed g) g' h
