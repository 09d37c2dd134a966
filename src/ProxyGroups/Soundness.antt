-- ===== src/ProxyGroups/Soundness.antt =====
-- internal/proxygroups/store.go: the groups and settings that pass sanitize and the checks of Set are
-- sound.
use trust_proxy.Base.{
  String, Bool, true, false, List, [], ◌∷◌, Option, none, some, ◌≡◌, refl, sym, ap, subst, ◌∙◌, not,
  ◌||◌, arith, if◌then◌else◌, Result, ok, err, >>=-ok, Bool-cases, Option-cases, inl, inr,
}
use trust_proxy.Base.Text.{to_lower, to_upper, trim_space}
use trust_proxy.ProxyGroups.{
  Group, no_failover, Config, Error, contains, validate_failover, validate_group, interval,
  idle_timeout, is_code, codes_from, normalize_codes,
}
use trust_proxy.ProxyGroups.Bounds.{IsSteady, validate_failover-IsSteady, IsCode, is_code-IsCode}
use trust_proxy.ProxyScore.Config.Laws.{IsBounded, validate-IsBounded}
use trust_proxy.ProxyGroups.Laws.{AreFresh, IsUsable, validate_group-IsUsable}
use trust_proxy.ProxyGroups.Settings.{
  kept_groups, keep_valid, now_seen, sanitize, check_groups, no_duplicate, first_then, check,
  unless_error, scoring_error, or_else, is_none, codes_of,
}
use trust_proxy.ProxyScore.Config as Scoring

-- Each is a country code in capitals, and none is in `seen` or stands before.
abbrev pub AreCodes : List String → List String → Type 0
AreCodes seen [] = Unit {0}
AreCodes seen (c ∷ cs) = IsCode c × (contains seen c ≡ false) × AreCodes (c ∷ seen) cs

code_kept :
    (seen cs : List String) (u : String) (a b : Bool)
    → is_code u ≡ a
    → contains seen u ≡ b
    → ((s : List String) → AreCodes s (codes_from s cs))
    → AreCodes seen (
        let skipped = not a || b in
        let rest = codes_from (if skipped then seen else u ∷ seen) cs in
        if skipped then rest else u ∷ rest)
code_kept seen cs u true false ea eb ih = (is_code-IsCode u ea, eb, ih (u ∷ seen))
code_kept seen cs u true true ea eb ih = ih seen
code_kept seen cs u false b ea eb ih = ih seen

pub codes_from-AreCodes : (seen cs : List String) → AreCodes seen (codes_from seen cs)
unfolding codes_from
codes_from-AreCodes seen [] = tt
codes_from-AreCodes seen (c ∷ cs) =
    let u = to_upper (trim_space c) in
    code_kept seen cs u (is_code u) (contains seen u) refl refl (λ s. codes_from-AreCodes s cs)

module _ (compiles : String → Bool) where
  -- Usable groups of which no two have one name, country codes that are there once, and settings of
  -- the failover and of the scores within their bounds.
  pub record IsSound (c : Config) : Type 0 where
    pub groups : AreFresh compiles [] c.groups
    pub codes : AreCodes [] (codes_of c.exclude_countries)
    pub failover : IsSteady c.failover
    pub scoring : IsBounded c.scoring

  fewer_seen :
      (seen seen' : List String) (gs : List Group)
      → ((v : String) → contains seen v ≡ false → contains seen' v ≡ false)
      → AreFresh compiles seen gs
      → AreFresh compiles seen' gs
  fewer_seen seen seen' [] sub h = tt
  fewer_seen seen seen' (g ∷ gs) sub h = (
    sub (to_lower g.name) h.0,
    h.1,
    fewer_seen (to_lower g.name ∷ seen) (to_lower g.name ∷ seen') gs
        (λ v e. ground (arith, e, sub v)) h.2,
  )

  keep_valid-AreFresh :
      (seen : List String) (g : Group) (r : Result Error Group) (gs : List Group)
      → validate_group compiles g ≡ r
      → AreFresh compiles (now_seen seen r) gs
      → AreFresh compiles seen (keep_valid seen r gs)
  keep_valid-AreFresh seen g (err e) gs h fresh = fresh
  keep_valid-AreFresh seen g (ok g') gs h fresh =
      elim (Bool-cases (contains seen (to_lower g'.name))) [
        | inl old ↦
            rw old (fewer_seen (to_lower g'.name ∷ seen) seen gs (λ v e. ground (arith, e)) fresh)
        | inr new ↦ rw new (new, validate_group-IsUsable compiles g g' h, fresh)
      ]

  kept-AreFresh :
      (seen : List String) (gs : List Group) → AreFresh compiles seen (kept_groups compiles seen gs)
  unfolding kept_groups
  kept-AreFresh seen [] = tt
  kept-AreFresh seen (g ∷ gs) =
      keep_valid-AreFresh seen g (validate_group compiles g) _ refl
        (kept-AreFresh (now_seen seen (validate_group compiles g)) gs)

  no_duplicate-ok :
      (seen : List String) (g g' : Group)
      → no_duplicate seen g ≡ ok g'
      → (contains seen (to_lower g.name) ≡ false) × (g ≡ g')
  no_duplicate-ok seen g g' h = elim (Bool-cases (contains seen (to_lower g.name))) [
    | inl old ↦ absurd (ground (arith, h, old))
    | inr new ↦ (new, ground (arith, h, new))
  ]

  first_then-ok :
      (g : Group) (r : Result Error (List Group)) (out : List Group)
      → first_then g r ≡ ok out
      → (gs : List Group) × (r ≡ ok gs) × (g ∷ gs ≡ out)
  first_then-ok g (ok gs) out h = (gs, refl, cc)
  first_then-ok g (err e) out h = cc

  pub check_groups-AreFresh :
      (seen : List String) (gs out : List Group)
      → check_groups compiles seen gs ≡ ok out
      → AreFresh compiles seen out
  unfolding check_groups
  check_groups-AreFresh seen [] out h = subst (AreFresh compiles seen) {x = []} (cc) tt
  check_groups-AreFresh seen (g ∷ gs) out h =
      let (g₁, h₁, valid) = >>=-ok _ (validate_group compiles g) h in
      let (g₂, h₂, single) = >>=-ok _ (no_duplicate seen g₁) h₁ in
      let (new, same) = no_duplicate-ok seen g₁ g₂ single in
      let (rest, good, whole) =
        first_then-ok g₂ (check_groups compiles (to_lower g₂.name ∷ seen) gs) out h₂ in
      subst (AreFresh compiles seen) whole (
        ap (λ x. contains seen (to_lower x.name)) (sym same) ∙ new,
        subst (IsUsable compiles) same (validate_group-IsUsable compiles g g₁ valid),
        check_groups-AreFresh (to_lower g₂.name ∷ seen) gs rest good,
      )

  pub no_failover-valid : validate_failover no_failover ≡ none
  unfolding validate_failover interval idle_timeout
  no_failover-valid = refl

  pub unset-valid : Scoring.validate Scoring.unset ≡ none
  unfolding Scoring.validate Scoring.check_ranges Scoring.first_true Scoring.first_negative
      Scoring.or_default
  unset-valid = refl

  or_else-valid {ℓ κ} :
      {A : Type ℓ} {E : Type κ} (check : A → Option E) (dflt a : A)
      → check dflt ≡ none
      → check (or_else dflt (is_none (check a)) a) ≡ none
  or_else-valid check dflt a h = elim (Option-cases (check a)) [
    | inl valid ↦ rw valid valid
    | inr (e, bad) ↦ rw bad h
  ]

  pub sanitize-IsSound : (c : Config) → IsSound (sanitize compiles c).0
  unfolding sanitize normalize_codes
  sanitize-IsSound c = record {
    groups = kept-AreFresh [] c.groups;
    codes = codes_from-AreCodes [] (codes_of c.exclude_countries);
    failover =
        validate_failover-IsSteady _
          (or_else-valid validate_failover no_failover c.failover no_failover-valid);
    scoring =
        validate-IsBounded _ (or_else-valid Scoring.validate Scoring.unset c.scoring unset-valid);
  }

  pub unless_error-ok :
      (e : Option Error) (gs out : List Group)
      → unless_error e gs ≡ ok out
      → (e ≡ none) × (gs ≡ out)
  unless_error-ok none gs out h = (refl, cc)
  unless_error-ok (some e) gs out h = cc

  pub scoring_error-none : (o : Option Scoring.Fault) → scoring_error o ≡ none → o ≡ none
  scoring_error-none none h = refl
  scoring_error-none (some e) h = cc
