-- ===== src/ShellQuote/RoundTrip.antt =====
-- What a POSIX shell reads of a quoted value.
use Prim.Native.Char.{Char, code}
use Prim.Native.String.{String, [], ◌∷◌}
use trust_proxy.Base.{
  Bool, true, false, Option, none, some, ◌≡◌, refl, ◌∙◌, ap, arith, ◌==◌, ◌&&◌, ◌||◌, nat_eq, leb,
  ltb, if◌then◌else◌, Bool-cases, inl, inr, eq_iff,
}
use trust_proxy.ShellQuote.{is_plain, all_plain, is_quote, join, escape, quote}

-- Outside quotes, within single quotes, and behind a backslash.
data State : Type 0 where
  outside within behind : State

-- What the shell expands, splits or acts on outside quotes.
abbrev is_special : Char → Bool
is_special c =
    let n = code c in
    ltb n 33
    || (leb 33 n && leb n 44)
    || (leb 59 n && leb n 63)
    || (leb 91 n && leb n 94)
    || nat_eq n 96
    || leb 123 n

abbrev cons_read : Char → Option String → Option String
cons_read c none = none
cons_read c (some s) = some (c ∷ s)

-- The rest of one word: `none` if the text is not exactly that, read as it stands.
read : State → String → Option String
read outside [] = some []
read within [] = none
read behind [] = none
read outside (c ∷ s) =
    let inner = read within s in
    let escaped = read behind s in
    let rest = cons_read c (read outside s) in
    if is_quote c
    then inner
    else if nat_eq (code c) 92
    then escaped
    else if is_special c
    then none
    else rest
read within (c ∷ s) =
    let closed = read outside s in
    let rest = cons_read c (read within s) in if is_quote c then closed else rest
read behind (c ∷ s) = cons_read c (read outside s)

plain_lem :
    (c : Char)
    → is_plain c ≡ true
    → (is_quote c ≡ false) × (nat_eq (code c) 92 ≡ false) × (is_special c ≡ false)
plain_lem c h = (ground arith, ground arith, ground arith)

read-all_plain : (s : String) → all_plain s ≡ true → read outside s ≡ some s
unfolding all_plain read
read-all_plain [] h = refl
read-all_plain (c ∷ s) h =
    let here : is_plain c ≡ true = ground arith in
    let there : all_plain s ≡ true = ground arith in
    let (not_quote, not_slash, not_special) = plain_lem c here in
    rw (not_quote, not_slash, not_special, read-all_plain s there)

within-quote : (c : Char) (x : String) → is_quote c ≡ true → read within (c ∷ x) ≡ read outside x
unfolding read
within-quote c x q = rw q

outside-quote : (c : Char) (x : String) → is_quote c ≡ true → read outside (c ∷ x) ≡ read within x
unfolding read
outside-quote c x q = rw q

within_other :
    (c : Char) (x : String) → is_quote c ≡ false → read within (c ∷ x) ≡ cons_read c (read within x)
unfolding read
within_other c x q = rw q

-- Closed, escaped and opened again.
reopened :
    (c : Char) (x : String)
    → is_quote c ≡ true
    → read within (c ∷ join "\\" (c ∷ c ∷ x)) ≡ cons_read c (read within x)
reopened c x q =
    let escaped : read outside (join "\\" (c ∷ c ∷ x)) ≡ cons_read c (read outside (c ∷ x)) =
      unfold read in refl in
    within-quote c (join "\\" (c ∷ c ∷ x)) q ∙ escaped ∙ ap (cons_read c) (outside-quote c x q)

read-escape : (s : String) → read within (join (escape s) "'") ≡ some s
unfolding escape
read-escape [] = unfold read in refl
read-escape (c ∷ s) = elim (Bool-cases (is_quote c)) [
  | inl q ↦ rw q (reopened c (join (escape s) "'") q ∙ ap (cons_read c) (read-escape s))
  | inr p ↦ rw p (within_other c (join (escape s) "'") p ∙ ap (cons_read c) (read-escape s))
]

-- What the shell reads where a word may begin: without a character there is no word.
pub shell : String → Option String
shell [] = none
shell (c ∷ s) = read outside (c ∷ s)

shell-all_plain : (s : String) → (s == "") ≡ false → all_plain s ≡ true → shell s ≡ some s
unfolding shell
shell-all_plain [] given plain = cc
shell-all_plain (c ∷ s) given plain = read-all_plain (c ∷ s) plain

-- The shell reads a quoted value as one word, the empty value included, and that word is the value,
-- whatever the value holds.
pub shell-quote : (s : String) → shell (quote s) ≡ some s
unfolding quote shell
shell-quote s = elim (Bool-cases (s == "")) [
  | inl empty ↦ rw (empty, (eq_iff s "").0 empty) (unfold read in refl)
  | inr given ↦ elim (Bool-cases (all_plain s)) [
    | inl plain ↦ rw (given, plain) (shell-all_plain s given plain)
    | inr mixed ↦ rw (given, mixed) (unfold read in read-escape s)
  ]
]
