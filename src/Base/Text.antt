-- ===== src/Base/Text.antt =====
-- What the program uses of Go's `strings` package. Case is that of ASCII: `to_lower` and
-- `equal_fold` leave every other letter as it is. White space is that of `unicode.IsSpace`.
use Prim.Native.Nat.{ℕ, zero, suc, ◌-◌}
use Prim.Native.Char.{Char, code}
use Prim.Native.String.{String, [], ◌∷◌}
use mathlib.Core.Bool.{Bool, true, false, ◌&&◌, ◌||◌}
use mathlib.Core.List.{List}
use mathlib.Core.Path.{◌≡◌}
use mathlib.Core.Logic.{◌≢◌, inl, inr}
use text.Mathlib.Text.{◌==◌}
use text.Mathlib.TextEquality.{eq_iff}
use package.trust_proxy.Base.Tests.{leb, nat_eq, if◌then◌else◌, Bool-cases}

-- The code points of a text: its bytes, if it is ASCII.
abbrev pub codes : String → List ℕ
codes [] = List.[]
codes (c ∷ s) = List.◌∷◌ (code c) (codes s)

unfoldable is_space : Char → Bool
is_space c =
    let n = code c in
    nat_eq n 32
    || (leb 9 n && leb n 13)
    || nat_eq n 0x85
    || nat_eq n 0xA0
    || nat_eq n 0x1680
    || (leb 0x2000 n && leb n 0x200a)
    || nat_eq n 0x2028
    || nat_eq n 0x2029
    || nat_eq n 0x202f
    || nat_eq n 0x205f
    || nat_eq n 0x3000

unfoldable trim_left : (Char → Bool) → String → String
trim_left p [] = []
trim_left p (c ∷ s) = if p c then trim_left p s else c ∷ s

-- A character is put back unless it and all behind it are trimmed.
abbrev cons_unless : Bool → Char → String → String
cons_unless b c [] = if b then [] else c ∷ []
cons_unless b c (d ∷ s) = c ∷ d ∷ s

unfoldable trim_right : (Char → Bool) → String → String
trim_right p [] = []
trim_right p (c ∷ s) = cons_unless (p c) c (trim_right p s)

abbrev pub char_in : String → Char → Bool
char_in [] c = false
char_in (d ∷ s) c = nat_eq (code d) (code c) || char_in s c

-- strings.TrimSpace
unfoldable pub trim_space : String → String
unfolding is_space trim_left trim_right
trim_space s = trim_right is_space (trim_left is_space s)

-- strings.Trim
unfoldable pub trim : String → String → String
unfolding trim_left trim_right
trim s cutset = trim_right (char_in cutset) (trim_left (char_in cutset) s)

-- strings.ContainsAny
unfoldable pub contains_any : String → String → Bool
contains_any [] chars = false
contains_any (c ∷ s) chars = char_in chars c || contains_any s chars

abbrev char_or : String → ℕ → Char → Char
char_or [] i d = d
char_or (c ∷ s) zero d = c
char_or (c ∷ s) (suc i) d = char_or s i d

unfoldable lower_char : Char → Char
lower_char c =
    if leb b'A' (code c) && leb (code c) b'Z'
    then char_or "abcdefghijklmnopqrstuvwxyz" (code c - b'A') c
    else c

-- strings.ToLower
unfoldable pub to_lower : String → String
unfolding lower_char
to_lower [] = []
to_lower (c ∷ s) = lower_char c ∷ to_lower s

unfoldable upper_char : Char → Char
upper_char c =
    if leb b'a' (code c) && leb (code c) b'z'
    then char_or "ABCDEFGHIJKLMNOPQRSTUVWXYZ" (code c - b'a') c
    else c

-- strings.ToUpper
unfoldable pub to_upper : String → String
unfolding upper_char
to_upper [] = []
to_upper (c ∷ s) = upper_char c ∷ to_upper s

-- strings.EqualFold
unfoldable pub equal_fold : String → String → Bool
unfolding to_lower
equal_fold s t = to_lower s == to_lower t

-- strings.HasPrefix, and where it holds what is behind the prefix.
unfoldable pub strip_prefix : String → String → Bool × String
strip_prefix [] s = (true, s)
strip_prefix (c ∷ p) [] = (false, [])
strip_prefix (c ∷ p) (d ∷ s) =
    let rest = strip_prefix p s in if nat_eq (code c) (code d) then rest else (false, d ∷ s)

-- strings.TrimPrefix: the whole text where the prefix is not there.
abbrev pub trim_prefix : String → String → String
trim_prefix prefix s = if (strip_prefix prefix s).0 then (strip_prefix prefix s).1 else s

pub differs : (s t : String) → s ≢ t → (s == t) ≡ false
differs s t ne = elim (Bool-cases (s == t)) [ inl e ↦ absurd (ne ((eq_iff s t).0 e)) | inr e ↦ e ]
