-- ===== src/ShellQuote.antt =====
-- internal/shellquote/shellquote.go: a value as one shell word.
pub mod RoundTrip
mod Tests
use Prim.Native.Char.{Char, code}
use Prim.Native.String.{String, [], ◌∷◌}
use trust_proxy.Base.{Bool, true, false, ◌==◌, ◌&&◌, ◌||◌, nat_eq, leb, if◌then◌else◌}

abbrev pub is_plain : Char → Bool
is_plain c =
    let n = code c in
    nat_eq n b'.'
    || nat_eq n b'-'
    || nat_eq n b'_'
    || nat_eq n b'/'
    || nat_eq n b':'
    || (leb b'0' n && leb n b'9')
    || (leb b'a' n && leb n b'z')
    || (leb b'A' n && leb n b'Z')

unfoldable all_plain : String → Bool
all_plain [] = true
all_plain (c ∷ s) = is_plain c && all_plain s

abbrev pub is_quote : Char → Bool
is_quote c = nat_eq (code c) 39

-- Concatenation, character by character.
abbrev pub join : String → String → String
join [] t = t
join (c ∷ s) t = c ∷ join s t

-- Each quote is closed, escaped and opened again.
unfoldable escape : String → String
escape [] = []
escape (c ∷ s) =
    let rest = escape s in if is_quote c then c ∷ join "\\" (c ∷ c ∷ rest) else c ∷ rest

unfoldable quote : String → String
unfolding all_plain escape
quote s = if s == "" then "''" else if all_plain s then s else join "'" (join (escape s) "'")
