-- ===== src/Access/Routes.antt =====
-- internal/api/access.go: facts about the table of the routes.
use trust_proxy.Base.{
  ◌≤◌, String, Bool, true, false, List, [], ◌∷◌, Option, none, some, ◌≡◌, ◌⊎◌, inl, inr, refl,
  arith, ◌==◌, ◌||◌, not, if◌then◌else◌, any, all, eq_iff,
}
use trust_proxy.Base.Text.{strip_prefix}
use trust_proxy.Access.{Level, access_public, access_user, access_admin, rank, Web}
use trust_proxy.Access.Table.{Entry, lookup, route_levels, level_or_admin, level_of, probe_path}

abbrev pub has_name : List String → String → Bool
has_name ps p = any (λ q. q == p) ps

abbrev pub is_open : Level → Bool
is_open access_admin = false
is_open _ = true

is_open-rank : (l : Level) → rank l ≤ 1 → is_open l ≡ true
is_open-rank access_public h = refl
is_open-rank access_user h = refl
is_open-rank access_admin h = absurd (omega arith)

lookup_step :
    (b : Bool) (k l : Level) (o : Option Level)
    → (if b then some k else o) ≡ some l
    → ((b ≡ true) × (k ≡ l)) ⊎ (o ≡ some l)
lookup_step true k l o e = inl (refl, cc)
lookup_step false k l o e = inr e

-- What holds of every entry holds of the entry that a lookup finds.
lookup-all :
    (good : Entry → Bool) (table : List Entry) (p : String) (l : Level)
    → all good table ≡ true
    → lookup p table ≡ some l
    → good (p, l) ≡ true
unfolding lookup
lookup-all good [] p l h e = cc
lookup-all good ((q, k) ∷ table) p l h e = elim (lookup_step (q == p) k l (lookup p table) e) [
  | inl (same, level) ↦ found (q, k) (p, l) (ground arith) (λ i. ((eq_iff q p).0 same i, level i))
  | inr rest ↦ lookup-all good table p l (ground arith) rest
]
  where
    found : (x y : Entry) → good x ≡ true → x ≡ y → good y ≡ true
    found x y hx e' = rw (← e') hx

-- The routes below the level of admins that are not a GET.
abbrev pub open_writes : List String
open_writes =
    "POST /api/auth/bootstrap" ∷ "POST /api/auth/login" ∷ "POST /api/auth/logout"
    ∷ "POST /api/auth/register" ∷ "POST /api/auth/ticket" ∷ "POST /api/permit-requests"
    ∷ "/api/nodes/{id}/{rest...}" ∷ []

abbrev open_entry : Entry → Bool
open_entry e = not (is_open e.1) || (strip_prefix "GET " e.0).0 || has_name open_writes e.0

all_open : all open_entry route_levels ≡ true
unfolding strip_prefix
all_open = refl

open_or : (a b c : Bool) → a ≡ true → (not a || b || c) ≡ true → (b ≡ true) ⊎ (c ≡ true)
open_or a true c h e = inl refl
open_or a false c h e = inr (ground arith)

level_of-found :
    (o : Option Level) → rank (level_or_admin o) ≤ 1 → (l : Level) × (o ≡ some l) × (rank l ≤ 1)
level_of-found none h = absurd (omega arith)
level_of-found (some l) h = (l, refl, h)

-- A request has a level below admin only if the pattern that serves it is declared and is that of a
-- GET, or one of the four that log in or out, of tickets, of permit requests and of the relay.
pub open_routes_read :
    (web : Web) (method path : String)
    → rank (level_of web method path) ≤ 1
    → let p = web.pattern_of method (probe_path web path) in
      ((strip_prefix "GET " p).0 ≡ true) ⊎ (has_name open_writes p ≡ true)
unfolding level_of
open_routes_read web method path h =
    let p = web.pattern_of method (probe_path web path) in
    let (l, declared, below) = level_of-found (lookup p route_levels) h in
    open_or (is_open l) (strip_prefix "GET " p).0 (has_name open_writes p) (is_open-rank l below)
      (lookup-all open_entry route_levels p l all_open declared)
