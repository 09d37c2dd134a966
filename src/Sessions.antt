-- ===== src/Sessions.antt =====
-- internal/authn/authn.go: session tokens, console tickets and the one-time claim code. Signing and
-- parsing of JWTs (golang-jwt), random bytes and the cookie of a request are parameters. Times are
-- numbers of nanoseconds. The map of the tickets is an association list.
pub mod Laws
mod Tests
use trust_proxy.Base.{
  ℕ, ◌+◌, ◌*◌, ◌^◌, String, Bool, true, false, List, [], ◌∷◌, Option, none, some, ◌==◌, ◌||◌, not,
  ltb, if◌then◌else◌, filter,
}
use trust_proxy.Base.Text.{trim_space, strip_prefix}

pub record Claims : Type 0 where
  pub subject : String
  pub username : String
  pub role : String
  pub epoch : ℕ
  pub expires : ℕ

pub record Ticket : Type 0 where
  pub user_id : String
  pub expires : ℕ

pub record Authn : Type 0 where
  -- `bootstrap` is "" where there is no claim code.
  pub bootstrap : String
  pub ttl : ℕ
  pub tickets : List (String × Ticket)

abbrev pub default_ttl : ℕ
default_ttl = 12 * (60 * (60 * (10 ^ 9)))

abbrev pub ticket_ttl : ℕ
ticket_ttl = 60 * (10 ^ 9)

-- SetTTL: a duration that is not positive is left out.
unfoldable set_ttl : Authn → ℕ → Authn
set_ttl a d = if ltb 0 d then record a { ttl = d } else a

unfoldable pub find_ticket : String → List (String × Ticket) → Option Ticket
find_ticket tok [] = none
find_ticket tok ((k, t) ∷ m) = if k == tok then some t else find_ticket tok m

unfoldable pub drop_ticket : String → List (String × Ticket) → List (String × Ticket)
drop_ticket tok [] = []
drop_ticket tok ((k, t) ∷ m) = if k == tok then drop_ticket tok m else (k, t) ∷ drop_ticket tok m

abbrev pub is_live : ℕ → String × Ticket → Bool
is_live now e = not (ltb e.1.expires now)

-- `drawn` is the random token, `none` where there are no random bytes.
unfoldable pub mint_ticket : ℕ → Option String → String → Authn → Authn × Option String
unfolding drop_ticket
mint_ticket now none user_id a = (a, none)
mint_ticket now (some tok) user_id a =
    let t : Ticket = record { user_id = user_id; expires = now + ticket_ttl } in
    (record a { tickets = (tok, t) ∷ drop_ticket tok (filter (is_live now) a.tickets) }, some tok)

abbrev pub redeem_found : ℕ → String → Authn → Option Ticket → Authn × Option String
redeem_found now tok a none = (a, none)
redeem_found now tok a (some t) = (
  record a { tickets = drop_ticket tok a.tickets },
  if ltb t.expires now then none else some t.user_id,
)

unfoldable pub redeem_ticket : ℕ → String → Authn → Authn × Option String
unfolding find_ticket
redeem_ticket now tok a =
    if tok == "" then (a, none) else redeem_found now tok a (find_ticket tok a.tickets)

unfoldable pub check_bootstrap_code : Authn → String → Bool
check_bootstrap_code a got =
    if a.bootstrap == "" || got == "" then false else a.bootstrap == trim_space got

unfoldable pub clear_bootstrap_code : Authn → Authn
clear_bootstrap_code a = record a { bootstrap = "" }

-- SessionToken, of the session cookie ("" if there is none) and the Authorization header.
unfoldable pub session_token : String → String → String
unfolding strip_prefix trim_space
session_token cookie authorization =
    let bearer = strip_prefix "Bearer " authorization in
    if not (cookie == "") then cookie else if bearer.0 then trim_space bearer.1 else ""

-- `numeric_date` is jwt.NewNumericDate, which cuts a time to the precision of golang-jwt.
abbrev pub issue_claims : (ℕ → ℕ) → Authn → ℕ → String → String → String → ℕ → Claims
issue_claims numeric_date a now id name role epoch = record {
  subject = id;
  username = name;
  role = role;
  epoch = epoch;
  expires = numeric_date (now + a.ttl);
}

abbrev pub with_subject : Option Claims → Option Claims
with_subject none = none
with_subject (some c) = if c.subject == "" then none else some c

abbrev pub with_expiry : ℕ → Option String → Option (String × ℕ)
with_expiry exp none = none
with_expiry exp (some token) = some (token, exp)

-- `parse` is ParseWithClaims with the options of the source: no result for a token that is not a
-- valid one of the issuer at that time.
module _ (sign : Claims → Option String) (parse : ℕ → String → Option Claims) where
  unfoldable pub verify : ℕ → String → Option Claims
  verify now token = with_subject (parse now token)

module _ (numeric_date : ℕ → ℕ) (sign : Claims → Option String) where
  -- Issue: the token and its expiry, which is not cut as that of the claims is, for the account of
  -- that id, name, role and epoch.
  unfoldable pub issue : Authn → ℕ → String → String → String → ℕ → Option (String × ℕ)
  issue a now id name role epoch =
      with_expiry (now + a.ttl) (sign (issue_claims numeric_date a now id name role epoch))
