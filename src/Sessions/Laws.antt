-- ===== src/Sessions/Laws.antt =====
-- internal/authn/authn.go: tickets are single use and live a minute; a session token carries its
-- account until it expires.
use trust_proxy.Base.{
  ℕ, ◌+◌, ◌<◌, String, false, List, [], ◌∷◌, Option, none, some, ◌≡◌, ◌≢◌, inl, inr, refl, arith,
  ◌==◌, ltb, if◌then◌else◌, eq_iff, eq_refl, Bool-cases,
}
use trust_proxy.Base.Text.{differs}
use trust_proxy.Sessions.{
  Claims, Ticket, Authn, ticket_ttl, find_ticket, drop_ticket, mint_ticket, redeem_ticket,
  redeem_found, session_token, issue, issue_claims, verify, with_subject, with_expiry,
}

find_ticket-drop_ticket :
    (tok : String) (m : List (String × Ticket)) → find_ticket tok (drop_ticket tok m) ≡ none
unfolding find_ticket drop_ticket
find_ticket-drop_ticket tok [] = refl
find_ticket-drop_ticket tok ((k, t) ∷ m) = elim (Bool-cases (k == tok)) [
  | inl e ↦ rw e (find_ticket-drop_ticket tok m)
  | inr e ↦ rw (e, e) (find_ticket-drop_ticket tok m)
]

redeem_found-again :
    (now later : ℕ) (tok : String) (a : Authn) (o : Option Ticket)
    → find_ticket tok a.tickets ≡ o
    → (redeem_found later tok
        (redeem_found now tok a o).0
        (find_ticket tok (redeem_found now tok a o).0.tickets)).1
      ≡ none
redeem_found-again now later tok a none e = rw e
redeem_found-again now later tok a (some t) e = rw (find_ticket-drop_ticket tok a.tickets)

-- A ticket is redeemed once: whatever the first attempt gave, and whenever it and the second are
-- made, the second gives no account.
redeem_once :
    (now later : ℕ) (tok : String) (a : Authn)
    → (redeem_ticket later tok (redeem_ticket now tok a).0).1 ≡ none
unfolding redeem_ticket
redeem_once now later tok a = elim (Bool-cases (tok == "")) [
  | inl e ↦ rw e
  | inr e ↦ rw e (redeem_found-again now later tok a (find_ticket tok a.tickets) refl)
]

-- A ticket that was minted gives the account that it was minted for up to a minute later, and no
-- account after that.
redeem-mint :
    (now later : ℕ) (tok user_id : String) (a : Authn)
    → tok ≢ ""
    → (redeem_ticket later tok (mint_ticket now (some tok) user_id a).0).1
      ≡ (if ltb (now + ticket_ttl) later then none else some user_id)
unfolding redeem_ticket mint_ticket find_ticket
redeem-mint now later tok user_id a named = elim (Bool-cases (tok == "")) [
  | inl e ↦ absurd (named ((eq_iff tok "").0 e))
  | inr e ↦ rw (e, eq_refl tok)
]

pub session_token-cookie :
    (cookie authorization : String)
    → cookie ≢ ""
    → (session_token cookie authorization ≡ cookie)
      × ((session_token cookie authorization == "") ≡ false)
unfolding session_token
session_token-cookie cookie authorization ne =
    let e = differs cookie "" ne in rw (e, e) (refl, refl)

module _ (numeric_date : ℕ → ℕ) (sign : Claims → Option String)
    (parse : ℕ → String → Option Claims) where
  -- golang-jwt reads back the claims that it signed as long as they have not expired. Their expiry is a
  -- time as it keeps it.
  abbrev pub ReadsBack : Type 0
  ReadsBack =
      (c : Claims) (token : String) (t end : ℕ)
      → c.expires ≡ numeric_date end
      → sign c ≡ some token
      → t < c.expires
      → parse t token ≡ some c

  issued :
      (at_end : ℕ) (o : Option String) (token : String) (exp : ℕ)
      → with_expiry at_end o ≡ some (token, exp)
      → (o ≡ some token) × (exp ≡ at_end)
  issued at_end none token exp h = cc
  issued at_end (some x) token exp h = (ground arith, ground arith)

  with_subject-named :
      (c : Claims) (o : Option Claims) → c.subject ≢ "" → o ≡ some c → with_subject o ≡ some c
  with_subject-named c o named e = elim (Bool-cases (c.subject == "")) [
    | inl empty ↦ absurd (named ((eq_iff c.subject "").0 empty))
    | inr e' ↦ rw (e, e')
  ]

  -- A token that is issued is verified, with the claims of its account, until the time at which these
  -- expire.
  pub verify-issue :
      (a : Authn) (now t : ℕ) (id name role : String) (epoch : ℕ) (token : String) (exp : ℕ)
      → ReadsBack
      → id ≢ ""
      → issue numeric_date sign a now id name role epoch ≡ some (token, exp)
      → t < numeric_date exp
      → verify sign parse t token ≡ some (issue_claims numeric_date a now id name role epoch)
  unfolding issue verify
  verify-issue a now t id name role epoch token exp reads named h live =
      let c = issue_claims numeric_date a now id name role epoch in
      let (signed, end) = issued (now + a.ttl) (sign c) token exp h in
      with_subject-named c (parse t token) named
        (reads c token t (now + a.ttl) refl signed (rw end at live))
