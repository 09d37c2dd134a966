-- ===== src/Access/Callers.antt =====
-- internal/api/auth.go: who a request is authenticated as.
use trust_proxy.Base.{
  String, Bool, true, false, Option, none, some, ◌≡◌, ◌⊎◌, inl, inr, refl, sym, ap, ◌∙◌, arith,
  ◌==◌, if◌then◌else◌, ok,
}
use trust_proxy.Users.Accounts.{PublicUser}
use trust_proxy.Sessions.{Claims, session_token}
use trust_proxy.Access.{Request, Web, is_loopback}
use trust_proxy.Access.Guard.{
  Accounts, Server, Answer, Attempt, skipped, refused, found, authenticate, is_static, static_user,
  unclaimed_user, is_current, if_current, api_key_from, try_key, try_session, answer_of,
  is_unclaimed, session_answer, re_read, attempt_of, last_answer,
}

module _ (web : Web) (server : Server) where
  -- An account of the registry that the key of the request opens.
  abbrev pub HasKey : Request → PublicUser → Type 0
  HasKey r u = (a : Accounts) × (server.accounts ≡ some a) × (a.by_key (api_key_from r) ≡ some u)

  -- An enabled account with a session of its present epoch.
  abbrev pub HasSession : Request → PublicUser → Type 0
  HasSession r u =
      (a : Accounts) × (verify : String → Option Claims) × (c : Claims) × (server.accounts ≡ some a)
      × (server.verifier ≡ some verify)
      × (verify (session_token r.cookie r.authorization) ≡ some c)
      × (a.account c.subject ≡ some u)
      × (u.disabled ≡ false)
      × (c.epoch ≡ u.session_epoch)

  attempt-found : (o : Option PublicUser) (u : PublicUser) → attempt_of o ≡ found u → o ≡ some u
  attempt-found none u e = ground arith
  attempt-found (some v) u e = ground arith

  unless_empty :
      (b : Bool) (k : Attempt) (u : PublicUser) → (if b then skipped else k) ≡ found u → k ≡ found u
  unless_empty true k u e = ground arith
  unless_empty false k u e = e

  try_key-found :
      (o : Option Accounts) (key : String) (u : PublicUser)
      → try_key o key ≡ found u
      → (a : Accounts) × (o ≡ some a) × (a.by_key key ≡ some u)
  try_key-found none key u e = ground arith
  try_key-found (some a) key u e =
      (a, refl, attempt-found (a.by_key key) u (unless_empty (key == "") _ u e))

  if_current-ok :
      (b : Bool) (v u : PublicUser) → if_current b v ≡ ok (some u) → (b ≡ true) × (v ≡ u)
  if_current-ok true v u e = (refl, ground arith)
  if_current-ok false v u e = ground arith

  is_current-true :
      (c : Claims) (v : PublicUser)
      → is_current c v ≡ true
      → (v.disabled ≡ false) × (c.epoch ≡ v.session_epoch)
  is_current-true c v e = ground arith

  re_read-ok :
      (c : Claims) (o : Option PublicUser) (u : PublicUser)
      → re_read c o ≡ ok (some u)
      → (o ≡ some u) × (u.disabled ≡ false) × (c.epoch ≡ u.session_epoch)
  re_read-ok c none u e = ground arith
  re_read-ok c (some v) u e =
      let (now, same) = if_current-ok (is_current c v) v u e in
      let (live, epoch) = is_current-true c u (rw same at now) in (ap some same, live, epoch)

  last_answer-ok :
      (key : Attempt) (unclaimed loopback : Bool) (u : PublicUser)
      → last_answer key unclaimed loopback ≡ ok (some u)
      → (unclaimed ≡ true) × (loopback ≡ true) × (u ≡ unclaimed_user)
  last_answer-ok refused unclaimed loopback u e = ground arith
  last_answer-ok skipped unclaimed loopback u e = ground arith
  last_answer-ok (found v) unclaimed loopback u e = ground arith

  answer_of-ok :
      (key : Attempt) (static : Bool) (session : Option Answer) (unclaimed loopback : Bool)
      (u : PublicUser)
      → answer_of key static session unclaimed loopback ≡ ok (some u)
      → (key ≡ found u)
        ⊎ ((static ≡ true) × (u ≡ static_user))
        ⊎ (session ≡ some (ok (some u)))
        ⊎ ((unclaimed ≡ true) × (loopback ≡ true) × (u ≡ unclaimed_user))
  answer_of-ok (found v) static session unclaimed loopback u e = inl (ground arith)
  answer_of-ok skipped true session unclaimed loopback u e = inr (inl (refl, ground arith))
  answer_of-ok refused true session unclaimed loopback u e = inr (inl (refl, ground arith))
  answer_of-ok skipped false (some a) unclaimed loopback u e = inr (inr (inl (ap some e)))
  answer_of-ok refused false (some a) unclaimed loopback u e = inr (inr (inl (ap some e)))
  answer_of-ok skipped false none unclaimed loopback u e =
      inr (inr (inr (last_answer-ok skipped unclaimed loopback u e)))
  answer_of-ok refused false none unclaimed loopback u e =
      inr (inr (inr (last_answer-ok refused unclaimed loopback u e)))

  session_answer-ok :
      (o : Option Accounts) (oc : Option Claims) (u : PublicUser)
      → session_answer o oc ≡ some (ok (some u))
      → (a : Accounts) × (c : Claims) × (o ≡ some a)
        × (oc ≡ some c)
        × (a.account c.subject ≡ some u)
        × (u.disabled ≡ false)
        × (c.epoch ≡ u.session_epoch)
  session_answer-ok o none u e = ground arith
  session_answer-ok none (some c) u e = ground arith
  session_answer-ok (some a) (some c) u e =
      let (known, live, epoch) = re_read-ok c (a.account c.subject) u (some-answer _ _ e) in
      (a, c, refl, refl, known, live, epoch)
    where
      some-answer : (x y : Answer) → some x ≡ some y → x ≡ y
      some-answer x y e' = cc

  unless_no_token :
      (b : Bool) (o : Option Answer) (a : Answer) → (if b then none else o) ≡ some a → o ≡ some a
  unless_no_token true o a e = cc
  unless_no_token false o a e = e

  try_session-ok :
      (r : Request) (o : Option Accounts) (v : Option (String → Option Claims)) (u : PublicUser)
      → o ≡ server.accounts
      → v ≡ server.verifier
      → try_session o v (session_token r.cookie r.authorization) ≡ some (ok (some u))
      → HasSession r u
  try_session-ok r o none u eo ev e = cc
  try_session-ok r o (some verify) u eo ev e =
      let tok = session_token r.cookie r.authorization in
      let (a, c, known, valid, live, enabled, epoch) =
        session_answer-ok o (verify tok) u (unless_no_token (tok == "") _ _ e) in
      (a, verify, c, sym eo ∙ known, sym ev, valid, live, enabled, epoch)

  -- A request is authenticated as an account only by a key that opens it, by the static token, by a
  -- session of its present epoch while it is enabled, or, where there are no accounts and no token,
  -- from the loopback.
  pub authenticate_ways :
      (r : Request) (u : PublicUser)
      → authenticate web server r ≡ ok (some u)
      → HasKey r u
        ⊎ ((is_static server r ≡ true) × (u ≡ static_user))
        ⊎ HasSession r u
        ⊎ ((is_unclaimed server.accounts server.token ≡ true)
            × (is_loopback web r.remote_addr ≡ true)
            × (u ≡ unclaimed_user))
  unfolding authenticate
  authenticate_ways r u h = elim (answer_of-ok _ _ _ _ _ u h) [
    | inl k ↦ inl (try_key-found server.accounts (api_key_from r) u k)
    | inr (inl s) ↦ inr (inl s)
    | inr (inr (inl s)) ↦
        inr (inr (inl (try_session-ok r server.accounts server.verifier u refl refl s)))
    | inr (inr (inr l)) ↦ inr (inr (inr l))
  ]
