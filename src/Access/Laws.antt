-- ===== src/Access/Laws.antt =====
-- internal/api/auth.go: what the middleware lets through.
use trust_proxy.Base.{
  ℕ, ◌≤◌, String, Bool, true, false, Option, none, some, ◌≡◌, ◌⊎◌, inl, inr, refl, ap, arith, ◌==◌,
  ◌&&◌, ◌||◌, not, if◌then◌else◌, ok, err, eq_iff, eq_refl,
}
use trust_proxy.Base.Text.{strip_prefix, equal_fold}
use trust_proxy.Users.Accounts.{PublicUser}
use trust_proxy.Throttle.{Throttle}
use trust_proxy.Access.{
  Level, access_public, access_user, access_admin, rank, Request, Web, is_self_service, is_mutation,
  origin_ok, same_host,
}
use trust_proxy.Access.Table.{requirement}
use trust_proxy.Access.Guard.{
  Accounts, Server, Verdict, next, cross_origin, not_admin, Answer, authenticate, with_auth,
  authorized, login_verdict, caller_verdict, no_caller, is_own,
}

or_cases : (a b : Bool) → (a || b) ≡ true → (a ≡ true) ⊎ (b ≡ true)
or_cases true b h = inl refl
or_cases false b h = inr h

or_true : (b : Bool) → (b || true) ≡ true
or_true true = refl
or_true false = refl

no_caller-next : (a : Option Accounts) (held : Bool) → no_caller a ≡ next held → ⊥
no_caller-next none held h = ground arith
no_caller-next (some a) held h = ground arith

-- What lets an admin request through.
abbrev pub MayAdminister : Request → PublicUser → Type 0
MayAdminister r u = (u.role ≡ "admin") ⊎ (is_self_service r ≡ some u.id)

is_own-id : (u : PublicUser) (o : Option String) → is_own u o ≡ true → o ≡ some u.id
is_own-id u none h = cc
is_own-id u (some id) h = ap some ((eq_iff id u.id).0 h)

admin_or_own :
    (r : Request) (u : PublicUser) (b : Bool) (held : Bool)
    → (if b then next false else not_admin) ≡ next held
    → b ≡ true
admin_or_own r u true held h = refl
admin_or_own r u false held h = ground arith

caller_verdict-next :
    (r : Request) (u : PublicUser) (held : Bool)
    → caller_verdict access_admin r u ≡ next held
    → MayAdminister r u
caller_verdict-next r u held h =
    elim (or_cases (u.role == "admin") (is_own u (is_self_service r)) (admin_or_own r u _ held h)) [
      | inl a ↦ inl ((eq_iff u.role "admin").0 a)
      | inr o ↦ inr (is_own-id u (is_self_service r) o)
    ]

behind_guards :
    (api foreign : Bool) (t : Throttle) (o : Throttle × Verdict) (held : Bool)
    → api ≡ true
    → (if not api then (t, next false) else if foreign then (t, cross_origin) else o).1 ≡ next held
    → (foreign ≡ false) × (o.1 ≡ next held)
behind_guards false foreign t o held e h = cc
behind_guards true true t o held e h = ground arith
behind_guards true false t o held e h = (refl, h)

-- A verdict on a level above public lets a known caller through only.
login_verdict-next :
    (need : Level) (r : Request) (a : Option Accounts) (answer : Answer) (held : Bool)
    → login_verdict need r a answer ≡ next held
    → (u : PublicUser) × (answer ≡ ok (some u)) × (caller_verdict need r u ≡ next held)
login_verdict-next need r a (err e) held h = absurd (no_caller-next a held h)
login_verdict-next need r a (ok none) held h = absurd (no_caller-next a held h)
login_verdict-next need r a (ok (some u)) held h = (u, refl, h)

module _ (web : Web) (server : Server) where
  with_auth-next :
      (now : ℕ) (r : Request) (t : Throttle) (held : Bool)
      → (strip_prefix "/api/" r.path).0 ≡ true
      → (with_auth web server now r t).1 ≡ next held
      → ((is_mutation r.method && not (origin_ok web r)) ≡ false)
        × ((authorized web server now r (requirement web r) t).1 ≡ next held)
  unfolding with_auth
  with_auth-next now r t held api h = behind_guards (strip_prefix "/api/" r.path).0 _ t _ held api h

  authorized-next :
      (now : ℕ) (r : Request) (need : Level) (t : Throttle) (held : Bool)
      → 1 ≤ rank need
      → (authorized web server now r need t).1 ≡ next held
      → (u : PublicUser) × (authenticate web server r ≡ ok (some u))
        × (caller_verdict need r u ≡ next held)
  authorized-next now r access_public t held above h = absurd (omega arith)
  authorized-next now r access_user t held above h =
      login_verdict-next access_user r server.accounts (authenticate web server r) held h
  authorized-next now r access_admin t held above h =
      login_verdict-next access_admin r server.accounts (authenticate web server r) held h

  -- A request below /api/ for a route that is admin reaches its handler only for a caller that is
  -- authenticated, and who is an admin or asks for their own password or keys.
  pub admin_only :
      (now : ℕ) (r : Request) (t : Throttle) (held : Bool)
      → (strip_prefix "/api/" r.path).0 ≡ true
      → requirement web r ≡ access_admin
      → (with_auth web server now r t).1 ≡ next held
      → (u : PublicUser) × (authenticate web server r ≡ ok (some u)) × MayAdminister r u
  admin_only now r t held api need h =
      let passed = (with_auth-next now r t held api h).1 in
      let (u, known, allowed) =
        authorized-next now r access_admin t held (omega arith) (rw need at passed) in
      (u, known, caller_verdict-next r u held allowed)

  same_origin :
      (r : Request) (o : Option String)
      → same_host r.host o ≡ true
      → (h : String) × (o ≡ some h) × (equal_fold h r.host ≡ true)
  same_origin r none e = cc
  same_origin r (some h) e = (h, refl, e)

  origin_ok-cases :
      (r : Request) (b : Bool)
      → (r.origin == "") ≡ b
      → (if b then true else same_host r.host (web.url_host r.origin)) ≡ true
      → (r.origin ≡ "")
        ⊎ ((h : String) × (web.url_host r.origin ≡ some h) × (equal_fold h r.host ≡ true))
  origin_ok-cases r true e ok' = inl ((eq_iff r.origin "").0 e)
  origin_ok-cases r false e ok' = inr (same_origin r (web.url_host r.origin) ok')

  -- A request below /api/ that changes something reaches its handler, public routes included, only
  -- if it has no Origin, or one that parses and names the host that the request was sent to.
  pub mutation_same_origin :
      (now : ℕ) (r : Request) (t : Throttle) (held : Bool)
      → (strip_prefix "/api/" r.path).0 ≡ true
      → is_mutation r.method ≡ true
      → (with_auth web server now r t).1 ≡ next held
      → (r.origin ≡ "")
        ⊎ ((h : String) × (web.url_host r.origin ≡ some h) × (equal_fold h r.host ≡ true))
  unfolding origin_ok
  mutation_same_origin now r t held api changes h =
      let own = (with_auth-next now r t held api h).0 in
      origin_ok-cases r (r.origin == "") refl (ground (arith, own, changes))

  own_request :
      (r : Request) (u : PublicUser)
      → is_self_service r ≡ some u.id
      → caller_verdict access_admin r u ≡ next false
  own_request r u own = rw (own, eq_refl u.id, or_true (u.role == "admin"))

  -- The branch of one's own account.
  pub self_service_reached :
      (now : ℕ) (r : Request) (t : Throttle) (u : PublicUser)
      → (strip_prefix "/api/" r.path).0 ≡ true
      → requirement web r ≡ access_admin
      → (is_mutation r.method && not (origin_ok web r)) ≡ false
      → authenticate web server r ≡ ok (some u)
      → is_self_service r ≡ some u.id
      → with_auth web server now r t ≡ (t, next false)
  unfolding with_auth
  self_service_reached now r t u api need own_origin known own =
      rw (api, own_origin, need, known) (ap (λ v. (t, v)) (own_request r u own))
