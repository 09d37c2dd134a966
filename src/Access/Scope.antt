-- ===== src/Access/Scope.antt =====
-- internal/api/scope.go: what of the gateway's traffic a caller sees. The records are of any type
-- with an account and, for connections, two counts of bytes.
use mathlib.Core.List.{append_assoc, append-nil}
use trust_proxy.Base.{
  ℕ, ◌+◌, String, Bool, List, [], ◌∷◌, ◌++◌, none, some, ◌≡◌, ◌≢◌, refl, sym, ◌∙◌, arith, ◌==◌,
  ◌||◌, if◌then◌else◌, filter, ok, err, eq_iff, Bool-cases, inl, inr,
}
use trust_proxy.Base.Text.{equal_fold}
use trust_proxy.Users.Accounts.{PublicUser}
use trust_proxy.Access.{Request, Web}
use trust_proxy.Access.Guard.{Server, Answer, authenticate}

abbrev pub name_of : Answer → String
name_of (err e) = ""
name_of (ok none) = ""
name_of (ok (some u)) = if u.role == "admin" then "" else u.username

-- The account that the view is limited to, "" for no limit.
unfoldable pub scope_user : Web → Server → Request → String
scope_user web server r = name_of (authenticate web server r)

abbrev pub owns : String → String → Bool
owns user name = name == "" || equal_fold user name

module _ {ℓ} {A : Type ℓ} (user : A → String) where
  -- scopeEvents, scopeDetections and scopeHistory, which differ in the type of a record.
  abbrev pub kept : String → List A → List A
  kept name [] = []
  kept name (e ∷ es) = let rest = kept name es in if owns (user e) name then e ∷ rest else rest

  unfoldable pub scope_records : List A → String → List A
  scope_records es name = if name == "" then es else kept name es

  module _ (upload download : A → ℕ) where
    pub record Connections : Type ℓ where
      pub upload_total : ℕ
      pub download_total : ℕ
      pub connections : List A

    abbrev pub push : Connections → A → Connections
    push out c = record {
      upload_total = out.upload_total + upload c;
      download_total = out.download_total + download c;
      connections = out.connections ++ c ∷ [];
    }

    abbrev pub collect : String → List A → Connections → Connections
    collect name [] out = out
    collect name (c ∷ cs) out =
        collect name cs (if equal_fold (user c) name then push out c else out)

    unfoldable pub scope_connections : Connections → String → Connections
    scope_connections snap name =
        if name == ""
        then snap
        else collect name snap.connections
            (record { upload_total = 0; download_total = 0; connections = [] })

    abbrev pub sum_of : (A → ℕ) → List A → ℕ
    sum_of f [] = 0
    sum_of f (c ∷ cs) = f c + sum_of f cs

    -- The records of that account in the order of the list, and their sums.
    abbrev pub own_view : String → List A → Connections
    own_view name cs =
        let own = filter (λ c. equal_fold (user c) name) cs in
        record {
          upload_total = sum_of upload own;
          download_total = sum_of download own;
          connections = own;
        }

    abbrev after : Connections → Connections → Connections
    after out v = record {
      upload_total = out.upload_total + v.upload_total;
      download_total = out.download_total + v.download_total;
      connections = out.connections ++ v.connections;
    }

    same_view :
        (u u' d d' : ℕ) (cs cs' : List A)
        → u ≡ u'
        → d ≡ d'
        → cs ≡ cs'
        → ◌≡◌ {A = Connections}
            (record { upload_total = u; download_total = d; connections = cs })
            (record { upload_total = u'; download_total = d'; connections = cs' })
    same_view u u' d d' cs cs' eu ed ec i = record {
      upload_total = eu i;
      download_total = ed i;
      connections = ec i;
    }

    collect-own_view :
        (name : String) (cs : List A) (out : Connections)
        → collect name cs out ≡ after out (own_view name cs)
    collect-own_view name [] out =
        same_view _ _ _ _ _ _ (omega arith) (omega arith) (sym (append-nil out.connections))
    collect-own_view name (c ∷ cs) out = elim (Bool-cases (equal_fold (user c) name)) [
      | inl own ↦ rw own (
          collect-own_view name cs (push out c)
          ∙ same_view _ _ _ _ _ _ (omega arith) (omega arith)
              (append_assoc out.connections (c ∷ []) (filter (λ x. equal_fold (user x) name) cs)))
      | inr foreign ↦ rw foreign (collect-own_view name cs out)
    ]

    scope_connections-own_view :
        (snap : Connections) (name : String)
        → name ≢ ""
        → scope_connections snap name ≡ own_view name snap.connections
    unfolding scope_connections
    scope_connections-own_view snap name named = elim (Bool-cases (name == "")) [
      | inl e ↦ absurd (named ((eq_iff name "").0 e))
      | inr e ↦ rw e (
          collect-own_view name snap.connections _
          ∙ same_view _ _ _ _ _ _ (omega arith) (omega arith) refl)
    ]

    name_of-client : (u : PublicUser) → u.role ≢ "admin" → name_of (ok (some u)) ≡ u.username
    name_of-client u client = elim (Bool-cases (u.role == "admin")) [
      | inl e ↦ absurd (client ((eq_iff u.role "admin").0 e))
      | inr e ↦ rw e
    ]

    -- The connections that an authenticated account which is no admin and has a name is shown are,
    -- in their order, exactly those that are attributed to its name, letter case aside, and the two
    -- totals are the sums over these.
    pub client_sees_own :
        (web : Web) (server : Server) (r : Request) (u : PublicUser) (snap : Connections)
        → authenticate web server r ≡ ok (some u)
        → u.role ≢ "admin"
        → u.username ≢ ""
        → scope_connections snap (scope_user web server r) ≡ own_view u.username snap.connections
    unfolding scope_user
    client_sees_own web server r u snap known client named =
        rw (known, name_of-client u client) (scope_connections-own_view snap u.username named)
