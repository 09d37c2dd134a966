-- ===== src/Quarantine.antt =====
-- internal/quarantine/store.go: the destinations that the gateway blocked by itself. What Go's net
-- package makes of an address is a parameter, as is the time.
pub mod Laws
mod Tests
use Prim.Native.String.{◌++◌ as append}
use trust_proxy.Base.{
  String, Bool, true, false, List, [], ◌∷◌, ◌++◌, Option, none, some, ◌==◌, ◌||◌, ◌&&◌, not,
  if◌then◌else◌, any, filter, map, Result, ok, err,
}
use trust_proxy.Base.Text.{trim_space, to_lower, equal_fold, contains_any}
use trust_proxy.ListStore.{Store, Write, mutate}

pub record Entry : Type 0 where
  pub value : String
  pub is_ip : Bool
  pub reason : String
  pub time : String

pub data Error : Type 0 where
  nothing invalid_address save_failed : Error

unfoldable pub domains : List Entry → List String
domains [] = []
domains (e ∷ es) = if not e.is_ip then e.value ∷ domains es else domains es

unfoldable pub ips : List Entry → List String
ips [] = []
ips (e ∷ es) = if e.is_ip then e.value ∷ ips es else ips es

abbrev pub same_entry : String → Bool → Entry → Bool
same_entry value is_ip e = (if is_ip then e.is_ip else not e.is_ip) && equal_fold e.value value

unfoldable has : List Entry → String → Bool → Bool
has entries value is_ip = any (same_entry value is_ip) entries

-- One round of the loop of Add.
unfoldable add_entry : String → String → List Entry → String × Bool → List Entry
unfolding has
add_entry reason now entries (value, is_ip) =
    if value == "" || has entries value is_ip
    then entries
    else entries ++ record { value = value; is_ip = is_ip; reason = reason; time = now } ∷ []

-- What Go's net package says of an address: not one, an IPv4 or an IPv6 address; and whether it
-- parses as a CIDR.
pub data Address : Type 0 where
  not_address v4 v6 : Address

pub record Net : Type 0 where
  pub parse_ip : String → Address
  pub is_cidr : String → Bool

abbrev Outcome : Type 0
Outcome = Store (List Entry) × List Entry × Option Error

abbrev fails : Store (List Entry) → Error → Outcome
fails s e = (s, s.current, some e)

-- The error of the save goes before that of a bad address.
abbrev first_error : Bool → Option Error → Option Error
first_error true bad = some save_failed
first_error false bad = bad

abbrev update :
    Store (List Entry) → (List Entry → List Entry) → Write (List Entry) → Option Error → Outcome
unfolding mutate
update s fn disk bad =
    let (s', snap, unsaved) = mutate s fn disk in (s', snap, first_error unsaved bad)

abbrev add_both : String → String → String → String → List Entry → List Entry
add_both domain ip reason now entries =
    add_entry reason now (add_entry reason now entries (domain, false)) (ip, true)

unfoldable pub release : Store (List Entry) → String → Write (List Entry) → Outcome
unfolding update mutate
release s given disk =
    let value = trim_space given in
    update s (filter (λ e. not (equal_fold e.value value))) disk none

-- Clear returns an empty list, also when the save fails.
unfoldable pub clear : Store (List Entry) → Write (List Entry) → Outcome
unfolding update mutate
clear s disk = let done = update s (λ _. []) disk none in (done.0, [], done.2)

module _ (net : Net) where
  unfoldable normalize_ip : String → Result Error String
  normalize_ip v =
      if contains_any v "/"
      then if net.is_cidr v then ok v else err invalid_address
      else elim (net.parse_ip v) [
        | not_address ↦ err invalid_address
        | v4 ↦ ok (append v "/32")
        | v6 ↦ ok (append v "/128")
      ]

  -- The address that is recorded, and the error that is reported beside it.
  abbrev checked : String → Result Error String → Result Error (String × Option Error)
  checked domain (ok norm) = ok (norm, none)
  checked domain (err e) = if domain == "" then err e else ok ("", some e)

  unfoldable pub add :
      Store (List Entry) → String → String → String → String → Write (List Entry) → Outcome
  unfolding update mutate add_entry normalize_ip
  add s domain_given ip_given reason now disk =
      let domain = to_lower (trim_space domain_given) in
      let ip = trim_space ip_given in
      if domain == "" && ip == ""
      then fails s nothing
      else elim (if ip == "" then ok ("", none) else checked domain (normalize_ip ip)) [
        | err e ↦ fails s e
        | ok (norm, bad) ↦ update s (add_both domain norm reason now) disk bad
      ]
