-- ===== src/ProxyScore/Evidence.antt =====
-- internal/proxyscore/store.go: the evidence for and against a blackhole in a history of reports.
use trust_proxy.Base.{
  ℕ, zero, suc, String, Bool, true, false, List, [], ◌∷◌, Option, none, some, ◌≡◌, refl, arith,
  ◌==◌, not, ◌&&◌, ◌||◌, nat_eq, ltb, leb, if◌then◌else◌,
}
use trust_proxy.ProxyScore.{Transfer}
use trust_proxy.ProxyScore.Histories.{Report, dial, transfer, probe, stall, about}
use trust_proxy.ProxyScore.Tags.{normalize_tag}

abbrev pub speaks : Transfer → Bool
speaks t = t.handshook && (ltb 0 t.download || ltb 0 t.upload)

-- What a report says of the node `key`: true for a connection through it that got its handshake and
-- sent bytes to which nothing came back, false for one that was answered and for a probe that
-- succeeded, nothing for all others.
unfoldable pub evidence : String → Report → Option Bool
unfolding about
evidence key (dial now tag o) = none
evidence key (transfer now tag t) =
    if normalize_tag tag == key && (not (nat_eq t.duration 0) && speaks t)
    then some (not (ltb 0 t.download))
    else none
evidence key (probe now tag ok latency) =
    if normalize_tag tag == key && ok then some false else none
evidence key (stall now tag) = none

abbrev pub and_then : Option Bool → List Bool → List Bool
and_then none bs = bs
and_then (some b) bs = b ∷ bs

-- The evidence of a history, the newest first.
unfoldable pub all_evidence : String → List Report → List Bool
unfolding evidence
all_evidence key [] = []
all_evidence key (r ∷ rs) = and_then (evidence key r) (all_evidence key rs)

-- The newest `n` pieces of evidence, all of them there, are against the node.
unfoldable pub all_against : ℕ → List Bool → Bool
all_against zero bs = true
all_against (suc n) [] = false
all_against (suc n) (b ∷ bs) = b && all_against n bs

abbrev pub lead : List Bool → ℕ
lead [] = 0
lead (true ∷ bs) = suc (lead bs)
lead (false ∷ bs) = 0

pub all_against-lead : (n : ℕ) (bs : List Bool) → all_against n bs ≡ leb n (lead bs)
unfolding all_against
all_against-lead zero bs = ground arith
all_against-lead (suc n) [] = ground arith
all_against-lead (suc n) (true ∷ bs) = ground (arith, all_against-lead n bs)
all_against-lead (suc n) (false ∷ bs) = ground arith

abbrev pub after : Option Bool → ℕ → ℕ
after none n = n
after (some true) n = suc n
after (some false) n = 0

pub evidence_other : (r : Report) (key : String) → (about r == key) ≡ false → evidence key r ≡ none
unfolding about evidence
evidence_other (dial now tag o) key other = refl
evidence_other (transfer now tag t) key other = rw other
evidence_other (probe now tag ok latency) key other = rw other
evidence_other (stall now tag) key other = refl

pub lead-and_then : (e : Option Bool) (bs : List Bool) → lead (and_then e bs) ≡ after e (lead bs)
lead-and_then none bs = refl
lead-and_then (some true) bs = refl
lead-and_then (some false) bs = refl
