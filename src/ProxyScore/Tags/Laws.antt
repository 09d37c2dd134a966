-- ===== src/ProxyScore/Tags/Laws.antt =====
-- internal/proxyscore/store.go: which spellings of a tag are one node.
use Prim.Native.String.{◌++◌ as append, count}
use text.Mathlib.TextLemmas.{nil-append, cons-append, length-append}
use Prim.Native.Char.{code}
use trust_proxy.Base.{
  nat_eq, String, Bool, true, false, List, [], ◌∷◌, some, ◌≡◌, ◌≢◌, refl, sym, ap, ◌∙◌, arith, ◌==◌,
  eq_iff, if◌then◌else◌, all, ◌+◌, Bool-cases, inl, inr,
}
use trust_proxy.ProxyScore.Records.{taken, passed}
use trust_proxy.ProxyScore.Tags.{
  contains, outbound_types, cons_head, split_slash, drop_type, normalize_tag,
}

abbrev no_slash : String → Bool
no_slash String.[] = true
no_slash (String.◌∷◌ c s) = if nat_eq (code c) b'/' then false else no_slash s

split_slash-append :
    (t tag : String) → no_slash t ≡ true → split_slash (append t (append "/" tag)) ≡ some (t, tag)
unfolding split_slash
split_slash-append String.[] tag h =
    ap split_slash (nil-append (append "/" tag) ∙ cons-append _ String.[] tag)
    ∙ ap (λ s. some (String.[], s)) (nil-append tag)
split_slash-append (String.◌∷◌ c s) tag h = elim (Bool-cases (nat_eq (code c) b'/')) [
  | inl slash ↦ cc (sym (taken false (no_slash s) (nat_eq (code c) b'/') slash) ∙ h)
  | inr other ↦
      let plain : no_slash s ≡ true =
        sym (passed false (no_slash s) (nat_eq (code c) b'/') other) ∙ h in
      ap split_slash (cons-append c s (append "/" tag))
      ∙ passed (some (String.[], append s (append "/" tag)))
          (cons_head c (split_slash (append s (append "/" tag)))) (nat_eq (code c) b'/') other
      ∙ ap (cons_head c) (split_slash-append s tag plain)
]

all-contains :
    (p : String → Bool) (ts : List String) (t : String)
    → all p ts ≡ true
    → contains ts t ≡ true
    → p t ≡ true
all-contains p [] t h there = cc
all-contains p (x ∷ ts) t h there = elim (Bool-cases (x == t)) [
  | inl here ↦ ap p (sym ((eq_iff x t).0 here)) ∙ ground (arith, h)
  | inr later ↦ all-contains p ts t (ground (arith, h)) (ground (arith, there, later))
]

-- The spelling of the events: the type of the outbound, a slash and the tag.
normalize_tag-event :
    (t tag : String)
    → contains outbound_types t ≡ true
    → normalize_tag (append t (append "/" tag)) ≡ tag
unfolding normalize_tag
normalize_tag-event t tag typed =
    ap (drop_type (append t (append "/" tag)))
      (split_slash-append t tag (all-contains no_slash outbound_types t refl typed))
    ∙ rw typed

-- A tag whose head up to a slash is no type of an outbound is one node in both spellings: alone, as
-- the dial path reports it, and behind the type of its outbound, as the events have it.
pub same_node :
    (t tag : String)
    → contains outbound_types t ≡ true
    → normalize_tag tag ≡ tag
    → normalize_tag (append t (append "/" tag)) ≡ normalize_tag tag
same_node t tag typed plain = normalize_tag-event t tag typed ∙ sym plain

-- A tag that begins with the type of an outbound and a slash is two nodes: what the dial path reports
-- and what the events report goes to different records.
pub split_node :
    (t u name : String)
    → contains outbound_types t ≡ true
    → contains outbound_types u ≡ true
    → normalize_tag (append t (append "/" (append u (append "/" name))))
      ≢ normalize_tag (append u (append "/" name))
split_node t u name typed named same =
    let e : append u (append "/" name) ≡ name =
      sym (normalize_tag-event t (append u (append "/" name)) typed)
      ∙ same
      ∙ normalize_tag-event u name named in
    let lengths : count u + (1 + count name) ≡ count name =
      ap (λ n. count u + n) (sym (length-append "/" name))
      ∙ sym (length-append u (append "/" name))
      ∙ ap count e in
    absurd (omega (arith, lengths))
