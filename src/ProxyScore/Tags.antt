-- ===== src/ProxyScore/Tags.antt =====
-- internal/proxyscore/store.go: the one key under which a node is recorded.
pub mod Laws
use trust_proxy.Base.{
  nat_eq, String, Bool, true, false, List, [], ◌∷◌, ◌==◌, ◌||◌, not, if◌then◌else◌,
}
use trust_proxy.Base.{Option, none, some}
use Prim.Native.Char.{Char, code}

abbrev pub contains : List String → String → Bool
contains [] s = false
contains (x ∷ xs) s = x == s || contains xs s

abbrev pub outbound_types : List String
outbound_types =
    "anytls" ∷ "block" ∷ "direct" ∷ "http" ∷ "hysteria" ∷ "hysteria2" ∷ "shadowsocks" ∷ "shadowtls"
    ∷ "socks" ∷ "ssh" ∷ "tor" ∷ "trojan" ∷ "tuic" ∷ "vless" ∷ "vmess" ∷ "wireguard" ∷ "tailscale"
    ∷ "selector" ∷ "urltest" ∷ []

abbrev pub cons_head : Char → Option (String × String) → Option (String × String)
cons_head c none = none
cons_head c (some (s, t)) = some (String.◌∷◌ c s, t)

-- What stands before and behind the first slash.
unfoldable pub split_slash : String → Option (String × String)
split_slash String.[] = none
split_slash (String.◌∷◌ c s) =
    let rest = split_slash s in
    if nat_eq (code c) b'/' then some (String.[], s) else cons_head c rest

abbrev pub drop_type : String → Option (String × String) → String
drop_type tag none = tag
drop_type tag (some (head, rest)) = if contains outbound_types head then rest else tag

unfoldable pub normalize_tag : String → String
unfolding split_slash
normalize_tag tag = drop_type tag (split_slash tag)

-- The pseudo-outbounds are no nodes.
unfoldable pub scorable : String → Bool
scorable tag = not (contains ("" ∷ "direct" ∷ "block" ∷ "blocked" ∷ []) tag)
