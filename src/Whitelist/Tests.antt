-- ===== src/Whitelist/Tests.antt =====
-- The theorems on the whitelist at a small store.
use trust_proxy.Base.{String, Bool, none, ◌==◌}
use trust_proxy.ListStore.{Store}
use trust_proxy.Whitelist.{Rules, seed}

abbrev valid_cidr : String → Bool
valid_cidr s = s == "10.0.0.0/8"

abbrev store : Store Rules
store = record { current = seed; file = none }
