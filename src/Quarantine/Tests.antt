-- ===== src/Quarantine/Tests.antt =====
-- The theorems on the quarantine at one entry.
use trust_proxy.Base.{false, [], ◌∷◌, List, none}
use trust_proxy.ListStore.{Store}
use trust_proxy.Quarantine.{Entry}

abbrev entry : Entry
entry = record { value = "bad.com"; is_ip = false; reason = "beacon"; time = "now" }

abbrev store : Store (List Entry)
store = record { current = entry ∷ []; file = none }
