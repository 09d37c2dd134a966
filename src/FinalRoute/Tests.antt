-- ===== src/FinalRoute/Tests.antt =====
-- The theorems on Final at a small setting.
use trust_proxy.Base.{true, some}
use trust_proxy.FinalRoute.{Store}

abbrev healed_store : Store
healed_store = record { outbound = "direct"; file = some "direct"; migrated = true }
