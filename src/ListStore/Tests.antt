-- ===== src/ListStore/Tests.antt =====
-- The theorems on lists and remarks at small ones.
use trust_proxy.Base.{[], ◌∷◌, some}
use trust_proxy.ListStore.{Notes}

abbrev notes : Notes
notes = some (("ip:10.0.0.1", "printer") ∷ [])
