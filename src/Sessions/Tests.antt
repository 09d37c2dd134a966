-- ===== src/Sessions/Tests.antt =====
-- The theorems on tickets at one ticket.
use trust_proxy.Base.{String, true, false, [], some, ◌≡◌, ◌≢◌, eq_iff}
use trust_proxy.Sessions.{Authn, mint_ticket}

abbrev authn : Authn
authn = record { bootstrap = ""; ttl = 40; tickets = [] }

abbrev ticket : String
ticket = "t"

abbrev minted : Authn
minted = (mint_ticket 5 (some ticket) "7" authn).0

filled : ticket ≢ ""
filled = λ e. let x : false ≡ true = (eq_iff "t" "").1 e in cc
