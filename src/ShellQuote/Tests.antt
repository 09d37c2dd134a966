-- ===== src/ShellQuote/Tests.antt =====
-- A value with a quote and an expansion, quoted.
use trust_proxy.Base.{◌≡◌, some}
use trust_proxy.ShellQuote.{quote}
use trust_proxy.ShellQuote.RoundTrip.{shell, shell-quote}

shell-quote_example : shell (quote "it's $HOME") ≡ some "it's $HOME"
shell-quote_example = shell-quote "it's $HOME"
