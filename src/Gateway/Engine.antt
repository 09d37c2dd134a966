-- ===== src/Gateway/Engine.antt =====
-- The router of sing-box, which the repository brings in as a submodule: what it decides for a flow
-- (TCP or UDP) under a list of route rules. It is a parameter, with the documented behaviour that
-- internal/gateway relies on: rules are tried from the top, the first final action is taken, and
-- `resolve` goes on with the resolved flow.
use trust_proxy.Base.{String, Bool, true, false, List, ◌∷◌, ◌≡◌, any, not}
use trust_proxy.Json.{Json, text_at}
use trust_proxy.Gateway.Rules.{is_catch_all_rule}
use trust_proxy.Gateway.Allow.{gate, resolve_rule}

pub data Verdict : Type 0 where
  rejected : Verdict
  routed : String → Verdict
  -- The end of the list: the outbound that route.final names.
  unmatched : Verdict

pub record Engine : Type 1 where
  pub Flow : Type 0
  pub matches : Json → Flow → Bool
  pub advance : Json → Flow → Flow
  pub decide : List Json → Flow → Verdict
  pub skips :
      (r : Json) (rs : List Json) (f : Flow) → matches r f ≡ false → decide (r ∷ rs) f ≡ decide rs f
  pub rejects :
      (r : Json) (rs : List Json) (f : Flow)
      → matches r f ≡ true
      → text_at "action" r ≡ "reject"
      → decide (r ∷ rs) f ≡ rejected
  pub routes :
      (r : Json) (rs : List Json) (f : Flow)
      → matches r f ≡ true
      → text_at "action" r ≡ "route"
      → decide (r ∷ rs) f ≡ routed (text_at "outbound" r)
  -- A rule with no matcher matches every flow.
  pub resolves :
      (rs : List Json) (f : Flow)
      → decide (resolve_rule ∷ rs) f ≡ decide rs (advance resolve_rule f)
  -- The inverted disjunction, and a rule for both networks with no other matcher.
  pub gate_matches :
      (subs : List Json) (f : Flow) → matches (gate subs) f ≡ not (any (λ r. matches r f) subs)
  pub catch_all_matches : (r : Json) (f : Flow) → is_catch_all_rule r ≡ true → matches r f ≡ true
