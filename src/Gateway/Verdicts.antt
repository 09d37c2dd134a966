-- ===== src/Gateway/Verdicts.antt =====
-- What the layers mean for a flow: deny before permit, permit before route.
use trust_proxy.Base.{
  ℕ, String, true, false, List, [], ◌∷◌, ◌++◌, ◌≡◌, refl, ap, ◌∙◌, arith, All, ◌==◌, not, any,
  Bool-cases, inl, inr, ◌⊎◌,
}
use trust_proxy.Json.{Json, text_at, obj}
use trust_proxy.Gateway.Rules.{is_catch_all_rule}
use trust_proxy.Gateway.Rules.Laws.{IsTail}
use trust_proxy.Gateway.Security.{management_rule}
use trust_proxy.Gateway.Mode.{global_rule}
use trust_proxy.Gateway.Allow.{
  Policy, sub_rules, gate, resolve_rule, egress_rules, catch_all, has_user_permit, inserted_rules,
}
use trust_proxy.Gateway.Allow.Laws.{
  rewritten, rewrite-rewritten, rewritten-keys, rewritten-is_catch_all, is_closed, final_outbound,
  closed_tail, open_tail, allow_tail,
}
use trust_proxy.Gateway.Engine.{Engine, rejected, routed}
use trust_proxy.Gateway.Layers.{Inputs}
use trust_proxy.Gateway.Layers.Floor.{floor, floor-AllPlain, AllPlain}
use trust_proxy.Gateway.Layers.Layout.{Base, layers, management}

module _ (E : Engine) where
  open E use {
    Flow, matches, advance, decide, skips, rejects, routes, resolves, gate_matches,
    catch_all_matches,
  }

  -- No rule of the list matches the flow.
  abbrev pub Misses : List Json → Flow → Type 0
  Misses rs f = All (λ r. matches r f ≡ false) rs

  pub decide-Misses :
      (rs xs : List Json) (f : Flow) → Misses rs f → decide (rs ++ xs) f ≡ decide xs f
  decide-Misses [] xs f h = refl
  decide-Misses (r ∷ rs) xs f h = skips r (rs ++ xs) f h.0 ∙ decide-Misses rs xs f h.1

  abbrev pub Rejects : List Json → Type 0
  Rejects rs = All (λ r. text_at "action" r ≡ "reject") rs

  -- Of rules that all reject, one that matches is enough.
  pub decide-Rejects :
      (rs xs : List Json) (f : Flow)
      → Rejects rs
      → any (λ r. matches r f) rs ≡ true
      → decide (rs ++ xs) f ≡ rejected
  decide-Rejects [] xs f h some_hit = cc
  decide-Rejects (r ∷ rs) xs f h some_hit = elim (Bool-cases (matches r f)) [
    | inl hit ↦ rejects r (rs ++ xs) f hit h.0
    | inr miss ↦ skips r (rs ++ xs) f miss ∙ decide-Rejects rs xs f h.1 (ground arith)
  ]

  any-Misses : (rs : List Json) (f : Flow) → Misses rs f → any (λ r. matches r f) rs ≡ false
  any-Misses [] f h = refl
  any-Misses (r ∷ rs) f h = rw (h.0) (any-Misses rs f h.1)

  decide-catch_all :
      (outbound : String) (xs : List Json) (f : Flow)
      → decide (catch_all outbound ∷ xs) f ≡ routed outbound
  unfolding text_at
  decide-catch_all outbound xs f =
      routes (catch_all outbound) xs f
        (catch_all_matches (catch_all outbound) f (unfold is_catch_all_rule in refl)) refl

  decide-closed_tail : (t : List Json) (f : Flow) → decide (closed_tail t) f ≡ routed "blocked"
  decide-closed_tail [] f = decide-catch_all "blocked" [] f
  decide-closed_tail (r ∷ t) f = decide-catch_all "blocked" t f

  -- The catch-all of an open gate leads to Final.
  decide-open_tail :
      (outbound : String) (t : List Json) (f : Flow)
      → IsTail t
      → decide (open_tail outbound t) f ≡ routed outbound
  unfolding is_catch_all_rule
  decide-open_tail outbound [] f k = decide-catch_all outbound [] f
  decide-open_tail outbound (obj fs ∷ t) f k =
      let (action, target) = rewritten-keys outbound fs in
      rw (rewrite-rewritten outbound fs k) (
        routes (rewritten outbound fs) t f
          (catch_all_matches (rewritten outbound fs) f (rewritten-is_catch_all outbound fs k))
          action
        ∙ ap routed target)
  decide-open_tail outbound (r ∷ t) f k = cc

  -- What stands above the Permit gate, and that a flow gets through it: it comes out of the prelude
  -- as `f`, and no rule down to the gate matches it.
  pub record Arrives (b : Base) (i : Inputs) (start f : Flow) : Type 0 where
    pub prelude : (xs : List Json) → decide (b.prelude ++ xs) start ≡ decide xs f
    pub management : Misses (management i.management_ports) f
    pub floor : Misses (floor i) f
    pub middle : Misses b.middle f
    pub rule_mode : matches global_rule f ≡ false

  decide-Arrives :
      (b : Base) (i : Inputs) (start f : Flow)
      → Arrives b i start f
      → decide (layers b i) start ≡ decide (allow_tail i.policy b.tail) f
  decide-Arrives b i start f a =
      a.prelude _
      ∙ decide-Misses _ _ f a.management
      ∙ decide-Misses (floor i) _ f a.floor
      ∙ decide-Misses b.middle _ f a.middle
      ∙ skips global_rule _ f a.rule_mode

  decide-gate :
      (p : Policy) (t : List Json) (f : Flow)
      → (p.posture == "split") ≡ false
      → Misses (sub_rules p) f
      → decide (allow_tail p t) f ≡ routed "blocked"
  unfolding inserted_rules
  decide-gate p t f strict miss = elim (Bool-cases (is_closed p)) [
    | inl closed ↦ rw closed (decide-closed_tail t f)
    | inr opened ↦
        rw (opened, strict)
          (routes (gate (sub_rules p)) _ f
              (gate_matches (sub_rules p) f ∙ ap not (any-Misses (sub_rules p) f miss))
              (unfold text_at in refl)
            ∙ (unfold text_at in refl))
  ]

  -- Default deny: in any posture but split, a flow that gets down to the Permit gate and that no
  -- permit matcher matches is routed to "blocked", whatever the Route axis and Final say.
  pub default_deny :
      (b : Base) (i : Inputs) (start f : Flow)
      → Arrives b i start f
      → (i.policy.posture == "split") ≡ false
      → Misses (sub_rules i.policy) f
      → decide (layers b i) start ≡ routed "blocked"
  default_deny b i start f a strict miss =
      decide-Arrives b i start f a ∙ decide-gate i.policy b.tail f strict miss

  AllPlain-Rejects : (rs : List Json) → AllPlain rs → Rejects rs
  AllPlain-Rejects [] h = tt
  AllPlain-Rejects (r ∷ rs) h = (h.0.2, AllPlain-Rejects rs h.1)

  -- Deny before permit: a flow that comes out of the prelude, that is not a management response and
  -- that some rule of the floor matches is rejected, whatever is permitted and routed.
  pub floor_first :
      (b : Base) (i : Inputs) (start f : Flow)
      → ((xs : List Json) → decide (b.prelude ++ xs) start ≡ decide xs f)
      → Misses (management i.management_ports) f
      → any (λ r. matches r f) (floor i) ≡ true
      → decide (layers b i) start ≡ rejected
  floor_first b i start f out miss hit =
      out _
      ∙ decide-Misses _ _ f miss
      ∙ decide-Rejects (floor i) _ f (AllPlain-Rejects (floor i) (floor-AllPlain i)) hit

  -- The management rescue is above the floor: a response from a management port goes out directly.
  pub management_first :
      (b : Base) (i : Inputs) (start f : Flow)
      → ((xs : List Json) → decide (b.prelude ++ xs) start ≡ decide xs f)
      → any (λ r. matches r f) (management i.management_ports) ≡ true
      → decide (layers b i) start ≡ routed "direct"
  management_first b i start f out hit = out _ ∙ go i.management_ports _ hit
    where
      go :
          (ports : List ℕ) (xs : List Json)
          → any (λ r. matches r f) (management ports) ≡ true
          → decide (management ports ++ xs) f ≡ routed "direct"
      go [] xs h = cc
      go (p ∷ ps) xs h =
          routes (management_rule (p ∷ ps)) _ f (ground arith) (unfold text_at in refl)
          ∙ (unfold text_at in refl)

  -- The flow as the egress rules see it.
  abbrev pub resolved : Flow → Flow
  resolved f = advance resolve_rule f

  -- A flow is let in by the posture split, or by a permit matcher where something is permitted.
  abbrev pub IsPermitted : Policy → Flow → Type 0
  IsPermitted p f =
      ((p.posture == "split") ≡ true)
      ⊎ (((p.posture == "split") ≡ false)
          × (has_user_permit p ≡ true)
          × (any (λ r. matches r f) (sub_rules p) ≡ true))

  decide-IsPermitted :
      (p : Policy) (t : List Json) (f : Flow)
      → IsPermitted p f
      → decide (allow_tail p t) f
        ≡ decide (egress_rules p ++ open_tail (final_outbound p) t) (resolved f)
  unfolding inserted_rules
  decide-IsPermitted p t f (inl split) =
      let opened : is_closed p ≡ false = ground arith in rw (opened, split) (resolves _ f)
  decide-IsPermitted p t f (inr (strict, permit, hit)) =
      let opened : is_closed p ≡ false = ground arith in
      rw (opened, strict)
        (skips (gate (sub_rules p)) _ f (gate_matches (sub_rules p) f ∙ ap not hit) ∙ resolves _ f)

  -- Route decides for what is permitted: a permitted flow that arrives at the gate gets the verdict
  -- of the egress rules and the catch-all, on the resolved flow.
  pub permitted_routes :
      (b : Base) (i : Inputs) (start f : Flow)
      → Arrives b i start f
      → IsPermitted i.policy f
      → decide (layers b i) start
        ≡ decide (egress_rules i.policy ++ open_tail (final_outbound i.policy) b.tail) (resolved f)
  permitted_routes b i start f a permitted =
      decide-Arrives b i start f a ∙ decide-IsPermitted i.policy b.tail f permitted

  -- A permitted flow that no egress rule matches leaves by Final.
  pub permitted_final :
      (b : Base) (i : Inputs) (start f : Flow)
      → Arrives b i start f
      → IsPermitted i.policy f
      → Misses (egress_rules i.policy) (resolved f)
      → decide (layers b i) start ≡ routed (final_outbound i.policy)
  permitted_final b i start f a permitted miss =
      permitted_routes b i start f a permitted
      ∙ decide-Misses (egress_rules i.policy) _ (resolved f) miss
      ∙ decide-open_tail (final_outbound i.policy) b.tail (resolved f) b.tail_ok
