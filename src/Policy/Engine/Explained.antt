-- ===== src/Policy/Engine/Explained.antt =====
-- What a decision says of itself: the trace, the matched and the winning rules.
use phulax.Prelude.{false, String, List, ◌++◌, ◌≡◌, ◌∙◌, ap, inl, inr, arith, map, ok}
use phulax.Value.{ℤ, FloatOps}
use phulax.Policy.Rules.{Effect, allow, deny, require_approval, freeze, Rule, Bundle}
use phulax.Policy.Engine.{
  PolicyRequest, AgentState, Decision, Progress, context_of, precedence, start, decide,
  decision_for, default_deny, matched_ids, evaluate,
}
use phulax.Policy.Engine.Fired.{fired, trace_of, matched-apply_rules, trace-apply_rules}
use phulax.Policy.Engine.Precedence.{evaluate-inv}

abbrev pub ids : {F : Type 0} → List (Rule F) → List String
ids rules = map (λ r. r.id) rules

module _ {F : Type 0} (v : ℤ) (p : Progress F) where
  winning-decide :
      (decide v p precedence).winning_rules ≡ ids (p.matched (decide v p precedence).effect)
  unfolding decide decision_for default_deny
  winning-decide = ground arith

  matched-decide : (decide v p precedence).matched_rules ≡ matched_ids p
  unfolding decide decision_for default_deny matched_ids
  matched-decide = ground arith

  trace-decide : (decide v p precedence).trace ≡ p.trace
  unfolding decide decision_for default_deny
  trace-decide = ground arith

  version-decide : (decide v p precedence).policy_version ≡ v
  unfolding decide decision_for default_deny
  version-decide = ground arith

module _ {F : Type 0} ⦃ops : FloatOps F⦄ (request : PolicyRequest F) (bundle : Bundle F)
    (state : AgentState) where
  abbrev fired_ids : Effect → List String
  fired_ids e = ids (fired request (context_of request state) e bundle.rules)

  -- For an agent that is not revoked, the trace has one entry for each rule of the bundle, in
  -- its order, with the outcome of that rule; the matched rules are those that fire, class by
  -- class; the winning rules are those of the decision's own effect; and the version is the
  -- bundle's.
  pub evaluate-explained :
      (d : Decision)
      → evaluate request bundle state ≡ ok d
      → state.revoked ≡ false
      → (d.trace ≡ map (trace_of request (context_of request state)) bundle.rules)
        × (d.matched_rules
            ≡ fired_ids freeze
              ++ (fired_ids deny ++ (fired_ids require_approval ++ fired_ids allow)))
        × (d.winning_rules ≡ fired_ids d.effect)
        × (d.policy_version ≡ bundle.version)
  unfolding matched_ids
  evaluate-explained d h n = elim (evaluate-inv request bundle state d h) [
    | inl (y, e) ↦ ground arith
    | inr (_, p, run, e) ↦
        let class = λ (c : Effect).
          ap ids
            (matched-apply_rules request (context_of request state) bundle.rules start p c run) in
        (
          ap (λ (x : Decision). x.trace) e
              ∙ (trace-decide bundle.version p
                  ∙ trace-apply_rules request (context_of request state) bundle.rules start p run),
          ap (λ (x : Decision). x.matched_rules) e
              ∙ (matched-decide bundle.version p
                  ∙ ground (arith, class freeze, class deny, class require_approval, class allow)),
          rw e (winning-decide bundle.version p ∙ class _),
          ap (λ (x : Decision). x.policy_version) e ∙ version-decide bundle.version p,
        )
  ]
