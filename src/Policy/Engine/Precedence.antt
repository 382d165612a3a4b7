-- ===== src/Policy/Engine/Precedence.antt =====
-- The decision against its specification: the strictest effect among the rules that fire.
use mathlib.Core.Path.{fun_ext}
use phulax.Prelude.{
  Bool, true, false, not, List, ◌≡◌, ◌∙◌, ap, if◌then◌else◌, ◌⊎◌, inl, inr, arith, is_empty,
  is_empty-keep, any, ok, Result-cases, Bool-cases,
}
use phulax.Value.{ℤ, FloatOps}
use phulax.Policy.Rules.{Effect, allow, deny, require_approval, freeze, Rule, Bundle}
use phulax.Policy.Engine.{
  PolicyRequest, AgentState, Decision, Progress, context_of, precedence, start, decide,
  decision_for, default_deny, revoked_decision, apply_rules, evaluate,
}
use phulax.Policy.Engine.Fired.{fires_as, matched-apply_rules}

-- freeze > deny > require_approval > allow, and deny where there is none.
abbrev pub strictest : (Effect → Bool) → Effect
strictest has =
    if has freeze
    then freeze
    else if has deny
    then deny
    else if has require_approval
    then require_approval
    else if has allow
    then allow
    else deny

module _ {F : Type 0} ⦃ops : FloatOps F⦄ where
  -- Some rule of the effect class fires.
  unfoldable pub has_fired : PolicyRequest F → AgentState → List (Rule F) → Effect → Bool
  has_fired request state rules e = any (fires_as request (context_of request state) e) rules

  -- What the decision has to be.
  abbrev pub required_effect : PolicyRequest F → List (Rule F) → AgentState → Effect
  required_effect request rules state =
      if state.revoked then freeze else strictest (has_fired request state rules)

effect-decide :
    {F : Type 0} (v : ℤ) (p : Progress F)
    → (decide v p precedence).effect ≡ strictest (λ e. not (is_empty (p.matched e)))
unfolding decide decision_for default_deny
effect-decide v p = ground arith

module _ {F : Type 0} ⦃ops : FloatOps F⦄ (request : PolicyRequest F) (bundle : Bundle F)
    (state : AgentState) where
  -- A successful evaluation is the decision about a revoked agent, or it ran the loop.
  pub evaluate-inv :
      (d : Decision)
      → evaluate request bundle state ≡ ok d
      → ((state.revoked ≡ true) × (d ≡ revoked_decision bundle.version))
        ⊎ ((state.revoked ≡ false)
            × (p : Progress F) × (apply_rules request (context_of request state) bundle.rules start
                ≡ ok p)
            × (d ≡ decide bundle.version p precedence))
  unfolding evaluate
  evaluate-inv d h = elim (Bool-cases state.revoked) [
    | inl y ↦ inl (y, ground arith)
    | inr n ↦
        elim (Result-cases (apply_rules request (context_of request state) bundle.rules start)) [
          | inl (p, e) ↦ inr (n, p, e, ground arith)
          | inr (x, e) ↦ ground arith
        ]
  ]

  pub matched-eq-has_fired :
      (p : Progress F) (e : Effect)
      → apply_rules request (context_of request state) bundle.rules start ≡ ok p
      → not (is_empty (p.matched e)) ≡ has_fired request state bundle.rules e
  unfolding has_fired
  matched-eq-has_fired p e h = ground (
    arith,
    matched-apply_rules request (context_of request state) bundle.rules start p e h,
    is_empty-keep (fires_as request (context_of request state) e) bundle.rules,
  )

  -- A decision that is returned has the strictest effect among the rules that fire: freeze, deny,
  -- require_approval, allow; it is deny where none fires, and freeze for a revoked agent.
  pub evaluate-effect :
      (d : Decision)
      → evaluate request bundle state ≡ ok d
      → d.effect ≡ required_effect request bundle.rules state
  unfolding revoked_decision
  evaluate-effect d h = elim (evaluate-inv d h) [
    | inl (y, e) ↦ ground arith
    | inr (n, p, run, e) ↦
        rw
          (ap (λ (b : Bool). if b then freeze else strictest (has_fired request state bundle.rules))
            n)
          (ap (λ (x : Decision). x.effect) e
            ∙ (effect-decide bundle.version p
                ∙ ap strictest (fun_ext (λ c. matched-eq-has_fired p c run))))
  ]
