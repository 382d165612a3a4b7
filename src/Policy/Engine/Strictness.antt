-- ===== src/Policy/Engine/Strictness.antt =====
-- What follows from the order of precedence: an allow is earned, the order of the rules does not
-- matter, and a further restriction never loosens a decision.
use mathlib.Core.Path.{fun_ext}
use mathlib.Core.List.{Perm}
use phulax.Prelude.{
  ℕ, ◌≤◌, Bool, true, false, ◌||◌, List, [], ◌∷◌, ◌++◌, ◌≡◌, refl, ◌∙◌, ap, sym, if◌then◌else◌, ◌⊎◌,
  inl, inr, arith, any-append, All, Any, ok, Bool-cases,
}
use phulax.Prelude.Perms.{any-Perm, any-Any, any-All, Any-map}
use phulax.Value.{ℤ, FloatOps, Value}
use phulax.Policy.Rules.{
  Effect, allow, deny, require_approval, freeze, is_permissive, same_effect, Rule, Bundle,
}
use phulax.Policy.Engine.{PolicyRequest, AgentState, Decision, context_of, evaluate}
use phulax.Policy.Engine.Fired.{fires, fires_as}
use phulax.Policy.Engine.Asymmetry.{in_scope, IsTrue, permissive-fires}
use phulax.Policy.Engine.Precedence.{strictest, has_fired, required_effect, evaluate-effect}

abbrev pub strictness : Effect → ℕ
strictness allow = 0
strictness require_approval = 1
strictness deny = 2
strictness freeze = 3

strictest-allow :
    (has : Effect → Bool)
    → strictest has ≡ allow
    → (has allow ≡ true)
      × (has freeze ≡ false)
      × (has deny ≡ false)
      × (has require_approval ≡ false)
strictest-allow has h = ground arith

-- A restrictive effect more never makes the strictest one looser.
strictest_mono :
    (old new : Effect → Bool) (e : Effect)
    → is_permissive e ≡ false
    → ((c : Effect) → new c ≡ (old c || same_effect c e))
    → strictness (strictest old) ≤ strictness (strictest new)
strictest_mono old new e r h = ground (arith, h allow, h deny, h require_approval, h freeze)

strictest_mono_eq :
    (old new : Effect → Bool)
    → ((c : Effect) → new c ≡ old c)
    → strictness (strictest old) ≤ strictness (strictest new)
strictest_mono_eq old new h = ground (arith, h allow, h deny, h require_approval, h freeze)

module _ {F : Type 0} ⦃ops : FloatOps F⦄ (request : PolicyRequest F) (state : AgentState) where
  abbrev ctx : Value F
  ctx = context_of request state

  -- The rule does not stand in the way of an allow.
  abbrev pub Permits : Rule F → Type 0
  Permits r = (r.effect ≡ allow) ⊎ (fires request ctx r ≡ false)

  -- The rule grants the request: it allows, covers it, and its conditions are all true.
  abbrev pub Grants : Rule F → Type 0
  Grants r = (r.effect ≡ allow) × (in_scope r.match request ≡ true) × All (IsTrue ctx) r.conditions

  fires_as-allow-Grants : (r : Rule F) → fires_as request ctx allow r ≡ true → Grants r
  fires_as-allow-Grants r h =
      let y : r.effect ≡ allow = ground arith in
      let (s, t) = (permissive-fires request ctx r (ap is_permissive y)).0 (ground arith) in
      (y, s, t)

  no_other-Permits :
      (r : Rule F)
      → fires_as request ctx freeze r ≡ false
      → fires_as request ctx deny r ≡ false
      → fires_as request ctx require_approval r ≡ false
      → Permits r
  no_other-Permits r a b c = split r.effect refl
    where
      split : (e : Effect) → r.effect ≡ e → Permits r
      split allow y = inl y
      split deny y = inr (ground arith)
      split require_approval y = inr (ground arith)
      split freeze y = inr (ground arith)

  no_others-Permits :
      (rules : List (Rule F))
      → All (λ r. fires_as request ctx freeze r ≡ false) rules
      → All (λ r. fires_as request ctx deny r ≡ false) rules
      → All (λ r. fires_as request ctx require_approval r ≡ false) rules
      → All Permits rules
  no_others-Permits [] a b c = tt
  no_others-Permits (r ∷ rules) (a, as') (b, bs) (c, cs) =
      (no_other-Permits r a b c, no_others-Permits rules as' bs cs)

  has_fired-insert :
      (xs ys : List (Rule F)) (r : Rule F) (c : Effect)
      → has_fired request state (xs ++ (r ∷ ys)) c
        ≡ (has_fired request state (xs ++ ys) c || fires_as request ctx c r)
  unfolding has_fired
  has_fired-insert xs ys r c = ground (
    arith,
    any-append (fires_as request ctx c) xs (r ∷ ys),
    any-append (fires_as request ctx c) xs ys,
  )

  insert_restrictive :
      (xs ys : List (Rule F)) (r : Rule F)
      → is_permissive r.effect ≡ false
      → strictness (required_effect request (xs ++ ys) state)
        ≤ strictness (required_effect request (xs ++ (r ∷ ys)) state)
  insert_restrictive xs ys r p = elim (Bool-cases state.revoked) [
    | inl y ↦ ground arith
    | inr n ↦ elim (Bool-cases (fires request ctx r)) [
      | inl f ↦ ground (
        arith,
        strictest_mono (has_fired request state (xs ++ ys))
            (has_fired request state (xs ++ (r ∷ ys))) r.effect p
            (λ c. has_fired-insert xs ys r c ∙ ground arith),
      )
      | inr f ↦ ground (
        arith,
        strictest_mono_eq (has_fired request state (xs ++ ys))
            (has_fired request state (xs ++ (r ∷ ys)))
            (λ c. has_fired-insert xs ys r c ∙ ground arith),
      )
    ]
  ]

  -- An allow that is returned is earned: the agent is not revoked, some rule grants the request
  -- (it allows, its match covers the request, and all its conditions are true), and no rule of
  -- another effect fires.
  pub evaluate-allow :
      (bundle : Bundle F) (d : Decision)
      → evaluate request bundle state ≡ ok d
      → d.effect ≡ allow
      → (state.revoked ≡ false) × Any Grants bundle.rules × All Permits bundle.rules
  unfolding has_fired
  evaluate-allow bundle d h y =
      let e : required_effect request bundle.rules state ≡ allow =
        sym (evaluate-effect request bundle state d h) ∙ y in
      let n : state.revoked ≡ false = ground arith in
      let (a, f, x, q) = strictest-allow (has_fired request state bundle.rules) (ground arith) in
      (
        n,
        Any-map fires_as-allow-Grants bundle.rules (any-Any _ bundle.rules a),
        no_others-Permits bundle.rules (any-All _ bundle.rules f) (any-All _ bundle.rules x)
            (any-All _ bundle.rules q),
      )

  -- Where both evaluations return, the effect does not depend on the order of the rules or on the
  -- version.
  pub evaluate-Perm :
      (v w : ℤ) (xs ys : List (Rule F)) (d d' : Decision)
      → Perm xs ys
      → evaluate request (record { version = v; rules = xs }) state ≡ ok d
      → evaluate request (record { version = w; rules = ys }) state ≡ ok d'
      → d.effect ≡ d'.effect
  unfolding has_fired
  evaluate-Perm v w xs ys d d' p h k =
      evaluate-effect request _ state d h
      ∙ (ap (λ (has : Effect → Bool). if state.revoked then freeze else strictest has)
            (fun_ext (λ c. any-Perm (fires_as request ctx c) p))
          ∙ sym (evaluate-effect request _ state d' k))

  -- Where both evaluations return, a deny or freeze rule more, wherever it stands in the bundle,
  -- never loosens the decision.
  pub evaluate_mono :
      (v w : ℤ) (xs ys : List (Rule F)) (r : Rule F) (d d' : Decision)
      → is_permissive r.effect ≡ false
      → evaluate request (record { version = v; rules = xs ++ ys }) state ≡ ok d
      → evaluate request (record { version = w; rules = xs ++ (r ∷ ys) }) state ≡ ok d'
      → strictness d.effect ≤ strictness d'.effect
  evaluate_mono v w xs ys r d d' p h k =
      rw (evaluate-effect request _ state d h, evaluate-effect request _ state d' k)
        (insert_restrictive xs ys r p)
