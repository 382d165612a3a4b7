-- ===== src/Policy/Engine/Fired.antt =====
-- Which rules fire on a request, and what the loop over the rules collects of them.
use mathlib.Core.List.{append_assoc, append-nil}
use phulax.Prelude.{
  Bool, true, false, ◌&&◌, String, List, [], ◌∷◌, ◌++◌, ◌≡◌, refl, ◌∙◌, arith, keep, All, map, inl,
  inr, ok, err, Result-cases, if◌then◌else◌,
}
use phulax.Value.{FloatOps, Value}
use phulax.Policy.Rules.{Effect, same_effect, Rule}
use phulax.Policy.Engine.{
  PolicyRequest, Outcome, not_matched, RuleTrace, Progress, is_match, apply_rule, apply_rules, note,
}

-- Appending one element under a test, and then a list.
snoc-append {ℓ} :
    {A : Type ℓ} (b : Bool) (xs ys : List A) (x : A)
    → (if b then xs ++ (x ∷ []) else xs) ++ ys ≡ xs ++ (if b then x ∷ ys else ys)
snoc-append true xs ys x = append_assoc xs (x ∷ []) ys
snoc-append false xs ys x = refl

module _ {F : Type 0} ⦃ops : FloatOps F⦄ (request : PolicyRequest F) (context : Value F) where
  -- The outcome of one rule; a rule that raises has none, and counts as not matched.
  abbrev pub outcome_of : Rule F → Outcome
  outcome_of r = elim (apply_rule r request context) [ ok (o, d) ↦ o | err e ↦ not_matched ]

  abbrev pub detail_of : Rule F → String
  detail_of r = elim (apply_rule r request context) [ ok (o, d) ↦ d | err e ↦ "" ]

  abbrev pub fires : Rule F → Bool
  fires r = is_match (outcome_of r)

  abbrev pub fires_as : Effect → Rule F → Bool
  fires_as e r = fires r && same_effect e r.effect

  -- The rules of an effect class that fire, in the order of the bundle.
  abbrev pub fired : Effect → List (Rule F) → List (Rule F)
  fired e = keep (fires_as e)

  abbrev pub trace_of : Rule F → RuleTrace
  trace_of r = record {
    rule_id = r.id;
    effect = r.effect;
    outcome = outcome_of r;
    detail = detail_of r;
  }

  -- The rule is classified without raising.
  abbrev pub Settles : Rule F → Type 0
  Settles r = (od : Outcome × String) × (apply_rule r request context ≡ ok od)

  -- One round of the loop: the rule settles, and the loop goes on with its outcome noted.
  apply_rules-cons :
      (r : Rule F) (rules : List (Rule F)) (p q : Progress F)
      → apply_rules request context (r ∷ rules) p ≡ ok q
      → Settles r
        × (apply_rules request context rules (note r (outcome_of r) (detail_of r) p) ≡ ok q)
  unfolding apply_rules
  apply_rules-cons r rules p q h = elim (Result-cases (apply_rule r request context)) [
    | inl ((o, d), s) ↦ (((o, d), s), ground arith)
    | inr (x, s) ↦ ground arith
  ]

  pub apply_rules-Settles :
      (rules : List (Rule F)) (p q : Progress F)
      → apply_rules request context rules p ≡ ok q
      → All Settles rules
  apply_rules-Settles [] p q h = tt
  apply_rules-Settles (r ∷ rules) p q h =
      let (s, rest) = apply_rules-cons r rules p q h in (s, apply_rules-Settles rules _ q rest)

  pub matched-apply_rules :
      (rules : List (Rule F)) (p q : Progress F) (e : Effect)
      → apply_rules request context rules p ≡ ok q
      → q.matched e ≡ p.matched e ++ fired e rules
  unfolding apply_rules note
  matched-apply_rules [] p q e h = rw append-nil (ground arith)
  matched-apply_rules (r ∷ rules) p q e h =
      let (s, rest) = apply_rules-cons r rules p q h in
      matched-apply_rules rules _ q e rest
      ∙ snoc-append (fires_as e r) (p.matched e) (fired e rules) r

  pub trace-apply_rules :
      (rules : List (Rule F)) (p q : Progress F)
      → apply_rules request context rules p ≡ ok q
      → q.trace ≡ p.trace ++ map trace_of rules
  unfolding apply_rules note
  trace-apply_rules [] p q h = rw append-nil (ground arith)
  trace-apply_rules (r ∷ rules) p q h =
      let (s, rest) = apply_rules-cons r rules p q h in
      trace-apply_rules rules _ q rest ∙ append_assoc p.trace (trace_of r ∷ []) (map trace_of rules)
