-- ===== src/Policy/Risk/Bounds.antt =====
-- The bounds of the risk score.
use phulax.Prelude.{◌+◌, ◌≤◌, String, Option, none, some, List, [], ◌∷◌, ◌++◌, ◌≡◌, arith}
use phulax.Value.{FloatOps, Value}
use phulax.Policy.Engine.Conditions.{Number}
use phulax.Policy.Risk.{
  RiskSignal, total, side_effect_signals, sensitivity_signals, environment_signals, tier_signals,
  amount_signals, score_request,
}

total-append : (xs ys : List RiskSignal) → total (xs ++ ys) ≡ total xs + total ys
total-append [] ys = omega arith
total-append (x ∷ xs) ys = omega (arith, total-append xs ys)

side_effect-le : (s : Option String) → total (side_effect_signals s) ≤ 40
unfolding side_effect_signals
side_effect-le none = omega arith
side_effect-le (some s) = ground arith

sensitivity-le : (s : Option String) → total (sensitivity_signals s) ≤ 30
unfolding sensitivity_signals
sensitivity-le none = omega arith
sensitivity-le (some s) = ground arith

environment-le : (e : String) → total (environment_signals e) ≤ 10
unfolding environment_signals
environment-le e = ground arith

module _ {F : Type 0} ⦃ops : FloatOps F⦄ where
  tier-le : (a : Number F) → total (tier_signals a) ≤ 20
  unfolding tier_signals
  tier-le a = ground arith

  amount-le : (v : Option (Value F)) → total (amount_signals v) ≤ 20
  unfolding amount_signals
  amount-le v = ground arith

  -- The score is at most 100, and it is the sum of the weights of the signals that are listed:
  -- with the weights of the tables the cut at 100 takes nothing away.
  pub score_request-exact :
      (side_effect sensitivity : Option String) (environment : String) (amount : Option (Value F))
      → let risk = score_request side_effect sensitivity environment amount in
        (risk.score ≤ 100) × (risk.score ≡ total risk.signals)
  unfolding score_request
  score_request-exact s t e a = omega (
    arith,
    total-append (side_effect_signals s)
        (sensitivity_signals t ++ (environment_signals e ++ amount_signals a)),
    total-append (sensitivity_signals t) (environment_signals e ++ amount_signals a),
    total-append (environment_signals e) (amount_signals a),
    side_effect-le s,
    sensitivity-le t,
    environment-le e,
    amount-le a,
  )
