-- ===== src/Policy/Risk.antt =====
-- packages/policy/src/phulax_policy/risk.py: the score that explains and never decides.
pub mod Bounds
use phulax.Prelude.{
  ℕ, ◌+◌, ◌≤◌, ◌<◌, String, Bool, true, false, Option, none, some, List, [], ◌∷◌, ◌++◌, ◌≡◌, arith,
  str_eq, min, if◌then◌else◌,
}
use phulax.Value.{ℤ, pos, FloatOps, Scalar, Value, scalar}
use phulax.Policy.Engine.Conditions.{Number, whole, number_of, number_lt}

pub record RiskSignal : Type 0 where
  pub code : String
  pub weight : ℕ

pub record RiskScore : Type 0 where
  pub score : ℕ
  pub signals : List RiskSignal

abbrev signal : String → ℕ → List RiskSignal
signal code weight = record { code = code; weight = weight } ∷ []

-- _SIDE_EFFECT_WEIGHTS
unfoldable pub side_effect_signals : Option String → List RiskSignal
side_effect_signals none = []
side_effect_signals (some s) =
    if str_eq s "write"
    then signal "SIDE_EFFECT_WRITE" 20
    else if str_eq s "irreversible"
    then signal "SIDE_EFFECT_IRREVERSIBLE" 40
    else []

-- _SENSITIVITY_WEIGHTS
unfoldable pub sensitivity_signals : Option String → List RiskSignal
sensitivity_signals none = []
sensitivity_signals (some s) =
    if str_eq s "medium"
    then signal "SENSITIVITY_MEDIUM" 15
    else if str_eq s "high"
    then signal "SENSITIVITY_HIGH" 30
    else []

unfoldable pub environment_signals : String → List RiskSignal
environment_signals environment =
    if str_eq environment "production" then signal "ENV_PRODUCTION" 10 else []

abbrev pub total : List RiskSignal → ℕ
total [] = 0
total (s ∷ ss) = s.weight + total ss

module _ {F : Type 0} ⦃ops : FloatOps F⦄ where
  -- The loop over _AMOUNT_TIERS, which stops at the first tier that the amount passes.
  unfoldable pub tier_signals : Number F → List RiskSignal
  tier_signals amount =
      if number_lt (whole (pos 1000)) amount
      then signal "AMOUNT_OVER_1000" 20
      else if number_lt (whole (pos 100)) amount
      then signal "AMOUNT_OVER_100" 10
      else []

  -- An amount that is no number gives no signal.
  unfoldable pub amount_signals : Option (Value F) → List RiskSignal
  unfolding tier_signals
  amount_signals (some (scalar s)) = elim (number_of s) [ none ↦ [] | some a ↦ tier_signals a ]
  amount_signals _ = []

  unfoldable pub score_request :
      Option String → Option String → String → Option (Value F) → RiskScore
  unfolding side_effect_signals sensitivity_signals environment_signals amount_signals
  score_request side_effect sensitivity environment amount =
      let signals =
        side_effect_signals side_effect
        ++ (sensitivity_signals sensitivity
            ++ (environment_signals environment ++ amount_signals amount)) in
      record { score = min 100 (total signals); signals = signals }
