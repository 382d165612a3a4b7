-- ===== src/Policy/Engine/Totality.antt =====
-- When `evaluate` returns: what the parser checks of a condition rules out a failed assertion, and
-- integers that convert to a float rule out an overflow.
use mathlib.Core.Path.{subst}
use phulax.Prelude.{Option, none, some, List, [], ◌∷◌, ◌≡◌, refl, ◌≢◌, All, Result, ok, err}
use phulax.Value.{ℤ, FloatOps, Scalar, null, Value, scalar, list, dict, Fields, end, field}
use phulax.Policy.Rules.{Operand, one, many, Bundle}
use phulax.Policy.Engine.Conditions.{
  Exn, assertion_error, overflow_error, whole, to_float, or_overflow,
}
use phulax.Policy.Engine.{PolicyRequest, AgentState, Decision, evaluate}
use phulax.Policy.Engine.Typed.{
  HasTypedConditions, FitsScalar, FitsOperand, FitsValue, FitsFields, HasFittingConditions,
  RaisesOnly,
}
use phulax.Policy.Engine.Safety.{evaluate-safe}

abbrev Anything : ℤ → Type 0
Anything n = Unit

FitsScalar-Anything : {F : Type 0} (s : Scalar F) → FitsScalar Anything s
FitsScalar-Anything null = tt
FitsScalar-Anything s = tt

mutual
  FitsValue-Anything : {F : Type 0} (v : Value F) → FitsValue Anything v
  FitsValue-Anything (scalar s) = FitsScalar-Anything s
  FitsValue-Anything (list vs) = tt
  FitsValue-Anything (dict fs) = FitsFields-Anything fs

  FitsFields-Anything : {F : Type 0} (fs : Fields F) → FitsFields Anything fs
  FitsFields-Anything end = tt
  FitsFields-Anything (field k v fs) = (FitsValue-Anything v, FitsFields-Anything fs)

FitsScalars-Anything : {F : Type 0} (ts : List (Scalar F)) → All (FitsScalar Anything) ts
FitsScalars-Anything [] = tt
FitsScalars-Anything (t ∷ ts) = (FitsScalar-Anything t, FitsScalars-Anything ts)

FitsOperand-Anything : {F : Type 0} (t : Operand F) → FitsOperand Anything t
FitsOperand-Anything (one t) = FitsScalar-Anything t
FitsOperand-Anything (many ts) = FitsScalars-Anything ts

All-always {ℓ κ} : {A : Type ℓ} {P : A → Type κ} → ((a : A) → P a) → (xs : List A) → All P xs
All-always f [] = tt
All-always f (x ∷ xs) = (f x, All-always f xs)

RaisesOnly-err {ℓ} :
    {A : Type ℓ} (P : Exn → Type 0) {r : Result Exn A} {e : Exn}
    → r ≡ err e
    → ¬ P e
    → ¬ RaisesOnly P r
RaisesOnly-err P h n safe = n (subst (RaisesOnly P) h safe)

RaisesOnly-none {ℓ} : {A : Type ℓ} (r : Result Exn A) → RaisesOnly (λ e. ⊥) r → (a : A) × (r ≡ ok a)
RaisesOnly-none (ok a) h = (a, refl)
RaisesOnly-none (err e) h = elim h [ ]

module _ (F : Type 0) ⦃ops : FloatOps F⦄ where
  or_overflow-raises : (o : Option F) → RaisesOnly (λ e. e ≡ overflow_error) (or_overflow o)
  or_overflow-raises none = refl
  or_overflow-raises (some x) = tt

  to_float-overflow :
      (n : ℤ) → Anything n → RaisesOnly (λ e. e ≡ overflow_error) (to_float {F = F} (whole n))
  to_float-overflow n _ = or_overflow-raises (ops.of_int n)

  or_overflow-fits : (o : Option F) → o ≢ none → RaisesOnly (λ e. ⊥) (or_overflow o)
  or_overflow-fits none h = h refl
  or_overflow-fits (some x) h = tt

  to_float-fits : (n : ℤ) → ops.of_int n ≢ none → RaisesOnly (λ e. ⊥) (to_float {F = F} (whole n))
  to_float-fits n h = or_overflow-fits (ops.of_int n) h

module _ {F : Type 0} ⦃ops : FloatOps F⦄ (request : PolicyRequest F) (bundle : Bundle F)
    (state : AgentState) where
  -- On rules whose conditions have the operands that the parser admits, no `assert` fails.
  pub evaluate-never_asserts :
      All HasTypedConditions bundle.rules → evaluate request bundle state ≢ err assertion_error
  evaluate-never_asserts typed h =
      RaisesOnly-err (λ e. e ≡ overflow_error) h (λ p. cc)
        (evaluate-safe Anything (λ e. e ≡ overflow_error) (to_float-overflow F) request bundle state
          (FitsFields-Anything request.arguments) typed
          (All-always (λ r. All-always (λ c. FitsOperand-Anything c.value) r.conditions)
            bundle.rules))

  -- On rules whose conditions have the operands that the parser admits, `evaluate` returns a
  -- decision if every integer operand of the rules, and every
  -- integer of the arguments outside of lists, converts to a float.
  pub evaluate-total :
      All HasTypedConditions bundle.rules
      → All (HasFittingConditions (λ n. ops.of_int n ≢ none)) bundle.rules
      → FitsFields (λ n. ops.of_int n ≢ none) request.arguments
      → (d : Decision) × (evaluate request bundle state ≡ ok d)
  evaluate-total typed fits args = RaisesOnly-none (evaluate request bundle state) (
      evaluate-safe (λ n. ops.of_int n ≢ none) (λ e. ⊥) (to_float-fits F) request bundle state args
        typed fits)
