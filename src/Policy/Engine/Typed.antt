-- ===== src/Policy/Engine/Typed.antt =====
-- What the engine needs of a rule and of a request in order to return: typed operands, and
-- integers that meet a predicate wherever they may be converted.
use mathlib.Core.Path.{subst}
use phulax.Prelude.{
  String, some, List, [], ◌∷◌, ◌≡◌, inl, inr, arith, All, Result, ok, err, ◌>>=◌, Option-cases,
  Bool-cases, str_eq,
}
use phulax.Value.{ℤ, Scalar, int, float, str, Value, scalar, list, dict, Fields, end, field, get}
use phulax.Policy.Rules.{
  Op, eq, neq, gt, gte, lt, lte, is_in, not_in, ends_with, not_ends_with, Operand, one, many, Rule,
}
use phulax.Policy.Engine.Conditions.{Exn, walk}

-- The operand that the parser admits for an operator.
abbrev pub IsTyped : {F : Type 0} → Op → Operand F → Type 0
IsTyped eq (one t) = Unit
IsTyped neq (one t) = Unit
IsTyped gt (one (int n)) = Unit
IsTyped gt (one (float x)) = Unit
IsTyped gte (one (int n)) = Unit
IsTyped gte (one (float x)) = Unit
IsTyped lt (one (int n)) = Unit
IsTyped lt (one (float x)) = Unit
IsTyped lte (one (int n)) = Unit
IsTyped lte (one (float x)) = Unit
IsTyped is_in (many ts) = Unit
IsTyped not_in (many ts) = Unit
IsTyped ends_with (one (str s)) = Unit
IsTyped not_ends_with (one (str s)) = Unit
IsTyped op operand = ⊥

abbrev pub HasTypedConditions : {F : Type 0} → Rule F → Type 0
HasTypedConditions r = All (λ c. IsTyped c.op c.value) r.conditions

-- Every integer that the engine may convert to a float meets `Q`.
module _ {F : Type 0} (Q : ℤ → Type 0) where
  abbrev pub FitsScalar : Scalar F → Type 0
  FitsScalar (int n) = Q n
  FitsScalar s = Unit

  abbrev pub FitsOperand : Operand F → Type 0
  FitsOperand (one t) = FitsScalar t
  FitsOperand (many ts) = All FitsScalar ts

  abbrev mutual
    pub FitsValue : Value F → Type 0
    FitsValue (scalar s) = FitsScalar s
    FitsValue (list vs) = Unit
    FitsValue (dict fs) = FitsFields fs

    pub FitsFields : Fields F → Type 0
    FitsFields end = Unit
    FitsFields (field k v fs) = FitsValue v × FitsFields fs

  abbrev pub HasFittingConditions : Rule F → Type 0
  HasFittingConditions r = All (λ c. FitsOperand c.value) r.conditions

  get-Fits :
      (fs : Fields F) (k : String) (v : Value F) → FitsFields fs → get fs k ≡ some v → FitsValue v
  unfolding get
  get-Fits end k v f h = cc
  get-Fits (field j w fs) k v (f, g) h = elim (Bool-cases (str_eq j k)) [
    | inl y ↦ subst FitsValue (ground arith) f
    | inr n ↦ get-Fits fs k v g (ground arith)
  ]

  pub walk-Fits :
      (parts : List String) (node v : Value F)
      → FitsValue node
      → walk parts node ≡ some v
      → FitsValue v
  unfolding walk
  walk-Fits [] node v f h = subst FitsValue (ground arith) f
  walk-Fits (part ∷ parts) (scalar s) v f h = cc
  walk-Fits (part ∷ parts) (list vs) v f h = cc
  walk-Fits (part ∷ parts) (dict fs) v f h = elim (Option-cases (get fs part)) [
    | inl e ↦ ground arith
    | inr (w, e) ↦ walk-Fits parts w v (get-Fits fs part w f e) (ground arith)
  ]

-- The result is a value, or an exception that meets `P`.
abbrev pub RaisesOnly {ℓ} : (Exn → Type 0) → {A : Type ℓ} → Result Exn A → Type 0
RaisesOnly P (ok a) = Unit
RaisesOnly P (err e) = P e

pub RaisesOnly-bind :
    (P : Exn → Type 0) {A B : Type 0} (m : Result Exn A) (f : A → Result Exn B)
    → RaisesOnly P m
    → ((a : A) → RaisesOnly P (f a))
    → RaisesOnly P (m >>= f)
RaisesOnly-bind P (ok a) f h k = k a
RaisesOnly-bind P (err e) f h k = h
