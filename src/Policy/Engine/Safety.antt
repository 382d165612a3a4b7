-- ===== src/Policy/Engine/Safety.antt =====
-- What the evaluation may raise: an assertion fails only on an operand that the parser refuses,
-- and all else is the conversion of an integer.
use phulax.Prelude.{
  Bool, true, false, String, none, some, List, [], ◌∷◌, inl, inr, All, Option-cases, Bool-cases,
  str_eq,
}
use phulax.Value.{ℤ, FloatOps, Scalar, null, bool, int, float, str, Value, scalar, list, dict}
use phulax.Value.Texts.{split_dots}
use phulax.Policy.Rules.{
  Op, eq, neq, gt, gte, lt, lte, is_in, not_in, ends_with, not_ends_with, Operand, one, many,
  Condition, Rule, Bundle,
}
use phulax.Policy.Engine.Conditions.{
  Exn, Number, whole, real, to_float, walk, lookup, number_eq, value_eq, is_member, resolve_op,
  resolve_suffix, resolve_comparison, resolve_condition,
}
use phulax.Policy.Engine.{
  PolicyRequest, AgentState, check_conditions, apply_rule, apply_rules, evaluate, note,
  match_mismatch, Progress, start,
}
use phulax.Policy.Engine.Typed.{
  IsTyped, HasTypedConditions, FitsScalar, FitsOperand, FitsValue, FitsFields, HasFittingConditions,
  walk-Fits, RaisesOnly, RaisesOnly-bind,
}

module _ {F : Type 0} ⦃ops : FloatOps F⦄ (Q : ℤ → Type 0) (P : Exn → Type 0)
    (converts : (n : ℤ) → Q n → RaisesOnly P (to_float {F = F} (whole n))) where
  abbrev FitsNumber : Number F → Type 0
  FitsNumber (whole n) = Q n
  FitsNumber (real x) = Unit

  to_float-safe : (a : Number F) → FitsNumber a → RaisesOnly P (to_float a)
  to_float-safe (whole n) q = converts n q
  to_float-safe (real x) q = tt

  number_eq-safe : (a b : Number F) → FitsNumber a → FitsNumber b → RaisesOnly P (number_eq a b)
  unfolding number_eq
  number_eq-safe a b p q =
      RaisesOnly-bind P (to_float a) _ (to_float-safe a p)
        (λ x. RaisesOnly-bind P (to_float b) _ (to_float-safe b q) (λ y. tt))

  value_eq-safe :
      (v : Value F) (t : Scalar F) → FitsValue Q v → FitsScalar Q t → RaisesOnly P (value_eq v t)
  unfolding value_eq
  value_eq-safe (list vs) t p q = tt
  value_eq-safe (dict fs) t p q = tt
  value_eq-safe (scalar (int a)) (int b) p q = number_eq-safe (whole a) (whole b) p q
  value_eq-safe (scalar (int a)) (float b) p q = number_eq-safe (whole a) (real b) p q
  value_eq-safe (scalar (float a)) (int b) p q = number_eq-safe (real a) (whole b) p q
  value_eq-safe (scalar (float a)) (float b) p q = number_eq-safe (real a) (real b) p q
  value_eq-safe (scalar (bool a)) (bool b) p q = tt
  value_eq-safe (scalar (str a)) (str b) p q = tt
  value_eq-safe (scalar null) null p q = tt
  value_eq-safe (scalar s) t p q = tt

  is_member-safe :
      (v : Value F) (ts : List (Scalar F))
      → FitsValue Q v
      → All (FitsScalar Q) ts
      → RaisesOnly P (is_member v ts)
  unfolding is_member
  is_member-safe v [] p q = tt
  is_member-safe v (t ∷ ts) p (q, qs) =
      RaisesOnly-bind P (value_eq v t) _ (value_eq-safe v t p q)
        (elim [ true ↦ tt | false ↦ is_member-safe v ts p qs ])

  suffix-safe :
      (positive : Bool) (v : Value F) (t : String)
      → RaisesOnly P (resolve_suffix positive v (one (str t)))
  unfolding resolve_suffix
  suffix-safe positive (scalar (str s)) t = tt
  suffix-safe positive (scalar null) t = tt
  suffix-safe positive (scalar (bool b)) t = tt
  suffix-safe positive (scalar (int n)) t = tt
  suffix-safe positive (scalar (float x)) t = tt
  suffix-safe positive (list vs) t = tt
  suffix-safe positive (dict fs) t = tt

  abbrev IsNumber : Scalar F → Type 0
  IsNumber (int n) = Unit
  IsNumber (float x) = Unit
  IsNumber s = ⊥

  comparison-safe :
      (op : Op) (v : Value F) (t : Scalar F)
      → IsNumber t
      → RaisesOnly P (resolve_comparison op v (one t))
  unfolding resolve_comparison
  comparison-safe op (scalar (int a)) (int n) y = tt
  comparison-safe op (scalar (int a)) (float x) y = tt
  comparison-safe op (scalar (float a)) (int n) y = tt
  comparison-safe op (scalar (float a)) (float x) y = tt
  comparison-safe op (scalar null) t y = tt
  comparison-safe op (scalar (bool b)) t y = tt
  comparison-safe op (scalar (str s)) t y = tt
  comparison-safe op (list vs) t y = tt
  comparison-safe op (dict fs) t y = tt
  comparison-safe op v t y = elim y [ ]

  resolve_op-safe :
      (op : Op) (v : Value F) (t : Operand F)
      → IsTyped op t
      → FitsValue Q v
      → FitsOperand Q t
      → RaisesOnly P (resolve_op op v t)
  unfolding resolve_op
  resolve_op-safe eq v (one t) y p q =
      RaisesOnly-bind P (value_eq v t) _ (value_eq-safe v t p q) (λ b. tt)
  resolve_op-safe neq v (one t) y p q =
      RaisesOnly-bind P (value_eq v t) _ (value_eq-safe v t p q) (λ b. tt)
  resolve_op-safe is_in v (many ts) y p q =
      RaisesOnly-bind P (is_member v ts) _ (is_member-safe v ts p q) (λ b. tt)
  resolve_op-safe not_in v (many ts) y p q =
      RaisesOnly-bind P (is_member v ts) _ (is_member-safe v ts p q) (λ b. tt)
  resolve_op-safe ends_with v (one (str s)) y p q = suffix-safe true v s
  resolve_op-safe not_ends_with v (one (str s)) y p q = suffix-safe false v s
  resolve_op-safe gt v (one (int n)) y p q = comparison-safe gt v (int n) tt
  resolve_op-safe gt v (one (float x)) y p q = comparison-safe gt v (float x) tt
  resolve_op-safe gte v (one (int n)) y p q = comparison-safe gte v (int n) tt
  resolve_op-safe gte v (one (float x)) y p q = comparison-safe gte v (float x) tt
  resolve_op-safe lt v (one (int n)) y p q = comparison-safe lt v (int n) tt
  resolve_op-safe lt v (one (float x)) y p q = comparison-safe lt v (float x) tt
  resolve_op-safe lte v (one (int n)) y p q = comparison-safe lte v (int n) tt
  resolve_op-safe lte v (one (float x)) y p q = comparison-safe lte v (float x) tt
  resolve_op-safe op v t y p q = elim y [ ]

  resolve_condition-safe :
      (c : Condition F) (context : Value F)
      → IsTyped c.op c.value
      → FitsValue Q context
      → FitsOperand Q c.value
      → RaisesOnly P (resolve_condition c context)
  unfolding resolve_condition lookup
  resolve_condition-safe c context y p q = elim (Option-cases (walk (split_dots c.path) context)) [
    | inl e ↦ rw (e, resolve_condition) tt
    | inr (v, e) ↦
        rw (e, resolve_condition)
          (resolve_op-safe c.op v c.value y (walk-Fits Q (split_dots c.path) context v p e) q)
  ]

  check_conditions-safe :
      (cs : List (Condition F)) (context : Value F) (saw : Bool)
      → FitsValue Q context
      → All (λ c. IsTyped c.op c.value) cs
      → All (λ c. FitsOperand Q c.value) cs
      → RaisesOnly P (check_conditions cs context saw)
  unfolding check_conditions
  check_conditions-safe [] context saw p y q = tt
  check_conditions-safe (c ∷ cs) context saw p (y, ys) (q, qs) =
      RaisesOnly-bind P (resolve_condition c context) _ (resolve_condition-safe c context y p q)
        (elim [
          | none ↦ check_conditions-safe cs context true p ys qs
          | some true ↦ check_conditions-safe cs context saw p ys qs
          | some false ↦ tt
        ])

  apply_rule-safe :
      (r : Rule F) (request : PolicyRequest F) (context : Value F)
      → FitsValue Q context
      → HasTypedConditions r
      → HasFittingConditions Q r
      → RaisesOnly P (apply_rule r request context)
  unfolding apply_rule
  apply_rule-safe r request context p y q =
      elim (Bool-cases (str_eq (match_mismatch r.match request) "")) [
        | inl fits ↦ rw fits (
            RaisesOnly-bind P (check_conditions r.conditions context false) _
              (check_conditions-safe r.conditions context false p y q) (λ x. tt))
        | inr differs ↦ rw differs tt
      ]

  apply_rules-safe :
      (rules : List (Rule F)) (request : PolicyRequest F) (context : Value F) (s : Progress F)
      → FitsValue Q context
      → All HasTypedConditions rules
      → All (HasFittingConditions Q) rules
      → RaisesOnly P (apply_rules request context rules s)
  unfolding apply_rules
  apply_rules-safe [] request context s p y q = tt
  apply_rules-safe (r ∷ rules) request context s p (y, ys) (q, qs) =
      RaisesOnly-bind P (apply_rule r request context) _ (apply_rule-safe r request context p y q)
        (λ x. apply_rules-safe rules request context (note r x.0 x.1 s) p ys qs)

  pub evaluate-safe :
      (request : PolicyRequest F) (bundle : Bundle F) (state : AgentState)
      → FitsFields Q request.arguments
      → All HasTypedConditions bundle.rules
      → All (HasFittingConditions Q) bundle.rules
      → RaisesOnly P (evaluate request bundle state)
  unfolding evaluate
  evaluate-safe request bundle state p y q = elim (Bool-cases state.revoked) [
    | inl revoked ↦ rw revoked tt
    | inr active ↦ rw active (
        RaisesOnly-bind P _ _
          (apply_rules-safe bundle.rules request _ start (p, ((tt, tt), tt)) y q) (λ x. tt))
  ]
