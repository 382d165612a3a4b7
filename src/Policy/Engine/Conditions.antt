-- ===== src/Policy/Engine/Conditions.antt =====
-- packages/policy/src/phulax_policy/engine.py: `_resolve_condition`, `_scalar_eq` and `_lookup`.
use phulax.Prelude.{
  String, Bool, true, false, not, Option, none, some, List, [], ◌∷◌, str_eq, Result, ok, err, ◌>>=◌,
  if◌then◌else◌,
}
use phulax.Value.{
  ℤ, int_lt, int_le, FloatOps, Scalar, null, bool, int, float, str, Value, scalar, dict, get,
}
use phulax.Value.Texts
use phulax.Value.Texts.{split_dots}
use phulax.Policy.Rules.{
  Op, eq, neq, gt, gte, lt, lte, is_in, not_in, ends_with, not_ends_with, Operand, one, many,
  Condition,
}

-- What a run may raise: a failed `assert`, or `float(n)` of an integer that is too large.
pub data Exn : Type 0 where
  assertion_error overflow_error : Exn

-- A number: `int | float`, and not `bool`.
pub data Number (F : Type 0) : Type 0 where
  whole : ℤ → Number F
  real : F → Number F

module _ {F : Type 0} where
  abbrev pub or_overflow : Option F → Result Exn F
  or_overflow none = err overflow_error
  or_overflow (some x) = ok x

  abbrev pub number_of : Scalar F → Option (Number F)
  number_of (int n) = some (whole n)
  number_of (float x) = some (real x)
  number_of _ = none

  -- The loop of `_lookup`, over the parts of the path.
  unfoldable pub walk : List String → Value F → Option (Value F)
  walk [] node = some node
  walk (part ∷ parts) (dict fs) = elim (get fs part) [ none ↦ none | some v ↦ walk parts v ]
  walk (part ∷ parts) _ = none

  unfoldable pub lookup : String → Value F → Option (Value F)
  lookup path context = walk (split_dots path) context

module _ {F : Type 0} ⦃ops : FloatOps F⦄ where
  abbrev pub number_lt : Number F → Number F → Bool
  number_lt (whole a) (whole b) = int_lt a b
  number_lt (whole a) (real y) = ops.int_lt_float a y
  number_lt (real x) (whole b) = ops.float_lt_int x b
  number_lt (real x) (real y) = ops.float_lt x y

  abbrev pub number_le : Number F → Number F → Bool
  number_le (whole a) (whole b) = int_le a b
  number_le (whole a) (real y) = ops.int_le_float a y
  number_le (real x) (whole b) = ops.float_le_int x b
  number_le (real x) (real y) = ops.float_le x y

  -- `float(value)`
  abbrev pub to_float : Number F → Result Exn F
  to_float (whole n) = or_overflow (ops.of_int n)
  to_float (real x) = ok x

  -- `float(value) == float(expected)`
  unfoldable pub number_eq : Number F → Number F → Result Exn Bool
  number_eq a b = to_float a >>= λ x. to_float b >>= λ y. ok (ops.float_eq x y)

  unfoldable pub scalar_eq : Scalar F → Scalar F → Result Exn Bool
  unfolding number_eq
  scalar_eq (bool a) (bool b) = ok (if a then b else not b)
  scalar_eq (int a) (int b) = number_eq (whole a) (whole b)
  scalar_eq (int a) (float y) = number_eq (whole a) (real y)
  scalar_eq (float x) (int b) = number_eq (real x) (whole b)
  scalar_eq (float x) (float y) = number_eq (real x) (real y)
  scalar_eq (str s) (str t) = ok (str_eq s t)
  scalar_eq null null = ok true
  scalar_eq _ _ = ok false

  -- A list or a mapping is of no type that the expected scalar has.
  unfoldable pub value_eq : Value F → Scalar F → Result Exn Bool
  unfolding scalar_eq
  value_eq (scalar s) expected = scalar_eq s expected
  value_eq _ expected = ok false

  -- `any(_scalar_eq(value, item) for item in expected)`, which stops at the first hit.
  unfoldable pub is_member : Value F → List (Scalar F) → Result Exn Bool
  is_member value [] = ok false
  is_member value (item ∷ expected) =
      value_eq value item >>= λ hit. elim hit [ true ↦ ok true | false ↦ is_member value expected ]

  -- One entry of the table of comparisons.
  abbrev pub compare_by : Op → Number F → Number F → Bool
  compare_by gt a b = number_lt b a
  compare_by gte a b = number_le b a
  compare_by lt a b = number_lt a b
  compare_by _ a b = number_le a b

  -- The branch of the four comparisons; a value that is no number is unknown.
  unfoldable pub resolve_comparison : Op → Value F → Operand F → Result Exn (Option Bool)
  resolve_comparison op (scalar s) expected = elim (number_of s) [
    | none ↦ ok none
    | some a ↦ elim expected [
      | one t ↦ elim (number_of t) [
        | none ↦ elim t [
          -- `isinstance(True, int)` holds, and `True` compares as 1.
          | bool b ↦
              ok (some (compare_by op a (whole (elim b [ true ↦ ℤ.pos 1 | false ↦ ℤ.pos 0 ]))))
          | _ ↦ err assertion_error
        ]
        | some b ↦ ok (some (compare_by op a b))
      ]
      | many ts ↦ err assertion_error
    ]
  ]
  resolve_comparison op _ expected = ok none

  -- `in` and `not_in`; `positive` tells them apart.
  unfoldable pub resolve_membership : Bool → Value F → Operand F → Result Exn (Option Bool)
  resolve_membership positive value (one t) = err assertion_error
  resolve_membership positive value (many ts) =
      is_member value ts >>= λ member. ok (some (if positive then member else not member))

  -- `ends_with` and `not_ends_with`
  unfoldable pub resolve_suffix : Bool → Value F → Operand F → Result Exn (Option Bool)
  resolve_suffix positive (scalar (str s)) (one (str t)) =
      let hit = Texts.ends_with s t in ok (some (if positive then hit else not hit))
  resolve_suffix positive (scalar (str s)) _ = err assertion_error
  resolve_suffix positive _ _ = ok none

  -- `eq` and `neq`; a tuple equals no JSON value.
  unfoldable pub resolve_equality : Bool → Value F → Operand F → Result Exn (Option Bool)
  resolve_equality positive value (one t) =
      value_eq value t >>= λ same. ok (some (if positive then same else not same))
  resolve_equality positive value (many ts) = ok (some (not positive))

  unfoldable pub resolve_op : Op → Value F → Operand F → Result Exn (Option Bool)
  unfolding resolve_comparison resolve_membership resolve_suffix resolve_equality
  resolve_op eq value expected = resolve_equality true value expected
  resolve_op neq value expected = resolve_equality false value expected
  resolve_op is_in value expected = resolve_membership true value expected
  resolve_op not_in value expected = resolve_membership false value expected
  resolve_op ends_with value expected = resolve_suffix true value expected
  resolve_op not_ends_with value expected = resolve_suffix false value expected
  resolve_op gt value expected = resolve_comparison gt value expected
  resolve_op gte value expected = resolve_comparison gte value expected
  resolve_op lt value expected = resolve_comparison lt value expected
  resolve_op lte value expected = resolve_comparison lte value expected

  -- True or false where provable; `none` is UNKNOWN.
  unfoldable pub resolve_condition : Condition F → Value F → Result Exn (Option Bool)
  unfolding resolve_op
  resolve_condition c context = elim (lookup c.path context) [
    | none ↦ ok none
    | some value ↦ resolve_op c.op value c.value
  ]
