-- ===== src/Value.antt =====
-- The values that JSON and YAML documents hold, as Python sees them.
pub mod Texts
use phulax.Prelude.{
  ℕ, String, ◌≡◌, Bool, true, false, Option, none, some, List, [], ◌∷◌, str_eq, ltb, leb,
  if◌then◌else◌,
}

-- Python's unbounded `int`; `negsuc n` is -(n + 1).
pub data ℤ : Type 0 where
  pos : ℕ → ℤ
  negsuc : ℕ → ℤ

-- `a < b` on integers.
abbrev pub int_lt : ℤ → ℤ → Bool
int_lt (pos a) (pos b) = ltb a b
int_lt (pos a) (negsuc b) = false
int_lt (negsuc a) (pos b) = true
int_lt (negsuc a) (negsuc b) = ltb b a

-- `a <= b` on integers.
abbrev pub int_le : ℤ → ℤ → Bool
int_le (pos a) (pos b) = leb a b
int_le (pos a) (negsuc b) = false
int_le (negsuc a) (pos b) = true
int_le (negsuc a) (negsuc b) = leb b a

-- What the program uses of Python's `float`. `of_int` is `float(n)`, where `none` is the
-- `OverflowError` of an integer past the range; the mixed orders are exact in Python.
pub record FloatOps (F : Type 0) : Type 0 where
  pub of_int : ℤ → Option F
  pub float_eq : F → F → Bool
  pub float_lt : F → F → Bool
  pub float_le : F → F → Bool
  pub int_lt_float : ℤ → F → Bool
  pub int_le_float : ℤ → F → Bool
  pub float_lt_int : F → ℤ → Bool
  pub float_le_int : F → ℤ → Bool

-- `str | int | float | bool | None`
pub data Scalar (F : Type 0) : Type 0 where
  null : Scalar F
  bool : Bool → Scalar F
  int : ℤ → Scalar F
  float : F → Scalar F
  str : String → Scalar F

mutual
  pub data Value (F : Type 0) : Type 0 where
    scalar : Scalar F → Value F
    list : Items F → Value F
    dict : Fields F → Value F

  pub data Items (F : Type 0) : Type 0 where
    nil : Items F
    cons : Value F → Items F → Items F

  -- A mapping with string keys, in insertion order.
  pub data Fields (F : Type 0) : Type 0 where
    end : Fields F
    field : String → Value F → Fields F → Fields F

module _ {F : Type 0} where
  -- `d.get(key)`
  unfoldable pub get : Fields F → String → Option (Value F)
  get end k = none
  get (field j v fs) k = if str_eq j k then some v else get fs k

  -- `list(d)`
  unfoldable pub keys : Fields F → List String
  keys end = []
  keys (field j v fs) = j ∷ keys fs

  unfoldable pub items : Items F → List (Value F)
  items nil = []
  items (cons v vs) = v ∷ items vs
