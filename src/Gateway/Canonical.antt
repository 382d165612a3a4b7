-- ===== src/Gateway/Canonical.antt =====
-- apps/gateway/src/phulax_gateway/canonical.py: the normal form of a request, and its hash. `dumps`
-- is the JSON text of a normal form, and `sha256` the hexadecimal hash of a text.
pub mod Order
pub mod Same
pub mod Normal
use Prim.Native.Char.{Char, code}
use Prim.Native.String.{String}
use phulax.Prelude.{Bool, true, false, ◌&&◌, ◌||◌, Option, none, some, ltb, ◌==◌, if◌then◌else◌}
use phulax.Value.{
  ℤ, Scalar, null, bool, int, float, str, Value, scalar, list, dict, Items, nil, cons, Fields, end,
  field,
}

-- What the code asks of a float: `isnan or isinf`, and `int(x)` where `is_integer`.
pub record FloatForm (F : Type 0) : Type 0 where
  pub is_special : F → Bool
  pub as_int : F → Option ℤ

-- The order of texts by which `sorted` sorts: that of their code points.
unfoldable pub text_lt : String → String → Bool
text_lt String.[] String.[] = false
text_lt String.[] (String.◌∷◌ d t) = true
text_lt (String.◌∷◌ c s) String.[] = false
text_lt (String.◌∷◌ c s) (String.◌∷◌ d t) =
    ltb (code c) (code d) || ((code c == code d) && text_lt s t)

module _ {F : Type 0} where
  -- A step of `sorted`: the key goes before the first that is not smaller.
  unfoldable pub insert : String → Value F → Fields F → Fields F
  insert k v end = field k v end
  insert k v (field j w fs) =
      let rest = insert k v fs in if text_lt j k then field j w rest else field k v (field j w fs)

module _ {F : Type 0} where
  abbrev pub payload : String → String → Fields F → Value F
  payload tool_name environment arguments = dict (
      field "tool" (scalar (str tool_name))
        (field "environment" (scalar (str environment)) (field "arguments" (dict arguments) end)))

module _ {F : Type 0} ⦃form : FloatForm F⦄ where
  abbrev pub normalize_scalar : Scalar F → Option (Scalar F)
  normalize_scalar (float x) =
      if form.is_special x
      then none
      else elim (form.as_int x) [ none ↦ some (float x) | some n ↦ some (int n) ]
  normalize_scalar s = some s

  abbrev pub lift_scalar : Option (Scalar F) → Option (Value F)
  lift_scalar none = none
  lift_scalar (some s) = some (scalar s)

  abbrev pub cons_some : Option (Value F) → Option (Items F) → Option (Items F)
  cons_some (some v) (some vs) = some (cons v vs)
  cons_some _ _ = none

  abbrev pub insert_some : String → Option (Value F) → Option (Fields F) → Option (Fields F)
  insert_some k (some v) (some fs) = some (insert k v fs)
  insert_some k _ _ = none

  unfoldable mutual
    -- `_normalize`, where `none` is the `ValueError`.
    pub normalize : Value F → Option (Value F)
    normalize (scalar s) = lift_scalar (normalize_scalar s)
    normalize (list vs) = elim (normalize_items vs) [ none ↦ none | some ws ↦ some (list ws) ]
    normalize (dict fs) = elim (normalize_fields fs) [ none ↦ none | some gs ↦ some (dict gs) ]

    pub normalize_items : Items F → Option (Items F)
    normalize_items nil = some nil
    normalize_items (cons v vs) = cons_some (normalize v) (normalize_items vs)

    -- `{key: _normalize(value[key]) for key in sorted(value)}`
    pub normalize_fields : Fields F → Option (Fields F)
    normalize_fields end = some end
    normalize_fields (field k v fs) = insert_some k (normalize v) (normalize_fields fs)

  module _ (dumps : Value F → String) (sha256 : String → String) where
    unfoldable pub canonicalize : Value F → Option String
    canonicalize v = elim (normalize v) [ none ↦ none | some w ↦ some (dumps w) ]

    unfoldable pub canonical_hash : String → String → Fields F → Option String
    unfolding canonicalize
    canonical_hash tool_name environment arguments =
        elim (canonicalize (payload tool_name environment arguments)) [
          | none ↦ none
          | some text ↦ some (sha256 text)
        ]
