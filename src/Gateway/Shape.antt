-- ===== src/Gateway/Shape.antt =====
-- apps/gateway/src/phulax_gateway/canonical.py: args_meta, the shape of the arguments.
use phulax.Prelude.{String, List, [], ◌∷◌}
use phulax.Value.{null, bool, int, float, str, Value, scalar, list, dict, Fields, end, field}

module _ {F : Type 0} where
  -- `_json_type`
  unfoldable pub json_type : Value F → String
  json_type (scalar (bool b)) = "boolean"
  json_type (scalar null) = "null"
  json_type (scalar (str s)) = "string"
  json_type (scalar (int n)) = "number"
  json_type (scalar (float x)) = "number"
  json_type (dict fs) = "object"
  json_type (list vs) = "array"

  unfoldable pub args_meta : Fields F → List (String × String)
  unfolding json_type
  args_meta end = []
  args_meta (field k v fs) = (k, json_type v) ∷ args_meta fs
