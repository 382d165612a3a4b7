-- ===== src/Gateway/Redaction.antt =====
-- apps/gateway/src/phulax_gateway/redaction.py: what is taken out of an approval preview.
pub mod Absent
pub mod Kept
use Prim.Native.Char.{Char, code}
use Prim.Native.String.{String}
use phulax.Prelude.{
  Bool, true, false, ◌&&◌, Option, none, some, List, [], ◌∷◌, str_eq, ◌==◌, if◌then◌else◌,
}
use phulax.Value.{Value, scalar, list, dict, Fields, end, field, get}
use phulax.Value.Texts.{split_dots}

-- `raw_path.removeprefix("$.")`
unfoldable pub strip_root : String → String
strip_root (String.◌∷◌ c (String.◌∷◌ d s)) =
    if (code c == b'$') && (code d == b'.') then s else String.◌∷◌ c (String.◌∷◌ d s)
strip_root s = s

module _ {F : Type 0} where
  -- `del node[head]`; a key stands once in a mapping.
  unfoldable pub delete : String → Fields F → Fields F
  delete k end = end
  delete k (field j v fs) = let rest = delete k fs in if str_eq j k then rest else field j v rest

  -- The mapping under `k` becomes `v`, in its place.
  unfoldable pub put : String → Value F → Fields F → Fields F
  put k v end = end
  put k v (field j w fs) =
      let rest = put k v fs in if str_eq j k then field j v rest else field j w rest

  -- `_remove`: the mapping without the path, and nothing where the path leads nowhere.
  unfoldable pub remove : List String → Fields F → Option (Fields F)
  remove [] node = none
  remove (head ∷ []) node = elim (get node head) [ none ↦ none | some v ↦ some (delete head node) ]
  remove (head ∷ next ∷ rest) node = elim (get node head) [
    | none ↦ none
    | some (scalar s) ↦ none
    | some (list vs) ↦ none
    | some (dict inner) ↦ elim (remove (next ∷ rest) inner) [
      | none ↦ none
      | some inner' ↦ some (put head (dict inner') node)
    ]
  ]

  -- The loop over the sensitive paths: the preview, and the paths that were taken out.
  unfoldable pub redact : Fields F → List String → Fields F × List String
  redact preview [] = (preview, [])
  redact preview (raw_path ∷ sensitive_paths) =
      let path = strip_root raw_path in
      elim (remove (split_dots path) preview) [
        | none ↦ redact preview sensitive_paths
        | some preview' ↦
            let (result, redacted) = redact preview' sensitive_paths in (result, path ∷ redacted)
      ]
