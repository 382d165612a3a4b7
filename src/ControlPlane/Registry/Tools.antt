-- ===== src/ControlPlane/Registry/Tools.antt =====
-- apps/api/src/phulax_api/routers/tools.py. `is_schema` is the library's check that a value is a
-- JSON schema.
use phulax.Prelude.{
  ℕ, String, Bool, ◌&&◌, Option, none, some, List, [], ◌∷◌, ◌++◌, keep, str_eq, ◌==◌, if◌then◌else◌,
  Result, ok, err,
}
use phulax.ControlPlane.Tables.{find, id_filter, text_filter}
use phulax.ControlPlane.Db.{Tool, Sensitivity, SideEffect, Db, HttpError, has_organization}

-- schemas.ToolCreate
pub record ToolCreate (J : Type 0) : Type 0 where
  pub org_id : ℕ
  pub name : String
  pub description : String
  pub args_schema : J
  pub sensitivity : Sensitivity
  pub side_effect : SideEffect
  pub sensitive_fields : List String

module _ {J : Type 0} where
  -- The unique key of `tools`.
  abbrev pub is_tool : ℕ → String → Tool J → Bool
  is_tool org_id name t = (t.org_id == org_id) && str_eq t.name name

  abbrev pub new_tool : ℕ → ToolCreate J → Tool J
  new_tool new_id body = record {
    id = new_id;
    org_id = body.org_id;
    name = body.name;
    description = body.description;
    args_schema = body.args_schema;
    sensitivity = body.sensitivity;
    side_effect = body.side_effect;
    sensitive_fields = body.sensitive_fields;
  }

  unfoldable pub register_tool :
      (J → Bool) → ℕ → ToolCreate J → Db J → Result HttpError (Tool J × Db J)
  register_tool is_schema new_id body db =
      if has_organization body.org_id db
      then (if is_schema body.args_schema
          then elim (find (is_tool body.org_id body.name) db.tools) [
            | some duplicate ↦ err (record { status = 409; code = "tool already registered" })
            | none ↦ ok (
              new_tool new_id body,
              record db { tools = db.tools ++ (new_tool new_id body ∷ []) },
            )
          ]
          else err (record { status = 422; code = "args_schema is not a valid JSON Schema" }))
      else err (record { status = 404; code = "organization not found" })

  unfoldable pub list_tools : Option ℕ → Option String → Db J → List (Tool J)
  list_tools org_id name db =
      keep (λ t. id_filter org_id t.org_id && text_filter name t.name) db.tools
