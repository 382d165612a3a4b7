-- ===== src/ControlPlane/Policies.antt =====
-- apps/api/src/phulax_api/routers/policies.py: published bundles. `load_yaml` is the YAML reader,
-- `none` where it fails; `sign` is sign_bundle with the key of the settings. The rules that the
-- table keeps are read back as they were written.
pub mod Versions
use phulax.Prelude.{
  ℕ, ◌+◌, String, Bool, true, false, not, ◌&&◌, Option, none, some, List, [], ◌∷◌, ◌++◌, str_eq,
  ltb, ◌==◌, if◌then◌else◌, Result, ok, err,
}
use phulax.Value.{ℤ, Scalar, int, str, Value, scalar, list, dict, Items, Fields, end, field, get}
use phulax.Policy.Rules.{Rule}
use phulax.Policy.Schema.Conditions.{CharOps, Issue, issue, Where, Problem}
use phulax.Policy.Schema.{parse_rules_data}
use phulax.ControlPlane.Tables.{find}
use phulax.ControlPlane.Db.{PolicyBundle, Db, HttpError, has_organization}

-- schemas.BundlePublish
pub record BundlePublish : Type 0 where
  pub org_id : ℕ
  pub document : String

module _ {J : Type 0} where
  -- `select(func.max(version)).where(org_id == ...)`, and 0 where there is no row.
  unfoldable pub max_version : ℕ → List (PolicyBundle J) → ℕ
  max_version org_id [] = 0
  max_version org_id (b ∷ rows) =
      let rest = max_version org_id rows in
      if b.org_id == org_id then (if ltb rest b.version then b.version else rest) else rest

  -- `order_by(version.desc()).limit(1)`
  abbrev pub newer : PolicyBundle J → Option (PolicyBundle J) → Option (PolicyBundle J)
  newer b none = some b
  newer b (some c) = if ltb c.version b.version then some b else some c

  unfoldable pub find_latest : ℕ → List (PolicyBundle J) → Option (PolicyBundle J)
  find_latest org_id [] = none
  find_latest org_id (b ∷ rows) =
      let rest = find_latest org_id rows in if b.org_id == org_id then newer b rest else rest

  unfoldable pub latest_bundle : ℕ → Db J → Result HttpError (PolicyBundle J)
  unfolding find_latest
  latest_bundle org_id db = elim (find_latest org_id db.policy_bundles) [
    | none ↦ err (record { status = 404; code = "no policy bundle published for org" })
    | some b ↦ ok b
  ]

module _ {J : Type 0} (signing_key : String) (sign : String → ℕ → J → String) where
  abbrev pub new_bundle : ℕ → ℕ → ℕ → J → PolicyBundle J
  new_bundle new_id org_id version rules_data = record {
    id = new_id;
    org_id = org_id;
    version = version;
    rules = rules_data;
    signature = sign signing_key version rules_data;
  }

  -- `publish_bundle` once the document is accepted.
  unfoldable pub insert_bundle : ℕ → ℕ → J → Db J → PolicyBundle J × Db J
  insert_bundle new_id org_id rules_data db =
      let b = new_bundle new_id org_id (max_version org_id db.policy_bundles + 1) rules_data in
      (b, record db { policy_bundles = db.policy_bundles ++ (b ∷ []) })

-- `data["rules"]`, which is there once the parser accepts the document.
abbrev pub rules_entry : {F : Type 0} → Value F → Option (Value F)
rules_entry (dict fs) = get fs "rules"
rules_entry _ = none

module _ {F : Type 0} ⦃chars : CharOps⦄ (load_yaml : String → Option (Value F)) where
  -- load_rules_document of packages/policy/src/phulax_policy/schema.py.
  unfoldable pub load_rules_document :
      String → Result (List Issue) (Option (Value F) × List (Rule F))
  load_rules_document text = elim (load_yaml text) [
    | none ↦ err (issue Where.document Problem.not_yaml ∷ [])
    | some data_ ↦ elim (parse_rules_data data_) [
      | err issues ↦ err issues
      | ok rules ↦ ok (rules_entry data_, rules)
    ]
  ]

  module _ (signing_key : String) (sign : String → ℕ → Value F → String) where
    unfoldable pub publish_bundle :
        ℕ → BundlePublish → Db (Value F) → Result HttpError (PolicyBundle (Value F) × Db (Value F))
    unfolding insert_bundle
    publish_bundle new_id body db =
        if str_eq signing_key ""
        then err (record { status = 503; code = "POLICY_SIGNING_KEY is not configured" })
        else if not (has_organization body.org_id db)
        then err (record { status = 404; code = "organization not found" })
        else elim (load_rules_document body.document) [
          | err issues ↦ err (record { status = 422; code = "policy.invalid-rules" })
          | ok (rules_data, rules) ↦ elim rules_data [
            | none ↦ err (record { status = 500; code = "KeyError" })
            | some data_ ↦ ok (insert_bundle signing_key sign new_id body.org_id data_ db)
          ]
        ]

-- `_bundle_out`, as the JSON object of the response.
unfoldable pub bundle_out : {F : Type 0} → PolicyBundle (Value F) → Fields F
bundle_out b = field "id" (scalar (int (ℤ.pos b.id))) (
    field "org_id" (scalar (int (ℤ.pos b.org_id))) (
      field "version" (scalar (int (ℤ.pos b.version)))
        (field "rules" b.rules (field "signature" (scalar (str b.signature)) end))))
