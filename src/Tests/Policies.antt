-- ===== src/Tests/Policies.antt =====
-- Published bundles on concrete inputs.
use phulax.Prelude.{
  ℕ, String, Bool, true, false, ◌≡◌, refl, Option, none, some, List, [], ◌∷◌, ok, str_eq, ltb, ◌==◌,
  if◌then◌else◌,
}
use phulax.Value.{ℤ, Value, Scalar, str, scalar, list, Items}
use phulax.Policy.Rules.{Rule}
use phulax.Gateway.Store.{Verifier, verify}
use phulax.ControlPlane.Db.{PolicyBundle, Db, empty_db}
use phulax.ControlPlane.Policies.{
  BundlePublish, max_version, rules_entry, latest_bundle, load_rules_document, publish_bundle,
  bundle_out,
}
use phulax.ControlPlane.Policies.Versions.{publish_bundle-verify}
use phulax.Tests.Samples.{char_ops, document}

abbrev load_yaml : String → Option (Value ℤ)
load_yaml text = if str_eq text "rules: ..." then some document else none

-- A signature that is the key itself.
abbrev sign : String → ℕ → Value ℤ → String
sign key version rules_data = key

abbrev accepts : Scalar ℤ → Items ℤ → Option (Value ℤ) → Bool
accepts version rules_data (some (scalar (str s))) = str_eq s "key"
accepts version rules_data _ = false

abbrev verifier : Verifier ℤ
verifier = record { accepts = accepts }

abbrev old_bundle : ℕ → ℕ → PolicyBundle (Value ℤ)
old_bundle org_id version = record {
  id = version;
  org_id = org_id;
  version = version;
  rules = list Items.nil;
  signature = "key";
}

abbrev db : Db (Value ℤ)
db = record empty_db {
  organizations = record { id = 1; name = "a" } ∷ [];
  policy_bundles = old_bundle 1 4 ∷ old_bundle 2 9 ∷ [];
}

abbrev the_value : Option (Value ℤ) → Value ℤ
the_value none = list Items.nil
the_value (some v) = v

abbrev rules_data : Value ℤ
rules_data = the_value (rules_entry document)

abbrev published : PolicyBundle (Value ℤ)
published = record (old_bundle 1 5) { id = 7; rules = rules_data }

abbrev db' : Db (Value ℤ)
db' = record db { policy_bundles = old_bundle 1 4 ∷ old_bundle 2 9 ∷ published ∷ [] }

abbrev body : BundlePublish
body = record { org_id = 1; document = "rules: ..." }

publish_bundle_runs : publish_bundle load_yaml "key" sign 7 body db ≡ ok (published, db')
unfolding publish_bundle load_rules_document latest_bundle max_version
    phulax.ControlPlane.Policies.insert_bundle phulax.Policy.Schema.parse_rules_data
    phulax.Value.get phulax.Policy.Schema.Conditions.unknown_keys phulax.Value.keys
    phulax.Prelude.contains phulax.Policy.Schema.parse_rules phulax.Value.items
    phulax.Policy.Schema.parse_rule phulax.Policy.Schema.Conditions.parse_conditions
    phulax.Policy.Schema.Conditions.parse_condition phulax.Policy.Schema.Conditions.valid_field_path
    phulax.Value.Texts.split_dots phulax.Policy.Schema.Conditions.op_of
publish_bundle_runs = refl

publish_bundle-verify_example :
    (latest_bundle 1 db' ≡ ok published)
    × (ltb (max_version 1 db.policy_bundles) 5 ≡ true)
    × ((o : ℕ) → (1 == o) ≡ false → latest_bundle o db' ≡ latest_bundle o db)
    × (d : Option (Value ℤ)) × (rules : List (Rule ℤ)) × (load_rules_document load_yaml "rules: ..."
        ≡ ok (d, rules))
    × (verify verifier (bundle_out published) ≡ some (record { version = ℤ.pos 5; rules = rules }))
publish_bundle-verify_example =
    publish_bundle-verify load_yaml "key" sign verifier 7 body db db' published (λ version vs. refl)
      publish_bundle_runs
