-- ===== src/Tests/Documents.antt =====
-- The parser and the risk score on concrete inputs.
use phulax.Prelude.{
  ℕ, ◌≤◌, ◌+◌, String, Bool, true, false, ◌≡◌, ◌≢◌, refl, Option, none, some, List, [], ◌∷◌, All,
  ok, err, length,
}
use phulax.Value.{ℤ, scalar, int}
use phulax.Policy.Engine.Conditions.{assertion_error}
use phulax.Policy.Engine.{evaluate}
use phulax.Policy.Schema.{parse_rules_data}
use phulax.Policy.Schema.Sound.{IsWellFormed}
use phulax.Policy.Schema.Document.{
  HasFreshIds, rules_of, parse_rules_data-accepted, parsed-never_asserts,
}
use phulax.Policy.Risk.{score_request, total}
use phulax.Policy.Risk.Bounds.{score_request-exact}
use phulax.Tests.Samples.{float_ops, char_ops, document, parsed, unaddressed, live}

parse_rules_data_runs : parse_rules_data document ≡ ok parsed
unfolding parse_rules_data phulax.Value.get phulax.Policy.Schema.Conditions.unknown_keys
    phulax.Value.keys phulax.Prelude.contains phulax.Policy.Schema.parse_rules phulax.Value.items
    phulax.Policy.Schema.parse_rule phulax.Policy.Schema.Conditions.parse_conditions
    phulax.Policy.Schema.Conditions.parse_condition phulax.Policy.Schema.Conditions.valid_field_path
    phulax.Value.Texts.split_dots phulax.Policy.Schema.Conditions.op_of
parse_rules_data_runs = refl

parse_rules_data-accepted_example :
    All IsWellFormed parsed × HasFreshIds [] parsed × (length parsed ≡ length (rules_of document))
parse_rules_data-accepted_example = parse_rules_data-accepted document parsed parse_rules_data_runs

parsed-never_asserts_example :
    evaluate unaddressed (record { version = ℤ.pos 1; rules = parsed }) live ≢ err assertion_error
parsed-never_asserts_example =
    parsed-never_asserts document parsed (ℤ.pos 1) unaddressed live parse_rules_data_runs

score_request_runs :
    (score_request {F = ℤ}
      (some "irreversible")
      (some "high")
      "production"
      (some (scalar (int (ℤ.pos 2000))))).score
    ≡ 100
unfolding score_request
score_request_runs = refl

score_request-exact_example :
    let risk =
      score_request {F = ℤ} (some "write") none "production" (some (scalar (int (ℤ.pos 200)))) in
    (risk.score ≤ 100) × (risk.score ≡ total risk.signals)
score_request-exact_example =
    score_request-exact (some "write") none "production" (some (scalar (int (ℤ.pos 200))))
