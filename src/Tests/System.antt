-- ===== src/Tests/System.antt =====
-- The gateway over the control plane: an action that is submitted twice.
use phulax.Prelude.{ℕ, ◌≤◌, String, ◌≡◌, refl, Option, none, some, List, [], ◌∷◌}
use phulax.Value.{ℤ}
use phulax.ControlPlane.Db.{Db, empty_db}
use phulax.ControlPlane.Executions.{ExecutionClaim}
use phulax.Gateway.Calls.{ActionEnvelope, Claims}
use phulax.System.{linked, submit_all}
use phulax.System.AtMostOnce.{executions_for, submit_all-at_most_once}
use phulax.Tests.Samples.{float_ops}
use phulax.Tests.Submission.{claims, envelope, world}

abbrev start : Db (Option String)
start = record empty_db { organizations = record { id = 1; name = "acme" } ∷ [] }

abbrev keyed : ActionEnvelope ℤ
keyed = record envelope { idempotency_key = some "k" }

abbrev key : ExecutionClaim
key = record { org_id = 1; idempotency_key = "k"; request_id = 7; canonical_hash = "h" }

abbrev submissions : List (ActionEnvelope ℤ × Claims)
submissions = (keyed, claims) ∷ (keyed, claims) ∷ []

executions_for_runs : executions_for key (linked start world) submissions [] ≡ 1
unfolding linked executions_for phulax.Gateway.Calls.executions phulax.System.tables_after
    phulax.Gateway.Submission.submit_action phulax.Gateway.Submission.check_tool
    phulax.Gateway.Submission.enforce phulax.Policy.Engine.evaluate phulax.Policy.Engine.apply_rules
    phulax.Policy.Engine.apply_rule phulax.Policy.Engine.match_mismatch phulax.Prelude.contains
    phulax.Policy.Engine.check_conditions phulax.Policy.Engine.Conditions.resolve_condition
    phulax.Policy.Engine.Conditions.lookup phulax.Policy.Engine.Conditions.walk
    phulax.Value.Texts.split_dots phulax.Value.get phulax.Value.Texts.ends_with
    phulax.Policy.Engine.decide phulax.Policy.Engine.note phulax.Policy.Engine.decision_for
    phulax.Gateway.Action.execute_action phulax.Gateway.Action.execute_claimed
    phulax.Gateway.Action.record_event phulax.Gateway.Submission.proceed
    phulax.Policy.Engine.Conditions.resolve_comparison
    phulax.ControlPlane.Executions.claim_execution phulax.ControlPlane.Executions.claim_row
    phulax.ControlPlane.Executions.complete_execution
    phulax.ControlPlane.Executions.insert_authorized phulax.ControlPlane.Executions.start_executing
    phulax.ControlPlane.Tables.find phulax.ControlPlane.Tables.count_where
    phulax.ControlPlane.Tables.update_where phulax.ControlPlane.Executions.finish_executing
    phulax.ControlPlane.Executions.record_execution_event phulax.ControlPlane.Tables.find_last
executions_for_runs = refl

submit_all-at_most_once_example : executions_for key (linked start world) submissions [] ≤ 1
submit_all-at_most_once_example = submit_all-at_most_once world start submissions key refl
