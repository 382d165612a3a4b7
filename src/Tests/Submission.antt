-- ===== src/Tests/Submission.antt =====
-- The gateway on concrete inputs, and its theorems at them.
use phulax.Prelude.{
  ℕ, ◌≤◌, ◌<◌, String, Bool, true, false, ◌≡◌, ◌≢◌, refl, Option, none, some, List, [], ◌∷◌, ok,
  All, inl, inr, arith,
}
use phulax.Value.{ℤ, Scalar, int, str, Value, scalar, list, dict, Items, nil, Fields, end, field}
use phulax.Value.Texts.{split_dots}
use phulax.Policy.Engine.Conditions.{walk}
use phulax.Policy.Rules.{Bundle}
use phulax.Gateway.Redaction.{redact, strip_root}
use phulax.Gateway.Redaction.Absent.{IsAbsent, redact-IsAbsent}
use phulax.Gateway.Redaction.Kept.{redact_kept}
use phulax.Gateway.Store.{Fetched, unreachable, Verifier, get_bundle, Cached}
use phulax.Gateway.Store.Enforcing.{
  Ask, IsVerified, ask_all, get_bundle-IsVerified, get_bundle_serves,
}
use phulax.Gateway.Calls.{ActionEnvelope, Claims, World, Failure, executions}
use phulax.Gateway.Submission.{submit_action}
use phulax.Gateway.Submission.AtMostOnce.{submit_action-le}
use phulax.ControlPlane.Db.{ExecutionState}
use phulax.Gateway.Submission.Authorized.{IsAuthorized, submit_action-IsAuthorized}
use phulax.Prelude.{Result, err}
use phulax.Tests.Samples.{float_ops, char_ops, allow_bundle, inside}

abbrev personal : Fields ℤ
personal = field "amount" (scalar (int (ℤ.pos 30))) (
    field "customer" (dict (field "ssn" (scalar (str "123")) (field "name" (scalar (str "A")) end)))
      end)

abbrev sensitive : List String
sensitive = "$.customer.ssn" ∷ "card" ∷ []

redact_runs : redact personal sensitive ≡ (
  field "amount"
      (scalar (int (ℤ.pos 30)))
      (field "customer" (dict (field "name" (scalar (str "A")) end)) end),
  "customer.ssn" ∷ [],
)
unfolding redact phulax.Gateway.Redaction.remove split_dots strip_root phulax.Value.get
    phulax.Gateway.Redaction.put phulax.Gateway.Redaction.delete
redact_runs = refl

redact-IsAbsent_example :
    All (λ raw. IsAbsent (split_dots (strip_root raw)) (redact personal sensitive).0) sensitive
redact-IsAbsent_example = redact-IsAbsent personal sensitive

redact_kept_example :
    walk ("customer" ∷ "name" ∷ []) (dict (redact personal sensitive).0)
    ≡ walk ("customer" ∷ "name" ∷ []) (dict personal)
unfolding strip_root split_dots
redact_kept_example =
    redact_kept ("customer" ∷ "name" ∷ []) personal sensitive (inr (inl refl), (inl refl, tt))

abbrev verifier : Verifier ℤ
verifier = record { accepts = λ version rules signature. true }

abbrev published : Fetched ℤ
published =
    Fetched.document (field "version" (scalar (int (ℤ.pos 1))) (field "rules" (list nil) end))

abbrev first : Bundle ℤ
first = record { version = ℤ.pos 1; rules = [] }

abbrev asks : List (Ask ℤ)
asks = record { now = 10; org_id = 1; fetched = published } ∷ []

get_bundle_runs :
    (get_bundle verifier 100 30 1 unreachable (ask_all verifier 30 asks [])).0 ≡ some first
unfolding get_bundle ask_all phulax.Gateway.Store.find_entry phulax.Gateway.Store.verify
    phulax.Value.get phulax.Policy.Schema.parse_rules_data
    phulax.Policy.Schema.Conditions.unknown_keys phulax.Value.keys phulax.Prelude.contains
    phulax.Policy.Schema.parse_rules phulax.Value.items
get_bundle_runs = refl

get_bundle-IsVerified_example : IsVerified verifier 30 first
get_bundle-IsVerified_example =
    get_bundle-IsVerified verifier 30 asks 100 1 unreachable first get_bundle_runs

get_bundle_serves_example :
    (get_bundle verifier 100 30 1 unreachable
      (ask_all verifier 30 asks ((1, record { bundle = first; fetched_at = 5 }) ∷ []))).0
    ≢ none
unfolding phulax.Gateway.Store.find_entry
get_bundle_serves_example =
    get_bundle_serves verifier 30 asks ((1, record { bundle = first; fetched_at = 5 }) ∷ []) 100 1
      unreachable refl

abbrev pub claims : Claims
claims = record {
  agent_id = 5;
  org_id = 1;
  agent_version_id = 6;
  version = "1.0";
  session_id = 4;
  environment = "production";
}

abbrev pub envelope : ActionEnvelope ℤ
envelope = record {
  request_id = 7;
  trace_id = none;
  idempotency_key = none;
  agent_id = 5;
  agent_version = "1.0";
  session_id = 4;
  acting_user_id = none;
  environment = "production";
  tool_name = "refund";
  arguments = inside.arguments;
}

abbrev pub world : World ℤ
world = record {
  draw = 9;
  hash = λ tool environment arguments. some "h";
  hash_result = λ result. some "r";
  show_id = λ id. "5";
  show_version = λ version. "4";
  validates = λ tool arguments. true;
  get_agent = λ id. ok (some false);
  get_tool = λ org name.
      ok (some (record { side_effect = none; sensitivity = none; sensitive_fields = [] }));
  get_bundle = λ org. some allow_bundle;
  post_event = λ calls event. true;
  resolve_approval = λ calls request. err Failure.control_plane_error;
  claim_execution = λ calls claim. err Failure.execution_conflict;
  execute = λ calls tool arguments. some end;
}

submit_action_counts : executions (submit_action world envelope claims []).1 ≡ 1
unfolding submit_action executions phulax.Gateway.Submission.check_tool
    phulax.Gateway.Submission.enforce phulax.Policy.Engine.evaluate phulax.Policy.Engine.apply_rules
    phulax.Policy.Engine.apply_rule phulax.Policy.Engine.match_mismatch phulax.Prelude.contains
    phulax.Policy.Engine.check_conditions phulax.Policy.Engine.Conditions.resolve_condition
    phulax.Policy.Engine.Conditions.lookup walk split_dots phulax.Value.get
    phulax.Value.Texts.ends_with phulax.Policy.Engine.decide phulax.Policy.Engine.note
    phulax.Policy.Engine.decision_for phulax.Gateway.Action.execute_action
    phulax.Gateway.Action.execute_bare phulax.Gateway.Action.record_event
    phulax.Gateway.Submission.proceed phulax.Policy.Engine.Conditions.resolve_comparison
    phulax.Policy.Engine.Conditions.resolve_op phulax.Policy.Engine.Conditions.resolve_suffix
    phulax.Policy.Engine.classify
submit_action_counts = refl

submit_action_runs : 0 < executions (submit_action world envelope claims []).1
submit_action_runs = omega (arith, submit_action_counts)

submit_action-IsAuthorized_example : IsAuthorized world envelope claims []
submit_action-IsAuthorized_example =
    submit_action-IsAuthorized world envelope claims submit_action_runs

submit_action-le_example : executions (submit_action world envelope claims []).1 ≤ 1
submit_action-le_example = submit_action-le world envelope claims

-- Every claim of the control plane is a duplicate.
abbrev replayed : World ℤ
replayed = record world {
  claim_execution = λ calls claim. ok (record {
    execution_id = 10;
    claimed = false;
    state = ExecutionState.succeeded;
    result_meta = some "r";
  });
}

abbrev keyed : ActionEnvelope ℤ
keyed = record envelope { idempotency_key = some "k" }
