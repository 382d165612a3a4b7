-- ===== src/Gateway/Action.antt =====
-- apps/gateway/src/phulax_gateway/main.py: the path of an action. Each function takes the calls
-- made so far, the newest first, and gives them back with its own.
use phulax.Prelude.{
  ℕ, String, Bool, true, false, Option, none, some, List, [], ◌∷◌, if◌then◌else◌, ok, err,
}
use phulax.Value.{ℤ, Fields}
use phulax.Policy.Rules.{Effect, deny}
use phulax.Policy.Engine.{Decision}
use phulax.Policy.Risk.{RiskScore}
use phulax.ControlPlane.Db.{ExecutionState, Approval}
use phulax.ControlPlane.Executions.{ExecutionClaim}
use phulax.Gateway.Shape.{args_meta}
use phulax.Gateway.Calls.{
  ActionEnvelope, Claims, DecisionEvent, control_plane_error, execution_conflict, Call, posted,
  claimed, executed, completed, World,
}

-- `base`, and what the branches add to it.
pub record Response (F : Type 0) : Type 0 where
  pub status : ℕ
  pub request_id : ℕ
  pub trace_id : ℕ
  pub effect : Effect
  pub rule : String
  pub reason_codes : List String
  pub matched_rules : List String
  pub policy_version : ℤ
  pub canonical_hash : String
  pub risk_score : ℕ
  pub result : Option (Fields F)
  pub duplicate : Option Bool
  pub execution : Option (ℕ × ExecutionState × Option String)
  pub approval : Option (Approval (Fields F))

-- A response, or an exception: its status, and the rule that it names.
pub data Outcome (F : Type 0) : Type 0 where
  responded : Response F → Outcome F
  raised : ℕ → String → Outcome F

module _ {F : Type 0} (world : World F) (envelope : ActionEnvelope F) (claims : Claims) where
  abbrev pub trace_id_of : ℕ
  trace_id_of = elim envelope.trace_id [ none ↦ world.draw | some id ↦ id ]

  -- The payload of `_record`.
  abbrev pub decision_event :
      String
      → Effect
      → String
      → List String
      → List String
      → Option ℕ
      → Option ℤ
      → List String
      → DecisionEvent
  decision_event hashed verdict rule reason_codes matched_rules risk_score policy_version
        redacted_fields =
      record {
        request_id = envelope.request_id;
        trace_id = trace_id_of;
        idempotency_key = envelope.idempotency_key;
        session_id = claims.session_id;
        tool_name = envelope.tool_name;
        environment = envelope.environment;
        acting_user_id = envelope.acting_user_id;
        canonical_hash = hashed;
        args_meta = args_meta envelope.arguments;
        redacted_fields = redacted_fields;
        verdict = verdict;
        rule = rule;
        reason_codes = reason_codes;
        matched_rules = matched_rules;
        risk_score = risk_score;
        policy_version = policy_version;
      }

  -- `_record`: the call, and whether it was recorded.
  unfoldable pub record_event : DecisionEvent → List (Call F) → Bool × List (Call F)
  record_event event calls =
      let recorded = world.post_event calls event in (recorded, posted event recorded ∷ calls)

  -- `refuse` without a decision.
  unfoldable pub refuse : String → ℕ → String → List (Call F) → Outcome F × List (Call F)
  unfolding record_event
  refuse hashed status rule calls =
      let event = decision_event hashed deny rule (rule ∷ []) [] none none [] in
      let (recorded, calls') = record_event event calls in (raised status rule, calls')

  -- `refuse` with a decision.
  unfoldable pub refuse_decision :
      String → String → Decision → RiskScore → List (Call F) → Outcome F × List (Call F)
  unfolding record_event
  refuse_decision hashed primary decision risk calls =
      let event =
        decision_event hashed decision.effect primary decision.reason_codes decision.matched_rules
          (some risk.score) (some decision.policy_version) [] in
      let (recorded, calls') = record_event event calls in (raised 403 primary, calls')

  -- `_complete_quietly`: the call is made, and its failure is only logged.
  abbrev pub complete_quietly : ℕ → ExecutionState → Option String → List (Call F) → List (Call F)
  complete_quietly execution_id state meta calls = completed execution_id state meta ∷ calls

  -- The executor is called with the key claimed as `execution_id`.
  unfoldable pub execute_claimed : ℕ → Response F → List (Call F) → Outcome F × List (Call F)
  execute_claimed execution_id base calls =
      let run = executed envelope.tool_name envelope.arguments ∷ calls in
      elim (world.execute calls envelope.tool_name envelope.arguments) [
        | none ↦
            (raised 500 "executor", complete_quietly execution_id ExecutionState.failed none run)
        | some result ↦ elim (world.hash_result result) [
          | none ↦ (raised 500 "canonicalize", run)
          | some meta ↦ (
            responded (record base {
              result = some result;
              duplicate = some false;
              execution = some (execution_id, ExecutionState.succeeded, some meta);
            }),
            complete_quietly execution_id ExecutionState.succeeded (some meta) run,
          )
        ]
      ]

  -- No key: the tool is executed as often as the action is submitted.
  unfoldable pub execute_bare : Response F → List (Call F) → Outcome F × List (Call F)
  execute_bare base calls =
      let run = executed envelope.tool_name envelope.arguments ∷ calls in
      elim (world.execute calls envelope.tool_name envelope.arguments) [
        | none ↦ (raised 500 "executor", run)
        | some result ↦ (responded (record base { result = some result }), run)
      ]

  abbrev pub claim_of : String → String → ExecutionClaim
  claim_of hashed key = record {
    org_id = claims.org_id;
    idempotency_key = key;
    request_id = envelope.request_id;
    canonical_hash = hashed;
  }

  unfoldable pub execute_action : String → Response F → List (Call F) → Outcome F × List (Call F)
  unfolding execute_claimed execute_bare
  execute_action hashed base calls = elim envelope.idempotency_key [
    | none ↦ execute_bare base calls
    | some key ↦
        let claim = claim_of hashed key in
        let answer = world.claim_execution calls claim in
        let calls' = claimed claim answer ∷ calls in
        elim answer [
          | err control_plane_error ↦ (raised 502 "execution claim could not be recorded", calls')
          | err execution_conflict ↦ (raised 409 "execution.key-reused", calls')
          | ok out ↦ if out.claimed then execute_claimed out.execution_id base calls' else (
            responded (record base {
              duplicate = some true;
              execution = some (out.execution_id, out.state, out.result_meta);
            }),
            calls',
          )
        ]
  ]
