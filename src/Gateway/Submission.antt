-- ===== src/Gateway/Submission.antt =====
-- apps/gateway/src/phulax_gateway/main.py: submit_action and _approval_flow. Each function takes the
-- calls made so far, the newest first, and gives them back with its own.
pub mod AtMostOnce
pub mod Consent
pub mod Answers
pub mod Answered
pub mod Authorized
use phulax.Prelude.{
  ℕ, String, Bool, true, false, not, ◌&&◌, ◌||◌, Option, none, some, List, [], ◌∷◌, ◌++◌, ◌==◌,
  str_eq, if◌then◌else◌, Result, ok, err,
}
use phulax.Value.{ℤ, FloatOps, Value, Fields, end, get}
use phulax.Policy.Rules.{Effect, allow, deny, require_approval, freeze, Bundle}
use phulax.Policy.Engine.{PolicyRequest, AgentState, Decision, evaluate}
use phulax.Policy.Risk.{RiskScore, score_request}
use phulax.ControlPlane.Db.{ExecutionState, Approval}
use phulax.ControlPlane.Executions.{ExecutionClaim, ExecutionClaimOut}
use phulax.ControlPlane.Approvals.{
  ApprovalResolve, ApprovalResolveOut, Mode, was_consumed, was_pending, was_rejected,
}
use phulax.Gateway.Redaction.{redact}
use phulax.Gateway.Calls.{
  ActionEnvelope, Claims, RegisteredTool, DecisionEvent, Failure, control_plane_error,
  execution_conflict, Call, posted, resolved, claimed, executed, completed, World,
}
use phulax.Gateway.Action.{
  Response, Outcome, responded, raised, trace_id_of, decision_event, record_event, refuse,
  refuse_decision, execute_action,
}

-- `decision.winning_rules[0] if decision.winning_rules else decision.reason_codes[0]`
abbrev pub first_or : List String → String → String
first_or [] s = s
first_or (x ∷ xs) s = x

abbrev pub primary_of : Decision → String
primary_of d = first_or d.winning_rules (first_or d.reason_codes "")

module _ {F : Type 0} (world : World F) (envelope : ActionEnvelope F) (claims : Claims) where
  -- `consumed` adds the approval to the response.
  abbrev pub with_approval : Approval (Fields F) → Outcome F → Outcome F
  with_approval approval (responded r) = responded (record r {
    reason_codes = r.reason_codes ++ ("APPROVAL_CONSUMED" ∷ []);
    approval = some approval;
  })
  with_approval approval (raised status rule) = raised status rule

  abbrev pub resolution_of :
      String → String → Decision → RiskScore → Fields F → List String → ApprovalResolve (Fields F)
  resolution_of hashed role decision risk preview redacted_fields = record {
    org_id = claims.org_id;
    request_id = envelope.request_id;
    trace_id = some (trace_id_of world envelope claims);
    session_id = claims.session_id;
    canonical_hash = hashed;
    tool_name = envelope.tool_name;
    environment = envelope.environment;
    agent_version = envelope.agent_version;
    policy_version = world.show_version decision.policy_version;
    approver_role = role;
    requester_user_id = envelope.acting_user_id;
    args_preview = preview;
    redacted_fields = redacted_fields;
    reason_codes = decision.reason_codes;
    matched_rules = decision.matched_rules;
    risk_score = some risk.score;
  }

  -- `_approval_flow` once the control plane has answered.
  unfoldable pub follow :
      Mode → Approval (Fields F) → String → Response F → List (Call F) → Outcome F × List (Call F)
  unfolding execute_action
  follow was_consumed approval hashed base calls =
      let (outcome, calls') = execute_action world envelope claims hashed base calls in
      (with_approval approval outcome, calls')
  follow was_rejected approval hashed base calls = (raised 403 "APPROVAL_REJECTED", calls)
  follow was_pending approval hashed base calls = (
    responded (record base {
      status = 202;
      reason_codes = base.reason_codes ++ ("APPROVAL_PENDING" ∷ []);
      approval = some approval;
    }),
    calls,
  )

  -- `_approval_flow`. The request of a decision without a role has `null` for it, which is no
  -- `ApprovalResolve`: the control plane refuses it before it reaches a handler, so it is no call
  -- with an effect.
  unfoldable pub approval_flow :
      String
      → Decision
      → RiskScore
      → Fields F
      → List String
      → Response F
      → List (Call F)
      → Outcome F × List (Call F)
  unfolding follow
  approval_flow hashed decision risk preview redacted_fields base calls =
      elim decision.approver_role [
        | none ↦ (raised 502 "approval could not be resolved", calls)
        | some role ↦
            let request = resolution_of hashed role decision risk preview redacted_fields in
            let answer = world.resolve_approval calls request in
            let calls' = resolved request answer ∷ calls in
            elim answer [
              | err e ↦ (raised 502 "approval could not be resolved", calls')
              | ok out ↦ follow out.mode out.approval hashed base calls'
            ]
      ]

  abbrev pub base_of : String → String → Decision → RiskScore → Response F
  base_of hashed primary decision risk = record {
    status = 200;
    request_id = envelope.request_id;
    trace_id = trace_id_of world envelope claims;
    effect = decision.effect;
    rule = primary;
    reason_codes = decision.reason_codes;
    matched_rules = decision.matched_rules;
    policy_version = decision.policy_version;
    canonical_hash = hashed;
    risk_score = risk.score;
    result = none;
    duplicate = none;
    execution = none;
    approval = none;
  }

  -- The preview and the redacted fields, for a request that needs an approval.
  abbrev pub preview_of : RegisteredTool → Effect → Fields F × List String
  preview_of tool require_approval = redact envelope.arguments tool.sensitive_fields
  preview_of tool _ = (end, [])

  -- From the record on: no evidence, no execution.
  unfoldable pub proceed :
      String → RegisteredTool → Decision → RiskScore → List (Call F) → Outcome F × List (Call F)
  unfolding record_event execute_action approval_flow
  proceed hashed tool decision risk calls =
      let (preview, redacted_fields) = preview_of tool decision.effect in
      let event =
        decision_event world envelope claims hashed decision.effect (primary_of decision)
          decision.reason_codes decision.matched_rules (some risk.score)
          (some decision.policy_version) redacted_fields in
      let base = base_of hashed (primary_of decision) decision risk in
      let (recorded, calls') = record_event world envelope claims event calls in
      if not recorded
      then (raised 502 "decision event could not be recorded", calls')
      else elim decision.effect [
        | require_approval ↦ approval_flow hashed decision risk preview redacted_fields base calls'
        | _ ↦ execute_action world envelope claims hashed base calls'
      ]

module _ {F : Type 0} ⦃ops : FloatOps F⦄ (world : World F) (envelope : ActionEnvelope F)
    (claims : Claims) where
  abbrev pub risk_of : RegisteredTool → RiskScore
  risk_of tool =
      score_request tool.side_effect tool.sensitivity envelope.environment
        (get envelope.arguments "amount")

  abbrev pub policy_request : PolicyRequest F
  policy_request = record {
    tool_name = envelope.tool_name;
    environment = envelope.environment;
    agent_id = world.show_id claims.agent_id;
    arguments = envelope.arguments;
  }

  -- From the evaluation on.
  unfoldable pub enforce :
      String → RegisteredTool → Bundle F → Bool → List (Call F) → Outcome F × List (Call F)
  unfolding refuse_decision proceed
  enforce hashed tool bundle revoked calls =
      elim (evaluate policy_request bundle (record { revoked = revoked })) [
        | err e ↦ (raised 500 "evaluate", calls)
        | ok d ↦ elim d.effect [
          | deny ↦
              refuse_decision world envelope claims hashed (primary_of d) d (risk_of tool) calls
          | freeze ↦
              refuse_decision world envelope claims hashed (primary_of d) d (risk_of tool) calls
          | _ ↦ proceed world envelope claims hashed tool d (risk_of tool) calls
        ]
      ]

  -- From the lookup of the tool on.
  unfoldable pub check_tool : String → Bool → List (Call F) → Outcome F × List (Call F)
  unfolding refuse
  check_tool hashed revoked calls = elim (world.get_tool claims.org_id envelope.tool_name) [
    | err e ↦ (raised 500 "control plane", calls)
    | ok none ↦ refuse world envelope claims hashed 403 "tool.unknown" calls
    | ok (some tool) ↦
        if not (world.validates tool envelope.arguments)
        then refuse world envelope claims hashed 403 "tool.args-schema" calls
        else elim (world.get_bundle claims.org_id) [
          | none ↦ refuse world envelope claims hashed 503 "policy.bundle-unavailable" calls
          | some bundle ↦ enforce hashed tool bundle revoked calls
        ]
  ]

  abbrev pub same_identity : Bool
  same_identity =
      (envelope.agent_id == claims.agent_id)
      && ((envelope.session_id == claims.session_id)
          && str_eq envelope.agent_version claims.version)

  unfoldable pub submit_action : List (Call F) → Outcome F × List (Call F)
  unfolding refuse
  submit_action calls =
      elim (world.hash envelope.tool_name envelope.environment envelope.arguments) [
        | none ↦ (raised 500 "canonical_hash", calls)
        | some hashed ↦
            if not same_identity
            then refuse world envelope claims hashed 403 "identity.claims-mismatch" calls
            else if not (str_eq envelope.environment claims.environment)
            then refuse world envelope claims hashed 403 "identity.environment-mismatch" calls
            else elim (world.get_agent claims.agent_id) [
              | err e ↦ (raised 500 "control plane", calls)
              | ok none ↦ refuse world envelope claims hashed 403 "identity.agent-unknown" calls
              | ok (some revoked) ↦ check_tool hashed revoked calls
            ]
      ]
