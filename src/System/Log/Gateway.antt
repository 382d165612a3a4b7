-- ===== src/System/Log/Gateway.antt =====
-- The functions of the gateway make such calls.
use mathlib.Core.Path.{subst}
use phulax.Prelude.{
  ℕ, String, Bool, true, none, some, List, [], ◌∷◌, ◌≡◌, refl, arith, inl, inr, str_eq, ok, err,
  Option-cases, Result-cases, Bool-cases,
}
use phulax.Value.{FloatOps, Fields}
use phulax.Policy.Rules.{Effect, deny, require_approval, freeze, Bundle}
use phulax.Policy.Engine.{Decision, evaluate}
use phulax.Policy.Risk.{RiskScore}
use phulax.ControlPlane.Db.{ExecutionState, Approval}
use phulax.ControlPlane.Approvals.{Mode, was_consumed, was_pending, was_rejected}
use phulax.Gateway.Calls.{
  ActionEnvelope, Claims, RegisteredTool, control_plane_error, execution_conflict, Call, posted,
  resolved, claimed, World,
}
use phulax.Gateway.Action.{
  Response, decision_event, record_event, refuse, refuse_decision, execute_claimed, execute_bare,
  claim_of, execute_action,
}
use phulax.Gateway.Submission.{
  resolution_of, follow, approval_flow, base_of, primary_of, preview_of, proceed, risk_of,
  policy_request, enforce, check_tool, same_identity, submit_action,
}
use phulax.System.{submit_all}
use phulax.System.Log.{
  IsLog, permits, IsLog-posted, IsLog-resolved, IsLog-claimed, IsLog-executed, IsLog-completed,
}

module _ {F : Type 0} (world : World F) (envelope : ActionEnvelope F) (claims : Claims) where
  execute_claimed-IsLog :
      (id : ℕ) (base : Response F) (calls : List (Call F))
      → permits calls ≡ true
      → IsLog world calls
      → IsLog world (execute_claimed world envelope claims id base calls).1
  unfolding execute_claimed
  execute_claimed-IsLog id base calls p h =
      let run = IsLog-executed world envelope.tool_name envelope.arguments calls p h in
      elim (Option-cases (world.execute calls envelope.tool_name envelope.arguments)) [
        | inl e ↦
            subst (IsLog world) (ground arith)
              (IsLog-completed world id ExecutionState.failed none _ run)
        | inr (result, e) ↦ elim (Option-cases (world.hash_result result)) [
          | inl e' ↦ subst (IsLog world) (ground arith) run
          | inr (meta, e') ↦
              subst (IsLog world) (ground arith)
                (IsLog-completed world id ExecutionState.succeeded (some meta) _ run)
        ]
      ]

  execute_bare-IsLog :
      (base : Response F) (calls : List (Call F))
      → permits calls ≡ true
      → IsLog world calls
      → IsLog world (execute_bare world envelope claims base calls).1
  unfolding execute_bare
  execute_bare-IsLog base calls p h =
      let run = IsLog-executed world envelope.tool_name envelope.arguments calls p h in
      elim (Option-cases (world.execute calls envelope.tool_name envelope.arguments)) [
        | inl e ↦ subst (IsLog world) (ground arith) run
        | inr (result, e) ↦ subst (IsLog world) (ground arith) run
      ]

  execute_action-IsLog :
      (hashed : String) (base : Response F) (calls : List (Call F))
      → permits calls ≡ true
      → IsLog world calls
      → IsLog world (execute_action world envelope claims hashed base calls).1
  unfolding execute_action
  execute_action-IsLog hashed base calls p h = elim (Option-cases envelope.idempotency_key) [
    | inl e ↦ subst (IsLog world) (ground arith) (execute_bare-IsLog base calls p h)
    | inr (key, e) ↦
        let claim = claim_of world envelope claims hashed key in
        elim (Result-cases (world.claim_execution calls claim)) [
          | inr (control_plane_error, e') ↦
              subst (IsLog world) (ground arith)
                (IsLog-claimed world claim (err control_plane_error) calls e' h)
          | inr (execution_conflict, e') ↦
              subst (IsLog world) (ground arith)
                (IsLog-claimed world claim (err execution_conflict) calls e' h)
          | inl (out, e') ↦ elim (Bool-cases out.claimed) [
            | inr n ↦
                subst (IsLog world) (ground arith) (IsLog-claimed world claim (ok out) calls e' h)
            | inl y ↦ subst (IsLog world) (ground arith) (
                execute_claimed-IsLog out.execution_id base (claimed claim (ok out) ∷ calls) y
                  (IsLog-claimed world claim (ok out) calls e' h))
          ]
        ]
  ]

  follow-IsLog :
      (m : Mode) (a : Approval (Fields F)) (hashed : String) (base : Response F)
      (calls : List (Call F))
      → permits calls ≡ true
      → IsLog world calls
      → IsLog world (follow world envelope claims m a hashed base calls).1
  unfolding follow
  follow-IsLog was_consumed a hashed base calls p h = execute_action-IsLog hashed base calls p h
  follow-IsLog was_pending a hashed base calls p h = h
  follow-IsLog was_rejected a hashed base calls p h = h

  approval_flow-IsLog :
      (hashed : String) (d : Decision) (risk : RiskScore) (preview : Fields F)
      (fields : List String) (base : Response F) (calls : List (Call F))
      → IsLog world calls
      → IsLog world (approval_flow world envelope claims hashed d risk preview fields base calls).1
  unfolding approval_flow
  approval_flow-IsLog hashed d risk preview fields base calls h =
      elim (Option-cases d.approver_role) [
        | inl e ↦ subst (IsLog world) (ground arith) h
        | inr (role, e) ↦
            let request = resolution_of world envelope claims hashed role d risk preview fields in
            elim (Result-cases (world.resolve_approval calls request)) [
              | inr (x, e') ↦
                  subst (IsLog world) (ground arith) (IsLog-resolved world request (err x) calls h)
              | inl (out, e') ↦ subst (IsLog world) (ground arith) (
                  follow-IsLog out.mode out.approval hashed base (resolved request (ok out) ∷ calls)
                    refl (IsLog-resolved world request (ok out) calls h))
            ]
      ]

  proceed-IsLog :
      (hashed : String) (tool : RegisteredTool) (d : Decision) (risk : RiskScore)
      (calls : List (Call F)) (effect : Effect)
      → d.effect ≡ effect
      → IsLog world calls
      → IsLog world (proceed world envelope claims hashed tool d risk calls).1
  unfolding proceed record_event
  proceed-IsLog hashed tool d risk calls effect same h =
      let (preview, redacted_fields) = preview_of world envelope claims tool d.effect in
      let event =
        decision_event world envelope claims hashed d.effect (primary_of d) d.reason_codes
          d.matched_rules (some risk.score) (some d.policy_version) redacted_fields in
      let base = base_of world envelope claims hashed (primary_of d) d risk in
      let recorded = world.post_event calls event in
      let calls' = posted event recorded ∷ calls in
      let noted = IsLog-posted world event recorded calls h in
      let acted = execute_action-IsLog hashed base calls' refl noted in
      let asked = approval_flow-IsLog hashed d risk preview redacted_fields base calls' noted in
      elim (Bool-cases recorded) [
        | inr n ↦ subst (IsLog world) (ground arith) noted
        | inl y ↦
            (elim effect
                as (λ x.
                  d.effect ≡ x
                  → IsLog world (proceed world envelope claims hashed tool d risk calls).1) [
                    | require_approval ↦ λ e. subst (IsLog world) (ground arith) asked
                    | _ ↦ λ e. subst (IsLog world) (ground arith) acted
                  ])
              same
      ]

  refuse-IsLog :
      (hashed : String) (status : ℕ) (rule : String) (calls : List (Call F))
      → IsLog world calls
      → IsLog world (refuse world envelope claims hashed status rule calls).1
  unfolding refuse record_event
  refuse-IsLog hashed status rule calls h = IsLog-posted world _ _ calls h

  refuse_decision-IsLog :
      (hashed primary : String) (d : Decision) (risk : RiskScore) (calls : List (Call F))
      → IsLog world calls
      → IsLog world (refuse_decision world envelope claims hashed primary d risk calls).1
  unfolding refuse_decision record_event
  refuse_decision-IsLog hashed primary d risk calls h = IsLog-posted world _ _ calls h

module _ {F : Type 0} ⦃ops : FloatOps F⦄ (world : World F) (envelope : ActionEnvelope F)
    (claims : Claims) where
  enforce-IsLog :
      (hashed : String) (tool : RegisteredTool) (bundle : Bundle F) (revoked : Bool)
      (calls : List (Call F))
      → IsLog world calls
      → IsLog world (enforce world envelope claims hashed tool bundle revoked calls).1
  unfolding enforce
  enforce-IsLog hashed tool bundle revoked calls h =
      elim (Result-cases
        (evaluate (policy_request world envelope claims) bundle (record { revoked = revoked }))) [
          | inr (x, e) ↦ subst (IsLog world) (ground arith) h
          | inl (d, e) ↦
              let risk = risk_of world envelope claims tool in
              let refused =
                refuse_decision-IsLog world envelope claims hashed (primary_of d) d risk calls h in
              let gone =
                proceed-IsLog world envelope claims hashed tool d risk calls d.effect refl h in
              (elim d.effect
                  as (λ x.
                    d.effect ≡ x
                    → IsLog world
                        (enforce world envelope claims hashed tool bundle revoked calls).1) [
                          | deny ↦ λ k. subst (IsLog world) (ground arith) refused
                          | freeze ↦ λ k. subst (IsLog world) (ground arith) refused
                          | _ ↦ λ k. subst (IsLog world) (ground arith) gone
                        ])
                refl
        ]

  check_tool-IsLog :
      (hashed : String) (revoked : Bool) (calls : List (Call F))
      → IsLog world calls
      → IsLog world (check_tool world envelope claims hashed revoked calls).1
  unfolding check_tool
  check_tool-IsLog hashed revoked calls h =
      let refused = λ (status : ℕ) (rule : String).
        refuse-IsLog world envelope claims hashed status rule calls h in
      elim (Result-cases (world.get_tool claims.org_id envelope.tool_name)) [
        | inr (x, e) ↦ subst (IsLog world) (ground arith) h
        | inl (none, e) ↦ subst (IsLog world) (ground arith) (refused 403 "tool.unknown")
        | inl (some tool, e) ↦ elim (Bool-cases (world.validates tool envelope.arguments)) [
          | inr n ↦ subst (IsLog world) (ground arith) (refused 403 "tool.args-schema")
          | inl y ↦ elim (Option-cases (world.get_bundle claims.org_id)) [
            | inl e' ↦ subst (IsLog world) (ground arith) (refused 503 "policy.bundle-unavailable")
            | inr (bundle, e') ↦
                subst (IsLog world) (ground arith)
                  (enforce-IsLog hashed tool bundle revoked calls h)
          ]
        ]
      ]

  submit_action-IsLog :
      (calls : List (Call F))
      → IsLog world calls
      → IsLog world (submit_action world envelope claims calls).1
  unfolding submit_action
  submit_action-IsLog calls h =
      elim (Option-cases (world.hash envelope.tool_name envelope.environment envelope.arguments)) [
        | inl e ↦ subst (IsLog world) (ground arith) h
        | inr (hashed, e) ↦
            let refused = λ (status : ℕ) (rule : String).
              refuse-IsLog world envelope claims hashed status rule calls h in
            elim (Bool-cases (same_identity world envelope claims)) [
              | inr n ↦ subst (IsLog world) (ground arith) (refused 403 "identity.claims-mismatch")
              | inl y ↦ elim (Bool-cases (str_eq envelope.environment claims.environment)) [
                | inr n ↦
                    subst (IsLog world) (ground arith) (refused 403 "identity.environment-mismatch")
                | inl z ↦ elim (Result-cases (world.get_agent claims.agent_id)) [
                  | inr (x, e') ↦ subst (IsLog world) (ground arith) h
                  | inl (none, e') ↦
                      subst (IsLog world) (ground arith) (refused 403 "identity.agent-unknown")
                  | inl (some revoked, e') ↦
                      subst (IsLog world) (ground arith) (check_tool-IsLog hashed revoked calls h)
                ]
              ]
            ]
      ]

pub submit_all-IsLog :
    {F : Type 0} ⦃ops : FloatOps F⦄ (world : World F)
    (submissions : List (ActionEnvelope F × Claims)) (calls : List (Call F))
    → IsLog world calls
    → IsLog world (submit_all world submissions calls)
unfolding submit_all
submit_all-IsLog world [] calls h = h
submit_all-IsLog world ((envelope, claims) ∷ submissions) calls h =
    submit_all-IsLog world submissions _ (submit_action-IsLog world envelope claims calls h)
