-- ===== src/Gateway/Submission/AtMostOnce.antt =====
-- One submission executes a tool at most once.
use phulax.Prelude.{
  ℕ, suc, ◌≤◌, String, Bool, ◌≡◌, refl, none, some, List, [], ◌∷◌, ok, arith, inl, inr,
  Option-cases, Result-cases,
}
use phulax.Value.{FloatOps, Fields}
use phulax.Policy.Rules.{Bundle}
use phulax.Policy.Engine.{Decision, evaluate}
use phulax.Policy.Risk.{RiskScore}
use phulax.ControlPlane.Db.{Approval}
use phulax.ControlPlane.Approvals.{Mode, was_consumed, was_pending, was_rejected}
use phulax.Gateway.Calls.{
  ActionEnvelope, Claims, RegisteredTool, Call, resolved, claimed, World, executions,
}
use phulax.Gateway.Action.{
  Response, record_event, refuse, refuse_decision, execute_claimed, execute_bare, claim_of,
  execute_action,
}
use phulax.Gateway.Submission.{
  resolution_of, follow, approval_flow, base_of, primary_of, preview_of, proceed, risk_of,
  policy_request, enforce, check_tool, submit_action,
}

module _ {F : Type 0} (world : World F) (envelope : ActionEnvelope F) (claims : Claims) where
  execute_claimed-le :
      (id : ℕ) (base : Response F) (calls : List (Call F))
      → executions (execute_claimed world envelope claims id base calls).1 ≤ suc (executions calls)
  unfolding execute_claimed executions
  execute_claimed-le id base calls = ground arith

  execute_bare-le :
      (base : Response F) (calls : List (Call F))
      → executions (execute_bare world envelope claims base calls).1 ≤ suc (executions calls)
  unfolding execute_bare executions
  execute_bare-le base calls = ground arith

  execute_action-le :
      (hashed : String) (base : Response F) (calls : List (Call F))
      → executions (execute_action world envelope claims hashed base calls).1
        ≤ suc (executions calls)
  unfolding execute_action executions
  execute_action-le hashed base calls = elim (Option-cases envelope.idempotency_key) [
    | inl e ↦ ground (arith, execute_bare-le base calls)
    | inr (key, e) ↦
        elim (Result-cases
          (world.claim_execution calls (claim_of world envelope claims hashed key))) [
            | inr (x, e') ↦ ground arith
            | inl (out, e') ↦ ground (
              arith,
              execute_claimed-le out.execution_id base
                  (claimed (claim_of world envelope claims hashed key) (ok out) ∷ calls),
            )
          ]
  ]

  follow-le :
      (m : Mode) (a : Approval (Fields F)) (hashed : String) (base : Response F)
      (calls : List (Call F))
      → executions (follow world envelope claims m a hashed base calls).1 ≤ suc (executions calls)
  unfolding follow
  follow-le was_consumed a hashed base calls = execute_action-le hashed base calls
  follow-le was_pending a hashed base calls = omega arith
  follow-le was_rejected a hashed base calls = omega arith

  approval_flow-le :
      (hashed : String) (d : Decision) (risk : RiskScore) (preview : Fields F)
      (fields : List String) (base : Response F) (calls : List (Call F))
      → executions (approval_flow world envelope claims hashed d risk preview fields base calls).1
        ≤ suc (executions calls)
  unfolding approval_flow executions
  approval_flow-le hashed d risk preview fields base calls = elim (Option-cases d.approver_role) [
    | inl e ↦ ground arith
    | inr (role, e) ↦
        let request = resolution_of world envelope claims hashed role d risk preview fields in
        elim (Result-cases (world.resolve_approval calls request)) [
          | inr (x, e') ↦ ground arith
          | inl (out, e') ↦ ground (
            arith,
            follow-le out.mode out.approval hashed base (resolved request (ok out) ∷ calls),
          )
        ]
  ]

  pub executions-refuse :
      (hashed : String) (status : ℕ) (rule : String) (calls : List (Call F))
      → executions (refuse world envelope claims hashed status rule calls).1 ≡ executions calls
  unfolding refuse record_event executions
  executions-refuse hashed status rule calls = refl

  pub executions-refuse_decision :
      (hashed primary : String) (d : Decision) (risk : RiskScore) (calls : List (Call F))
      → executions (refuse_decision world envelope claims hashed primary d risk calls).1
        ≡ executions calls
  unfolding refuse_decision record_event executions
  executions-refuse_decision hashed primary d risk calls = refl

  proceed-le :
      (hashed : String) (tool : RegisteredTool) (d : Decision) (risk : RiskScore)
      (calls : List (Call F))
      → executions (proceed world envelope claims hashed tool d risk calls).1
        ≤ suc (executions calls)
  unfolding proceed record_event executions
  proceed-le hashed tool d risk calls = ground (
    arith,
    execute_action-le hashed (base_of world envelope claims hashed (primary_of d) d risk),
    approval_flow-le hashed d risk (preview_of world envelope claims tool d.effect).0
        (preview_of world envelope claims tool d.effect).1
        (base_of world envelope claims hashed (primary_of d) d risk),
  )

module _ {F : Type 0} ⦃ops : FloatOps F⦄ (world : World F) (envelope : ActionEnvelope F)
    (claims : Claims) where
  enforce-le :
      (hashed : String) (tool : RegisteredTool) (bundle : Bundle F) (revoked : Bool)
      (calls : List (Call F))
      → executions (enforce world envelope claims hashed tool bundle revoked calls).1
        ≤ suc (executions calls)
  unfolding enforce
  enforce-le hashed tool bundle revoked calls =
      elim (Result-cases
        (evaluate (policy_request world envelope claims) bundle (record { revoked = revoked }))) [
          | inr (x, e) ↦ ground arith
          | inl (d, e) ↦ ground (
            arith,
            executions-refuse_decision world envelope claims hashed (primary_of d) d
                (risk_of world envelope claims tool) calls,
            proceed-le world envelope claims hashed tool d (risk_of world envelope claims tool)
                calls,
          )
        ]

  check_tool-le :
      (hashed : String) (revoked : Bool) (calls : List (Call F))
      → executions (check_tool world envelope claims hashed revoked calls).1
        ≤ suc (executions calls)
  unfolding check_tool refuse record_event executions
  check_tool-le hashed revoked calls =
      elim (Result-cases (world.get_tool claims.org_id envelope.tool_name)) [
        | inr (x, e) ↦ ground arith
        | inl (none, e) ↦ ground arith
        | inl (some tool, e) ↦ elim (Option-cases (world.get_bundle claims.org_id)) [
          | inl e' ↦ ground arith
          | inr (bundle, e') ↦ ground (arith, enforce-le hashed tool bundle revoked calls)
        ]
      ]

  -- One submission executes a tool at most once, whatever the control plane, the policy and the
  -- tool answer.
  pub submit_action-le : executions (submit_action world envelope claims []).1 ≤ 1
  unfolding submit_action refuse record_event executions
  submit_action-le =
      elim (Option-cases (world.hash envelope.tool_name envelope.environment envelope.arguments)) [
        | inl e ↦ ground arith
        | inr (hashed, e) ↦ elim (Result-cases (world.get_agent claims.agent_id)) [
          | inr (x, e') ↦ ground arith
          | inl (none, e') ↦ ground arith
          | inl (some revoked, e') ↦ ground (arith, check_tool-le hashed revoked [])
        ]
      ]
