-- ===== src/System/Log.antt =====
-- What the calls of the gateway look like: every execution of a tool follows the record of a
-- decision, an approval, or the claim that won its key.
pub mod Gateway
use mathlib.Core.Path.{subst}
use phulax.Prelude.{
  sym, ℕ, ◌+◌, ◌≤◌, suc, String, Bool, true, false, ◌&&◌, Option, none, some, List, [], ◌∷◌, ◌≡◌,
  refl, arith, inl, inr, ◌==◌, str_eq, if◌then◌else◌, Result, ok, err, Option-cases, Result-cases,
  Bool-cases,
}
use phulax.Value.{FloatOps, Fields}
use phulax.Policy.Rules.{Effect, allow, deny, require_approval, freeze, Bundle}
use phulax.Policy.Engine.{Decision, evaluate}
use phulax.Policy.Risk.{RiskScore}
use phulax.ControlPlane.Db.{ExecutionState, Approval}
use phulax.ControlPlane.Executions.{ExecutionClaim, ExecutionClaimOut}
use phulax.ControlPlane.Approvals.{
  ApprovalResolve, ApprovalResolveOut, Mode, was_consumed, was_pending, was_rejected,
}
use phulax.Gateway.Calls.{
  ActionEnvelope, Claims, RegisteredTool, DecisionEvent, Failure, control_plane_error,
  execution_conflict, Call, posted, resolved, claimed, executed, completed, World,
}
use phulax.Gateway.Action.{
  Response, decision_event, record_event, refuse, refuse_decision, execute_claimed, execute_bare,
  claim_of, execute_action,
}
use phulax.Gateway.Submission.{
  resolution_of, follow, approval_flow, base_of, primary_of, preview_of, proceed, risk_of,
  policy_request, enforce, check_tool, same_identity, submit_action,
}
use phulax.System.{submit_all}

abbrev pub same_key : ExecutionClaim → ExecutionClaim → Bool
same_key a b = (b.org_id == a.org_id) && str_eq b.idempotency_key a.idempotency_key

abbrev pub won : Result Failure (ExecutionClaimOut String) → Bool
won (err e) = false
won (ok out) = out.claimed

module _ {F : Type 0} where
  -- A tool may be executed after these calls.
  abbrev pub permits : List (Call F) → Bool
  permits (posted event recorded ∷ calls) = true
  permits (resolved request answer ∷ calls) = true
  permits (claimed claim answer ∷ calls) = won answer
  permits _ = false

  -- The claims of the key that won.
  unfoldable pub wins_for : ExecutionClaim → List (Call F) → ℕ
  wins_for key [] = 0
  wins_for key (claimed claim answer ∷ calls) =
      (if same_key key claim && won answer then 1 else 0) + wins_for key calls
  wins_for key (c ∷ calls) = wins_for key calls

  -- The calls are those of a gateway in this world.
  unfoldable pub IsLog : World F → List (Call F) → Type 0
  IsLog world [] = Unit
  IsLog world (claimed claim answer ∷ calls) =
      (answer ≡ world.claim_execution calls claim) × IsLog world calls
  IsLog world (executed tool_name arguments ∷ calls) = (permits calls ≡ true) × IsLog world calls
  IsLog world (c ∷ calls) = IsLog world calls

module _ {F : Type 0} (world : World F) where
  pub IsLog-posted :
      (event : DecisionEvent) (recorded : Bool) (calls : List (Call F))
      → IsLog world calls
      → IsLog world (posted event recorded ∷ calls)
  unfolding IsLog
  IsLog-posted event recorded calls h = h

  pub IsLog-resolved :
      (request : ApprovalResolve (Fields F))
      (answer : Result Failure (ApprovalResolveOut (Fields F))) (calls : List (Call F))
      → IsLog world calls
      → IsLog world (resolved request answer ∷ calls)
  unfolding IsLog
  IsLog-resolved request answer calls h = h

  pub IsLog-claimed :
      (claim : ExecutionClaim) (answer : Result Failure (ExecutionClaimOut String))
      (calls : List (Call F))
      → world.claim_execution calls claim ≡ answer
      → IsLog world calls
      → IsLog world (claimed claim answer ∷ calls)
  unfolding IsLog
  IsLog-claimed claim answer calls e h = (sym e, h)

  pub IsLog-executed :
      (tool_name : String) (arguments : Fields F) (calls : List (Call F))
      → permits calls ≡ true
      → IsLog world calls
      → IsLog world (executed tool_name arguments ∷ calls)
  unfolding IsLog
  IsLog-executed tool_name arguments calls p h = (p, h)

  pub IsLog-completed :
      (id : ℕ) (state : ExecutionState) (meta : Option String) (calls : List (Call F))
      → IsLog world calls
      → IsLog world (completed id state meta ∷ calls)
  unfolding IsLog
  IsLog-completed id state meta calls h = h
