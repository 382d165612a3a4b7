-- ===== src/System.antt =====
-- The gateway (apps/gateway/src/phulax_gateway/main.py) over the executions of the control plane
-- (apps/api/src/phulax_api/routers/executions.py): its claims are answered by the routes, on the
-- tables as its earlier calls left them. The result of an execution is the hash of what the tool
-- returned, or `{}`, which is `none`.
pub mod Log
pub mod Served
pub mod Tokens
pub mod AtMostOnce
use phulax.Prelude.{
  ℕ, String, Bool, true, false, ◌&&◌, Option, none, some, List, [], ◌∷◌, ◌+◌, ◌==◌, str_eq, length,
  if◌then◌else◌, Result, ok, err,
}
use phulax.Value.{FloatOps}
use phulax.ControlPlane.Db.{ExecutionState, Db, HttpError}
use phulax.ControlPlane.Executions.{
  ExecutionClaim, ExecutionClaimOut, ExecutionComplete, Completion, claim_execution,
  complete_execution,
}
use phulax.ControlPlane.Approvals.History.{committed}
use phulax.Gateway.Calls.{
  ActionEnvelope, Claims, Failure, control_plane_error, execution_conflict, Call, posted, resolved,
  claimed, executed, completed, World,
}
use phulax.Gateway.Submission.{submit_action}

-- The state that the gateway reports: it completes with one of two.
abbrev pub completion_of : ExecutionState → Completion
completion_of ExecutionState.succeeded = Completion.succeeded
completion_of _ = Completion.failed

abbrev flatten : Option (Option String) → Option String
flatten none = none
flatten (some meta) = meta

-- ControlPlaneClient.claim_execution on the answer of the route.
abbrev pub read_claim :
    Result HttpError (ExecutionClaimOut (Option String) × Db (Option String))
    → Result Failure (ExecutionClaimOut String)
read_claim (ok (out, db)) = ok (record {
  execution_id = out.execution_id;
  claimed = out.claimed;
  state = out.state;
  result_meta = flatten out.result_meta;
})
read_claim (err e) = if e.status == 409 then err execution_conflict else err control_plane_error

module _ {F : Type 0} (start : Db (Option String)) where
  -- The tables after the calls of the gateway, of which the newest is the first. The uuids that are
  -- drawn are told apart by the number of the call.
  unfoldable pub tables_after : List (Call F) → Db (Option String)
  tables_after [] = start
  tables_after (claimed claim answer ∷ calls) =
      let db = tables_after calls in committed db (claim_execution (length calls) claim db)
  tables_after (completed id state meta ∷ calls) =
      let db = tables_after calls in
      committed db
        (complete_execution id (record { state = completion_of state; result_meta = meta }) db)
  tables_after (posted event recorded ∷ calls) = tables_after calls
  tables_after (resolved request answer ∷ calls) = tables_after calls
  tables_after (executed tool_name arguments ∷ calls) = tables_after calls

  -- The world in which the claims are answered by the control plane.
  unfoldable pub linked : World F → World F
  unfolding tables_after
  linked world = record world {
    claim_execution =
        λ calls claim. read_claim (claim_execution (length calls) claim (tables_after calls));
  }

-- Submissions one after the other, with the claims of their tokens.
unfoldable pub submit_all :
    {F : Type 0} ⦃ops : FloatOps F⦄
    → World F
    → List (ActionEnvelope F × Claims)
    → List (Call F)
    → List (Call F)
submit_all world [] calls = calls
submit_all world ((envelope, claims) ∷ submissions) calls =
    let (outcome, calls') = submit_action world envelope claims calls in
    submit_all world submissions calls'
