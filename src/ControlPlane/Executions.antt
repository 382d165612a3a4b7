-- ===== src/ControlPlane/Executions.antt =====
-- apps/api/src/phulax_api/routers/executions.py: claims and completions of executions.
pub mod AtMostOnce
pub mod Advance
pub mod Outcomes
use phulax.Prelude.{
  ℕ, String, Bool, ◌&&◌, ◌||◌, any, Option, none, some, List, [], ◌∷◌, ◌++◌, str_eq, ◌==◌,
  if◌then◌else◌, Result, ok, err,
}
use phulax.ControlPlane.Tables.{find, find_last, update_where, count_where}
use phulax.ControlPlane.Db.{
  ExecutionState, authorized, executing, same_execution_state, Execution, execution_event, Db,
  HttpError, has_organization,
}

-- schemas.ExecutionClaim
pub record ExecutionClaim : Type 0 where
  pub org_id : ℕ
  pub idempotency_key : String
  pub request_id : ℕ
  pub canonical_hash : String

-- schemas.ExecutionClaimOut
pub record ExecutionClaimOut (J : Type 0) : Type 0 where
  pub execution_id : ℕ
  pub claimed : Bool
  pub state : ExecutionState
  pub result_meta : Option J

-- schemas.ExecutionComplete: the state is one of two.
pub data Completion : Type 0 where
  succeeded failed : Completion

abbrev pub completed_state : Completion → ExecutionState
completed_state Completion.succeeded = ExecutionState.succeeded
completed_state Completion.failed = ExecutionState.failed

pub record ExecutionComplete (J : Type 0) : Type 0 where
  pub state : Completion
  pub result_meta : J

abbrev pub event_rule : ExecutionState → String
event_rule authorized = "execution.authorized"
event_rule executing = "execution.executing"
event_rule ExecutionState.succeeded = "execution.succeeded"
event_rule ExecutionState.failed = "execution.failed"

module _ {J : Type 0} where
  -- The unique key of the table.
  abbrev pub has_key : ExecutionClaim → Execution J → Bool
  has_key body e = (e.org_id == body.org_id) && str_eq e.idempotency_key body.idempotency_key

  abbrev pub is_authorized_row : ℕ → Execution J → Bool
  is_authorized_row id e = (e.id == id) && same_execution_state e.state authorized

  abbrev pub is_executing_row : ℕ → Execution J → Bool
  is_executing_row id e = (e.id == id) && same_execution_state e.state executing

  abbrev pub new_execution : ℕ → ExecutionClaim → Execution J
  new_execution new_id body = record {
    id = new_id;
    org_id = body.org_id;
    idempotency_key = body.idempotency_key;
    request_id = body.request_id;
    canonical_hash = body.canonical_hash;
    state = authorized;
    result_meta = none;
  }

  -- The first statement: INSERT ... ON CONFLICT DO NOTHING. `new_id` is the uuid that it draws.
  unfoldable pub insert_authorized : ℕ → ExecutionClaim → List (Execution J) → List (Execution J)
  insert_authorized new_id body rows = elim (find (has_key body) rows) [
    | some e ↦ rows
    | none ↦ rows ++ (new_execution new_id body ∷ [])
  ]

  -- The third statement: AUTHORIZED → EXECUTING.
  unfoldable pub start_executing : ℕ → List (Execution J) → List (Execution J)
  start_executing id rows =
      update_where (is_authorized_row id) (λ e. record e { state = executing }) rows

  abbrev pub completed : ExecutionComplete J → Execution J → Execution J
  completed body e = record e {
    state = completed_state body.state;
    result_meta = some body.result_meta;
  }

  -- `UPDATE` of the completion: EXECUTING → SUCCEEDED or FAILED.
  unfoldable pub finish_executing :
      ℕ → ExecutionComplete J → List (Execution J) → List (Execution J)
  finish_executing id body rows = update_where (is_executing_row id) (completed body) rows

  -- The last statements of the claim: the transition, and the row as it is read back.
  unfoldable pub claim_row :
      ℕ → List (Execution J) → Db J → Result HttpError (ExecutionClaimOut J × Db J)
  unfolding start_executing
  claim_row id rows db =
      let rows' = start_executing id rows in
      elim (find (λ r. r.id == id) rows') [
        | none ↦ err (record { status = 500; code = "AssertionError" })
        | some e ↦ ok (
          record {
            execution_id = id;
            claimed = count_where (is_authorized_row id) rows == 1;
            state = e.state;
            result_meta = e.result_meta;
          },
          record db { executions = rows' },
        )
      ]

  -- The row is there, or its foreign key is: the first statement does not fail.
  abbrev pub is_insertable : ExecutionClaim → Db J → Bool
  is_insertable body db = any (has_key body) db.executions || has_organization body.org_id db

  unfoldable pub claim_execution :
      ℕ → ExecutionClaim → Db J → Result HttpError (ExecutionClaimOut J × Db J)
  unfolding insert_authorized
  claim_execution new_id body db =
      let rows = insert_authorized new_id body db.executions in
      if is_insertable body db
      then elim (find (has_key body) rows) [
        | none ↦ err (record { status = 500; code = "AssertionError" })
        | some e ↦
            if str_eq e.canonical_hash body.canonical_hash
            then claim_row e.id rows db
            else err (record { status = 409; code = "execution.key-reused" })
      ]
      else err (record { status = 500; code = "IntegrityError" })

  -- No recorded request, no event.
  unfoldable pub record_execution_event : Execution J → Db J → Db J
  record_execution_event e db =
      elim (find_last (λ r. r.request_id == e.request_id) db.action_requests) [
        | none ↦ db
        | some r ↦ record db {
          events =
              db.events
              ++ (execution_event r.id (event_rule e.state) e.id e.state e.result_meta ∷ []);
        }
      ]

  unfoldable pub complete_execution :
      ℕ → ExecutionComplete J → Db J → Result HttpError (Execution J × Db J)
  complete_execution id body db =
      if count_where (is_executing_row id) db.executions == 1
      then (let rows = finish_executing id body db.executions in
          elim (find (λ r. r.id == id) rows) [
            | none ↦ err (record { status = 500; code = "AssertionError" })
            | some e ↦ ok (e, record_execution_event e (record db { executions = rows }))
          ])
      else elim (find (λ r. r.id == id) db.executions) [
        | none ↦ err (record { status = 404; code = "execution not found" })
        | some e ↦ err (record { status = 409; code = "execution.not-executing" })
      ]
