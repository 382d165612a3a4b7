-- ===== src/ControlPlane/Service/Recorded.antt =====
-- The routes of events and executions take steps.
use mathlib.Core.Path.{subst}
use mathlib.Core.List.{append-nil}
use phulax.Prelude.{
  ℕ, List, [], ◌∷◌, ◌≡◌, refl, inl, inr, arith, ◌==◌, ok, Option-cases, Bool-cases,
}
use phulax.ControlPlane.Tables.{find, find_last, count_where}
use phulax.ControlPlane.Tables.Laws.{any-find, any-find_last}
use phulax.ControlPlane.Db.{
  AgentSession, ActionRequest, Execution, decision_event, execution_event, Db, has_user,
}
use phulax.ControlPlane.Events.{
  EventIngest, EventOut, new_request, agent_of, tool_id_of, ingest_event,
}
use phulax.ControlPlane.Executions.{
  ExecutionClaim, ExecutionClaimOut, ExecutionComplete, has_key, is_executing_row,
  insert_authorized, start_executing, finish_executing, claim_row, claim_execution, event_rule,
  record_execution_event, complete_execution,
}
use phulax.ControlPlane.Service.Steps.{IsStep, evidence_recorded, executions_changed}

module _ {J : Type 0} where
  pub ingest_event-IsStep :
      (new_id : ℕ) (body : EventIngest J) (out : EventOut J) (db db' : Db J)
      → ingest_event new_id body db ≡ ok (out, db')
      → IsStep db db'
  unfolding ingest_event
  ingest_event-IsStep new_id body out db db' h =
      elim (Option-cases
        (find (λ (s : AgentSession). s.id == body.action_request.session_id) db.sessions)) [
          | inl e ↦ absurd (ground arith)
          | inr (s, e) ↦ elim (Bool-cases (has_user body.action_request.acting_user_id db)) [
            | inr n ↦ absurd (ground arith)
            | inl y ↦ subst (IsStep db) (ground arith) (
                evidence_recorded
                  (new_request new_id (tool_id_of (agent_of s db) body.action_request.tool_name db)
                    body.action_request)
                  (decision_event new_id body.event) (any-find _ db.sessions s e) y refl)
          ]
        ]

  -- A step that records no event.
  executions_only :
      (rows : List (Execution J)) (db : Db J) → IsStep db (record db { executions = rows })
  executions_only rows db =
      subst (λ events. IsStep db (record db { executions = rows; events = events }))
        (append-nil db.events) (executions_changed rows [] tt)

  claim_row-IsStep :
      (id : ℕ) (rows : List (Execution J)) (out : ExecutionClaimOut J) (db db' : Db J)
      → claim_row id rows db ≡ ok (out, db')
      → IsStep db db'
  unfolding claim_row
  claim_row-IsStep id rows out db db' h =
      elim (Option-cases (find (λ (r : Execution J). r.id == id) (start_executing id rows))) [
        | inl e ↦ absurd (ground arith)
        | inr (r, e) ↦
            subst (IsStep db) (ground arith) (executions_only (start_executing id rows) db)
      ]

  pub claim_execution-IsStep :
      (new_id : ℕ) (body : ExecutionClaim) (out : ExecutionClaimOut J) (db db' : Db J)
      → claim_execution new_id body db ≡ ok (out, db')
      → IsStep db db'
  unfolding claim_execution
  claim_execution-IsStep new_id body out db db' h =
      let rows = insert_authorized new_id body db.executions in
      elim (Option-cases (find (has_key body) rows)) [
        | inl e ↦ absurd (ground arith)
        | inr (r, e) ↦ claim_row-IsStep r.id rows out db db' (ground arith)
      ]

  record_execution_event-IsStep :
      (e : Execution J) (rows : List (Execution J)) (db : Db J)
      → IsStep db (record_execution_event e (record db { executions = rows }))
  unfolding record_execution_event
  record_execution_event-IsStep e rows db =
      elim (Option-cases
        (find_last (λ (r : ActionRequest J). r.request_id == e.request_id) db.action_requests)) [
          | inl n ↦ rw (n, record_execution_event) (executions_only rows db)
          | inr (r, n) ↦
              rw (n, record_execution_event)
                (executions_changed rows
                  (execution_event r.id (event_rule e.state) e.id e.state e.result_meta ∷ [])
                  (
                    any-find_last (λ (q : ActionRequest J). q.request_id == e.request_id)
                        (λ (q : ActionRequest J). q.id == r.id) db.action_requests r n
                        (ground arith),
                    tt,
                  ))
        ]

  pub complete_execution-IsStep :
      (id : ℕ) (body : ExecutionComplete J) (out : Execution J) (db db' : Db J)
      → complete_execution id body db ≡ ok (out, db')
      → IsStep db db'
  unfolding complete_execution
  complete_execution-IsStep id body out db db' h =
      let rows = finish_executing id body db.executions in
      elim (Bool-cases (count_where (is_executing_row id) db.executions == 1)) [
        | inr n ↦ elim (Option-cases (find (λ (r : Execution J). r.id == id) db.executions)) [
          | inl e ↦ absurd (ground arith)
          | inr (r, e) ↦ absurd (ground arith)
        ]
        | inl y ↦ elim (Option-cases (find (λ (r : Execution J). r.id == id) rows)) [
          | inl e ↦ absurd (ground arith)
          | inr (r, e) ↦ subst (IsStep db) (ground arith) (record_execution_event-IsStep r rows db)
        ]
      ]
