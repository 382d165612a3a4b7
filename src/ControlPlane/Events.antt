-- ===== src/ControlPlane/Events.antt =====
-- apps/api/src/phulax_api/routers/events.py: the evidence. The rows of a table stand in the order
-- of their creation; the events of one transaction, which have one time of creation, stand in the
-- order in which it wrote them.
pub mod Timeline
use phulax.Prelude.{
  ℕ, String, Bool, true, false, Option, none, some, List, [], ◌∷◌, ◌++◌, ◌&&◌, str_eq, ◌==◌, take,
  reverse, if◌then◌else◌, Result, ok, err,
}
use phulax.ControlPlane.Tables.{find}
use phulax.ControlPlane.Db.{
  Agent, AgentVersion, Tool, AgentSession, ActionRequest, DecisionIn, Event, decision_event,
  execution_event, approval_event, Db, HttpError, has_user,
}

-- schemas.ActionRequestIn
pub record ActionRequestIn (J : Type 0) : Type 0 where
  pub request_id : ℕ
  pub trace_id : Option ℕ
  pub idempotency_key : Option String
  pub session_id : ℕ
  pub tool_name : String
  pub environment : String
  pub acting_user_id : Option ℕ
  pub canonical_hash : String
  pub args_meta : J
  pub redacted_fields : List String
  pub requested_at : ℕ

-- schemas.EventIngest
pub record EventIngest (J : Type 0) : Type 0 where
  pub action_request : ActionRequestIn J
  pub event : DecisionIn

-- schemas.EventOut; `event` is the type, the verdict, the rule, and the rest of the event.
pub record EventOut (J : Type 0) : Type 0 where
  pub request_id : ℕ
  pub trace_id : Option ℕ
  pub session_id : ℕ
  pub tool_name : String
  pub environment : String
  pub canonical_hash : String
  pub args_meta : J
  pub redacted_fields : List String
  pub event : Event J

-- schemas.TimelineEventOut
pub record TimelineEventOut (J : Type 0) : Type 0 where
  pub trace_id : Option ℕ
  pub request_id : ℕ
  pub session_id : ℕ
  pub tool_name : String
  pub event : Event J

-- `column == x`, of a column that may be NULL.
abbrev pub is_some_id : ℕ → Option ℕ → Bool
is_some_id x none = false
is_some_id x (some id) = id == x

module _ {J : Type 0} where
  -- `event.action_request_id`
  abbrev pub request_of : Event J → ℕ
  request_of (decision_event r d) = r
  request_of (execution_event r rule id state result_meta) = r
  request_of (approval_event r rule id state decided_by) = r

  -- The join of `action_requests` and `events`.
  unfoldable pub join : List (ActionRequest J) → List (Event J) → List (ActionRequest J × Event J)
  join requests [] = []
  join requests (e ∷ events) =
      let rest = join requests events in
      elim (find (λ r. r.id == request_of e) requests) [ none ↦ rest | some r ↦ (r, e) ∷ rest ]

  -- The joined rows that meet a test, as they are shown.
  unfoldable pub project :
      {B : Type 0}
      → (ActionRequest J → Bool)
      → (ActionRequest J → Event J → B)
      → List (ActionRequest J × Event J)
      → List B
  project p out [] = []
  project p out ((r, e) ∷ rows) =
      let rest = project p out rows in if p r then out r e ∷ rest else rest

  -- `_event_out`
  abbrev pub event_out : ActionRequest J → Event J → EventOut J
  event_out r e = record {
    request_id = r.request_id;
    trace_id = r.trace_id;
    session_id = r.session_id;
    tool_name = r.tool_name;
    environment = r.environment;
    canonical_hash = r.canonical_hash;
    args_meta = r.args_meta;
    redacted_fields = r.redacted_fields;
    event = e;
  }

  -- The timeline leaves out the risk score and the latency.
  abbrev pub without_measures : Event J → Event J
  without_measures (decision_event r d) =
      decision_event r (record d { risk_score = none; latency_ms = none })
  without_measures e = e

  abbrev pub timeline_event_out : ActionRequest J → Event J → TimelineEventOut J
  timeline_event_out r e = record {
    trace_id = r.trace_id;
    request_id = r.request_id;
    session_id = r.session_id;
    tool_name = r.tool_name;
    event = without_measures e;
  }

  abbrev pub is_request : Option ℕ → ActionRequest J → Bool
  is_request none r = true
  is_request (some id) r = r.request_id == id

  abbrev pub is_traced : ℕ → ActionRequest J → Bool
  is_traced trace_id r = is_some_id trace_id r.trace_id

  unfoldable pub list_events : Option ℕ → Db J → List (EventOut J)
  list_events request_id db =
      take 100
        (reverse (project (is_request request_id) event_out (join db.action_requests db.events)))

  unfoldable pub timeline : ℕ → Db J → List (TimelineEventOut J)
  timeline trace_id db =
      project (is_traced trace_id) timeline_event_out (join db.action_requests db.events)

  -- `agent`: of the version of the session.
  unfoldable pub agent_of : AgentSession → Db J → Option Agent
  agent_of s db = elim (find (λ v. v.id == s.agent_version_id) db.agent_versions) [
    | none ↦ none
    | some v ↦ find (λ a. a.id == v.agent_id) db.agents
  ]

  -- `tool.id if tool else None`
  unfoldable pub tool_id_of : Option Agent → String → Db J → Option ℕ
  tool_id_of none tool_name db = none
  tool_id_of (some a) tool_name db =
      elim (find (λ t. (t.org_id == a.org_id) && str_eq t.name tool_name) db.tools) [
        | none ↦ none
        | some t ↦ some t.id
      ]

  abbrev pub new_request : ℕ → Option ℕ → ActionRequestIn J → ActionRequest J
  new_request new_id tool_id body = record {
    id = new_id;
    request_id = body.request_id;
    trace_id = body.trace_id;
    idempotency_key = body.idempotency_key;
    session_id = body.session_id;
    tool_id = tool_id;
    tool_name = body.tool_name;
    environment = body.environment;
    acting_user_id = body.acting_user_id;
    canonical_hash = body.canonical_hash;
    args_meta = body.args_meta;
    redacted_fields = body.redacted_fields;
    requested_at = body.requested_at;
  }

  -- The two insertions; the foreign key that may fail is that of the acting user.
  unfoldable pub ingest_event : ℕ → EventIngest J → Db J → Result HttpError (EventOut J × Db J)
  unfolding agent_of tool_id_of
  ingest_event new_id body db =
      let asked = body.action_request in
      elim (find (λ s. s.id == asked.session_id) db.sessions) [
        | none ↦ err (record { status = 404; code = "session not found" })
        | some s ↦
            let r = new_request new_id (tool_id_of (agent_of s db) asked.tool_name db) asked in
            let e = decision_event new_id body.event in
            if has_user asked.acting_user_id db
            then ok (
              event_out r e,
              record db {
                action_requests = db.action_requests ++ (r ∷ []);
                events = db.events ++ (e ∷ []);
              },
            )
            else err (record { status = 500; code = "IntegrityError" })
      ]
