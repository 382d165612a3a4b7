-- ===== src/ControlPlane/Db.antt =====
-- apps/api/src/phulax_api/models.py: the rows of the tables, without the time of their
-- creation, which their order stands for. A uuid, a
-- time in seconds and an id are numbers; `J` is the type of the JSON columns.
use phulax.Policy.Rules.{Effect}
use phulax.Prelude.{ℕ, String, Bool, true, false, Option, none, some, List, [], any, ◌==◌}

-- EXECUTION_STATES
pub data ExecutionState : Type 0 where
  authorized executing succeeded failed : ExecutionState

-- APPROVAL_STATES
pub data ApprovalState : Type 0 where
  pending approved rejected expired consumed voided : ApprovalState

abbrev pub same_execution_state : ExecutionState → ExecutionState → Bool
same_execution_state authorized authorized = true
same_execution_state executing executing = true
same_execution_state succeeded succeeded = true
same_execution_state failed failed = true
same_execution_state _ _ = false

abbrev pub same_state : ApprovalState → ApprovalState → Bool
same_state pending pending = true
same_state approved approved = true
same_state rejected rejected = true
same_state expired expired = true
same_state consumed consumed = true
same_state voided voided = true
same_state _ _ = false

-- SENSITIVITIES
pub data Sensitivity : Type 0 where
  low medium high : Sensitivity

-- SIDE_EFFECTS
pub data SideEffect : Type 0 where
  read write irreversible : SideEffect

pub record Organization : Type 0 where
  pub id : ℕ
  pub name : String

pub record User : Type 0 where
  pub id : ℕ
  pub org_id : ℕ
  pub email : String
  pub name : String
  pub role : Option String

pub record Agent : Type 0 where
  pub id : ℕ
  pub org_id : ℕ
  pub name : String
  pub owner_user_id : ℕ
  pub revoked_at : Option ℕ

pub record AgentVersion (J : Type 0) : Type 0 where
  pub id : ℕ
  pub agent_id : ℕ
  pub version : String
  pub manifest : J
  pub manifest_hash : String

pub record Tool (J : Type 0) : Type 0 where
  pub id : ℕ
  pub org_id : ℕ
  pub name : String
  pub description : String
  pub args_schema : J
  pub sensitivity : Sensitivity
  pub side_effect : SideEffect
  pub sensitive_fields : List String

pub record AgentSession : Type 0 where
  pub id : ℕ
  pub agent_version_id : ℕ
  pub environment : String
  pub started_at : ℕ

-- `action_requests`, where `content_mode` is always "metadata_only".
pub record ActionRequest (J : Type 0) : Type 0 where
  pub id : ℕ
  pub request_id : ℕ
  pub trace_id : Option ℕ
  pub idempotency_key : Option String
  pub session_id : ℕ
  pub tool_id : Option ℕ
  pub tool_name : String
  pub environment : String
  pub acting_user_id : Option ℕ
  pub canonical_hash : String
  pub args_meta : J
  pub redacted_fields : List String
  pub requested_at : ℕ

pub record PolicyBundle (J : Type 0) : Type 0 where
  pub id : ℕ
  pub org_id : ℕ
  pub version : ℕ
  pub rules : J
  pub signature : String

pub record Execution (J : Type 0) : Type 0 where
  pub id : ℕ
  pub org_id : ℕ
  pub idempotency_key : String
  pub request_id : ℕ
  pub canonical_hash : String
  pub state : ExecutionState
  pub result_meta : Option J

pub record Approval (J : Type 0) : Type 0 where
  pub id : ℕ
  pub org_id : ℕ
  pub action_request_id : ℕ
  pub request_id : ℕ
  pub trace_id : Option ℕ
  pub session_id : ℕ
  pub canonical_hash : String
  pub tool_name : String
  pub environment : String
  pub agent_version : String
  pub policy_version : String
  pub approver_role : String
  pub requester_user_id : Option ℕ
  pub args_preview : J
  pub redacted_fields : List String
  pub reason_codes : List String
  pub matched_rules : List String
  pub risk_score : Option ℕ
  pub state : ApprovalState
  pub expires_at : ℕ
  pub decided_by : Option ℕ
  pub decided_at : Option ℕ
  pub consumed_at : Option ℕ

-- schemas.DecisionIn: what a decision event says.
pub record DecisionIn : Type 0 where
  pub verdict : Effect
  pub rule : String
  pub reason_codes : List String
  pub matched_rules : List String
  pub risk_score : Option ℕ
  pub policy_version : Option String
  pub latency_ms : Option ℕ

-- An event: the request that it belongs to, then what the decision says, or the `rule` and the
-- `detail` of a step in a life cycle.
pub data Event (J : Type 0) : Type 0 where
  decision_event : ℕ → DecisionIn → Event J
  execution_event : ℕ → String → ℕ → ExecutionState → Option J → Event J
  approval_event : ℕ → String → ℕ → ApprovalState → Option ℕ → Event J

-- The tables, in the state that one database transaction sees.
pub record Db (J : Type 0) : Type 0 where
  pub organizations : List Organization
  pub users : List User
  pub agents : List Agent
  pub agent_versions : List (AgentVersion J)
  pub tools : List (Tool J)
  pub sessions : List AgentSession
  pub policy_bundles : List (PolicyBundle J)
  pub action_requests : List (ActionRequest J)
  pub events : List (Event J)
  pub executions : List (Execution J)
  pub approvals : List (Approval J)

-- The tables before the first request.
abbrev pub empty_db : {J : Type 0} → Db J
empty_db = record {
  organizations = [];
  users = [];
  agents = [];
  agent_versions = [];
  tools = [];
  sessions = [];
  policy_bundles = [];
  action_requests = [];
  events = [];
  executions = [];
  approvals = [];
}

-- What a foreign key asks for.
module _ {J : Type 0} where
  abbrev pub has_organization : ℕ → Db J → Bool
  has_organization id db = any (λ o. o.id == id) db.organizations

  abbrev pub has_session : ℕ → Db J → Bool
  has_session id db = any (λ s. s.id == id) db.sessions

  -- A key that may be NULL.
  abbrev pub has_user : Option ℕ → Db J → Bool
  has_user none db = true
  has_user (some id) db = any (λ u. u.id == id) db.users

-- An `HTTPException`: its status, and its `code` or `detail`. A request that raises is rolled back
-- (apps/api/src/phulax_api/db.py), so it returns no database.
pub record HttpError : Type 0 where
  pub status : ℕ
  pub code : String
