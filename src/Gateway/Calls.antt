-- ===== src/Gateway/Calls.antt =====
-- apps/gateway: what a submission reads, and the calls that it makes of the world around it.
use phulax.Prelude.{ℕ, ◌+◌, String, Bool, Option, List, [], ◌∷◌, Result}
use phulax.Value.{ℤ, Fields}
use phulax.Policy.Rules.{Effect, Bundle}
use phulax.ControlPlane.Db.{ExecutionState}
use phulax.ControlPlane.Executions.{ExecutionClaim, ExecutionClaimOut}
use phulax.ControlPlane.Approvals.{ApprovalResolve, ApprovalResolveOut}

-- envelope.ActionEnvelope, without the two fields that only travel along.
pub record ActionEnvelope (F : Type 0) : Type 0 where
  pub request_id : ℕ
  pub trace_id : Option ℕ
  pub idempotency_key : Option String
  pub agent_id : ℕ
  pub agent_version : String
  pub session_id : ℕ
  pub acting_user_id : Option ℕ
  pub environment : String
  pub tool_name : String
  pub arguments : Fields F

-- tokens.Claims
pub record Claims : Type 0 where
  pub agent_id : ℕ
  pub org_id : ℕ
  pub agent_version_id : ℕ
  pub version : String
  pub session_id : ℕ
  pub environment : String

-- What the gateway reads of a tool of the registry; `sensitive_fields` is `[]` where it is missing.
pub record RegisteredTool : Type 0 where
  pub side_effect : Option String
  pub sensitivity : Option String
  pub sensitive_fields : List String

-- The event of `_record`, without the time that it took.
pub record DecisionEvent : Type 0 where
  pub request_id : ℕ
  pub trace_id : ℕ
  pub idempotency_key : Option String
  pub session_id : ℕ
  pub tool_name : String
  pub environment : String
  pub acting_user_id : Option ℕ
  pub canonical_hash : String
  pub args_meta : List (String × String)
  pub redacted_fields : List String
  pub verdict : Effect
  pub rule : String
  pub reason_codes : List String
  pub matched_rules : List String
  pub risk_score : Option ℕ
  pub policy_version : Option ℤ

-- ControlPlaneError, and the ExecutionConflict among them.
pub data Failure : Type 0 where
  control_plane_error execution_conflict : Failure

-- A call with an effect, and how it went.
pub data Call (F : Type 0) : Type 0 where
  posted : DecisionEvent → Bool → Call F
  resolved : ApprovalResolve (Fields F) → Result Failure (ApprovalResolveOut (Fields F)) → Call F
  claimed : ExecutionClaim → Result Failure (ExecutionClaimOut String) → Call F
  executed : String → Fields F → Call F
  completed : ℕ → ExecutionState → Option String → Call F

-- The world, whose answer to each call may depend on all that was called before (the newest first).
-- `draw` is a uuid, `hash` is `canonical_hash` and `hash_result` the hash of a result, where `none`
-- is a value that has no canonical form; `show_id` and `show_version` are `str`. `validates` is the
-- JSON schema check of the arguments against the tool.
pub record World (F : Type 0) : Type 0 where
  pub draw : ℕ
  pub hash : String → String → Fields F → Option String
  pub hash_result : Fields F → Option String
  pub show_id : ℕ → String
  pub show_version : ℤ → String
  pub validates : RegisteredTool → Fields F → Bool
  pub get_agent : ℕ → Result Failure (Option Bool)
  pub get_tool : ℕ → String → Result Failure (Option RegisteredTool)
  pub get_bundle : ℕ → Option (Bundle F)
  pub post_event : List (Call F) → DecisionEvent → Bool
  pub resolve_approval :
      List (Call F) → ApprovalResolve (Fields F) → Result Failure (ApprovalResolveOut (Fields F))
  pub claim_execution : List (Call F) → ExecutionClaim → Result Failure (ExecutionClaimOut String)
  pub execute : List (Call F) → String → Fields F → Option (Fields F)

module _ {F : Type 0} where
  -- How often a tool was executed.
  unfoldable pub executions : List (Call F) → ℕ
  executions [] = 0
  executions (executed tool_name arguments ∷ calls) = 1 + executions calls
  executions (c ∷ calls) = executions calls
