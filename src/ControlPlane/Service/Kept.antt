-- ===== src/ControlPlane/Service/Kept.antt =====
-- What a route leaves as it was: the approvals, the executions, or both.
use mathlib.Core.Path.{subst}
use phulax.Prelude.{ℕ, String, Bool, Option, List, ◌≡◌, sym, arith, str_eq}
use phulax.Value.{Value}
use phulax.Policy.Schema.Conditions.{CharOps}
use phulax.ControlPlane.Db.{Execution, Approval, Db}
use phulax.ControlPlane.Executions.{
  ExecutionClaim, ExecutionComplete, claim_execution, complete_execution, record_execution_event,
  claim_row,
}
use phulax.ControlPlane.Approvals.{
  resolve_approval, decide_approval, resolve_open, create_pending, existing_pending,
  void_and_expire, decide_row, ApprovalResolve,
}
use phulax.ControlPlane.Approvals.History.{committed}
use phulax.ControlPlane.Review.{approval_decide}
use phulax.ControlPlane.Registry.Orgs.{UserCreate, create_organization, create_user}
use phulax.ControlPlane.Registry.Agents.{
  AgentRegister, VersionCreate, register_agent, add_version, revoke_agent,
}
use phulax.ControlPlane.Registry.Tools.{ToolCreate, register_tool}
use phulax.ControlPlane.Registry.Sessions.{create_session}
use phulax.ControlPlane.Policies.{BundlePublish, publish_bundle, insert_bundle}
use phulax.ControlPlane.Events.{EventIngest, ingest_event}
use phulax.ControlPlane.Service.{Request}
use phulax.ControlPlane.Service.Moves.{IsApprovalMove, IsExecutionMove, ApprovalRows, ExecutionRows}
use phulax.ControlPlane.Service.Moved.{Rows-refl}

module _ {J : Type 0} where
  -- Neither table is changed.
  abbrev pub Keeps : Db J → Db J → Type 0
  Keeps db db' = (db'.approvals ≡ db.approvals) × (db'.executions ≡ db.executions)

  pub Keeps-approvals :
      (ttl : ℕ) (r : Request J) (db : Db J) (rows : List (Approval J))
      → rows ≡ db.approvals
      → ApprovalRows ttl db r rows
  Keeps-approvals ttl r db rows e =
      subst (ApprovalRows ttl db r) (sym e) (Rows-refl _ _ IsApprovalMove.same db.approvals)

  pub Keeps-executions :
      (r : Request J) (db : Db J) (rows : List (Execution J))
      → rows ≡ db.executions
      → ExecutionRows db r rows
  Keeps-executions r db rows e =
      subst (ExecutionRows db r) (sym e) (Rows-refl _ _ IsExecutionMove.same db.executions)

  pub claim-Keeps_approvals :
      (new_id : ℕ) (body : ExecutionClaim) (db : Db J)
      → (committed db (claim_execution new_id body db)).approvals ≡ db.approvals
  unfolding claim_execution claim_row
  claim-Keeps_approvals new_id body db = ground arith

  pub complete-Keeps_approvals :
      (id : ℕ) (body : ExecutionComplete J) (db : Db J)
      → (committed db (complete_execution id body db)).approvals ≡ db.approvals
  unfolding complete_execution record_execution_event
  complete-Keeps_approvals id body db = ground arith

  pub resolve-Keeps_executions :
      (now ttl new_id : ℕ) (body : ApprovalResolve J) (db : Db J)
      → (committed db (resolve_approval now ttl new_id body db)).executions ≡ db.executions
  unfolding resolve_approval resolve_open create_pending existing_pending void_and_expire
  resolve-Keeps_executions now ttl new_id body db = ground arith

  pub decide-Keeps_executions :
      (now id user_id : ℕ) (approve : Bool) (db : Db J)
      → (committed db (decide_approval now id user_id approve db)).executions ≡ db.executions
  unfolding decide_approval decide_row
  decide-Keeps_executions now id user_id approve db = ground arith

  pub form-Keeps_executions :
      (now id user_id : ℕ) (action : String) (db : Db J)
      → (approval_decide now id user_id action db).1.executions ≡ db.executions
  unfolding approval_decide
  form-Keeps_executions now id user_id action db =
      ground (arith, decide-Keeps_executions now id user_id (str_eq action "approve") db)

  pub create_organization-Keeps :
      (new_id : ℕ) (name : String) (db : Db J)
      → Keeps db (committed db (create_organization new_id name db))
  unfolding create_organization
  create_organization-Keeps new_id name db = ground arith

  pub create_user-Keeps :
      (new_id : ℕ) (body : UserCreate) (db : Db J)
      → Keeps db (committed db (create_user new_id body db))
  unfolding create_user
  create_user-Keeps new_id body db = ground arith

  pub register_agent-Keeps :
      (hash : J → String) (agent_id version_id : ℕ) (body : AgentRegister J) (db : Db J)
      → Keeps db (committed db (register_agent hash agent_id version_id body db))
  unfolding register_agent
  register_agent-Keeps hash agent_id version_id body db = ground arith

  pub add_version-Keeps :
      (hash : J → String) (new_id agent_id : ℕ) (body : VersionCreate J) (db : Db J)
      → Keeps db (committed db (add_version hash new_id agent_id body db))
  unfolding add_version
  add_version-Keeps hash new_id agent_id body db = ground arith

  pub revoke_agent-Keeps :
      (now agent_id : ℕ) (db : Db J) → Keeps db (committed db (revoke_agent now agent_id db))
  unfolding revoke_agent
  revoke_agent-Keeps now agent_id db = ground arith

  pub register_tool-Keeps :
      (is_schema : J → Bool) (new_id : ℕ) (body : ToolCreate J) (db : Db J)
      → Keeps db (committed db (register_tool is_schema new_id body db))
  unfolding register_tool
  register_tool-Keeps is_schema new_id body db = ground arith

  pub create_session-Keeps :
      (now new_id version_id : ℕ) (environment : String) (db : Db J)
      → Keeps db (committed db (create_session now new_id version_id environment db))
  unfolding create_session
  create_session-Keeps now new_id version_id environment db = ground arith

  pub ingest_event-Keeps :
      (new_id : ℕ) (body : EventIngest J) (db : Db J)
      → Keeps db (committed db (ingest_event new_id body db))
  unfolding ingest_event
  ingest_event-Keeps new_id body db = ground arith

module _ {F : Type 0} ⦃chars : CharOps⦄ where
  pub publish_bundle-Keeps :
      (load_yaml : String → Option (Value F)) (key : String) (sign : String → ℕ → Value F → String)
      (new_id : ℕ) (body : BundlePublish) (db : Db (Value F))
      → Keeps db (committed db (publish_bundle load_yaml key sign new_id body db))
  unfolding publish_bundle insert_bundle
  publish_bundle-Keeps load_yaml key sign new_id body db = ground arith
