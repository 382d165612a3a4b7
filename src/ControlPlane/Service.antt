-- ===== src/ControlPlane/Service.antt =====
-- apps/api/src/phulax_api/main.py: the routes of the control plane that write to its tables, each
-- in one transaction (apps/api/src/phulax_api/db.py).
pub mod Steps
pub mod Registered
pub mod Recorded
pub mod Changes
pub mod Approved
pub mod Refinement
pub mod Moves
pub mod Moved
pub mod Kept
pub mod Frames
pub mod Guarded
pub mod Commands
pub mod Executed
pub mod Transitions
pub mod Evidence
pub mod Links
pub mod Versions
pub mod Keys
pub mod Revocation
use phulax.Prelude.{ℕ, String, Bool, Option, List, [], ◌∷◌}
use phulax.Value.{Value}
use phulax.Policy.Schema.Conditions.{CharOps}
use phulax.ControlPlane.Db.{Db}
use phulax.ControlPlane.Registry.Orgs.{UserCreate, create_organization, create_user}
use phulax.ControlPlane.Registry.Agents.{
  AgentRegister, VersionCreate, register_agent, add_version, revoke_agent,
}
use phulax.ControlPlane.Registry.Tools.{ToolCreate, register_tool}
use phulax.ControlPlane.Registry.Sessions.{create_session}
use phulax.ControlPlane.Policies.{BundlePublish, publish_bundle}
use phulax.ControlPlane.Events.{EventIngest, ingest_event}
use phulax.ControlPlane.Executions.{
  ExecutionClaim, ExecutionComplete, claim_execution, complete_execution,
}
use phulax.ControlPlane.Approvals.{ApprovalResolve, resolve_approval, decide_approval}
use phulax.ControlPlane.Review.{approval_decide}
use phulax.ControlPlane.Approvals.History.{committed}

-- The code that the routes call and that is not of the program, and the settings.
pub record Environment (J : Type 0) : Type 0 where
  pub hash_manifest : J → String
  pub is_schema : J → Bool
  pub load_yaml : String → Option J
  pub sign : String → ℕ → J → String
  pub policy_signing_key : String
  pub approval_ttl_seconds : ℕ

-- A request to a route that writes, with the time and the uuids that it draws where it uses them.
pub data Request (J : Type 0) : Type 0 where
  post_organization : ℕ → String → Request J
  post_user : ℕ → UserCreate → Request J
  post_agent : ℕ → ℕ → AgentRegister J → Request J
  post_version : ℕ → ℕ → VersionCreate J → Request J
  post_revoke : ℕ → ℕ → Request J
  post_tool : ℕ → ToolCreate J → Request J
  post_session : ℕ → ℕ → ℕ → String → Request J
  post_bundle : ℕ → BundlePublish → Request J
  post_event : ℕ → EventIngest J → Request J
  post_claim : ℕ → ExecutionClaim → Request J
  post_complete : ℕ → ExecutionComplete J → Request J
  post_resolve : ℕ → ℕ → ApprovalResolve J → Request J
  post_decision : ℕ → ℕ → ℕ → Bool → Request J
  post_form : ℕ → ℕ → ℕ → String → Request J

module _ {F : Type 0} ⦃chars : CharOps⦄ (env : Environment (Value F)) where
  -- The tables after a request.
  unfoldable pub handle : Request (Value F) → Db (Value F) → Db (Value F)
  handle (post_organization new_id name) db = committed db (create_organization new_id name db)
  handle (post_user new_id body) db = committed db (create_user new_id body db)
  handle (post_agent agent_id version_id body) db =
      committed db (register_agent env.hash_manifest agent_id version_id body db)
  handle (post_version new_id agent_id body) db =
      committed db (add_version env.hash_manifest new_id agent_id body db)
  handle (post_revoke now agent_id) db = committed db (revoke_agent now agent_id db)
  handle (post_tool new_id body) db = committed db (register_tool env.is_schema new_id body db)
  handle (post_session now new_id agent_version_id environment) db =
      committed db (create_session now new_id agent_version_id environment db)
  handle (post_bundle new_id body) db =
      committed db (publish_bundle env.load_yaml env.policy_signing_key env.sign new_id body db)
  handle (post_event new_id body) db = committed db (ingest_event new_id body db)
  handle (post_claim new_id body) db = committed db (claim_execution new_id body db)
  handle (post_complete id body) db = committed db (complete_execution id body db)
  handle (post_resolve now new_id body) db =
      committed db (resolve_approval now env.approval_ttl_seconds new_id body db)
  handle (post_decision now approval_id user_id approve) db =
      committed db (decide_approval now approval_id user_id approve db)
  handle (post_form now approval_id user_id action) db =
      (approval_decide now approval_id user_id action db).1

  unfoldable pub handle_all : List (Request (Value F)) → Db (Value F) → Db (Value F)
  handle_all [] db = db
  handle_all (r ∷ requests) db = handle_all requests (handle r db)
