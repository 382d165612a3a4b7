-- ===== src/ControlPlane/Service/Commands.antt =====
-- What each request to a route that writes does to the tables of the registry.
use phulax.Prelude.{◌≡◌}
use phulax.Value.{Value}
use phulax.Policy.Schema.Conditions.{CharOps}
use phulax.ControlPlane.Db.{Db}
use phulax.ControlPlane.Service.{Request}
use phulax.ControlPlane.Registry.Orgs.{is_named, has_email, new_user}
use phulax.ControlPlane.Registry.Agents.{
  has_name, is_agent, is_version, new_agent, new_version, revoked,
}
use phulax.ControlPlane.Registry.Tools.{is_tool, new_tool}
use phulax.ControlPlane.Registry.Sessions.{new_session}
use phulax.ControlPlane.Db.{has_organization, has_user, Db}
use phulax.ControlPlane.Tables.{find, update_where}
use phulax.Prelude.{◌++◌, true, none, some, [], ◌∷◌}
use phulax.ControlPlane.Service.{
  Environment, Request, post_organization, post_user, post_agent, post_version, post_revoke,
  post_tool, post_session, post_bundle, post_event, post_claim, post_complete, post_resolve,
  post_decision, post_form, handle,
}
use phulax.ControlPlane.Service.Frames.{
  ingest_event-IsFramed, claim_execution-IsFramed, complete_execution-IsFramed,
  resolve_approval-IsFramed, decide_approval-IsFramed, approval_decide-IsFramed,
  publish_bundle-IsFramed,
}
use phulax.ControlPlane.Service.Guarded.{
  Guarded, IsActive, IsOpen, create_organization-Guarded, create_user-Guarded,
  register_agent-Guarded, add_version-Guarded, revoke_agent-Guarded, register_tool-Guarded,
  create_session-Guarded,
}

module _ {F : Type 0} (env : Environment (Value F)) where
  -- What a request does to the tables of the registry, exactly; and the tables that the others may
  -- change.
  unfoldable pub IsCommand : Request (Value F) → Db (Value F) → Db (Value F) → Type 0
  IsCommand (post_organization new_id name) db db' =
      Guarded (find (is_named name) db.organizations ≡ none) db db' (record db {
        organizations = db.organizations ++ (record { id = new_id; name = name } ∷ []);
      })
  IsCommand (post_user new_id body) db db' =
      Guarded
        ((has_organization body.org_id db ≡ true)
          × (find (has_email body.org_id body.email) db.users ≡ none))
        db db' (record db { users = db.users ++ (new_user new_id body ∷ []) })
  IsCommand (post_agent agent_id version_id body) db db' =
      Guarded
        ((has_organization body.org_id db ≡ true)
          × (has_user (some body.owner_user_id) db ≡ true)
          × (find (has_name body.org_id body.name) db.agents ≡ none))
        db db'
        (record db {
          agents = db.agents ++ (new_agent env.hash_manifest agent_id body ∷ []);
          agent_versions =
              db.agent_versions
              ++ (new_version env.hash_manifest version_id agent_id body.version body.manifest
                  ∷ []);
        })
  IsCommand (post_version new_id agent_id body) db db' =
      Guarded
        ((¬ (find (is_agent agent_id) db.agents ≡ none))
          × (find (is_version agent_id body.version) db.agent_versions ≡ none))
        db db'
        (record db {
          agent_versions =
              db.agent_versions
              ++ (new_version env.hash_manifest new_id agent_id body.version body.manifest ∷ []);
        })
  IsCommand (post_revoke now agent_id) db db' =
      Guarded (IsActive agent_id db) db db'
        (record db { agents = update_where (is_agent agent_id) (revoked now) db.agents })
  IsCommand (post_tool new_id body) db db' =
      Guarded
        ((has_organization body.org_id db ≡ true)
          × (env.is_schema body.args_schema ≡ true)
          × (find (is_tool body.org_id body.name) db.tools ≡ none))
        db db' (record db { tools = db.tools ++ (new_tool new_id body ∷ []) })
  IsCommand (post_session now new_id version_id environment) db db' =
      Guarded (IsOpen version_id db) db db' (record db {
        sessions = db.sessions ++ (new_session now new_id version_id environment ∷ []);
      })
  IsCommand (post_bundle new_id body) db db' =
      db' ≡ record db { policy_bundles = db'.policy_bundles }
  IsCommand (post_event new_id body) db db' =
      db' ≡ record db { action_requests = db'.action_requests; events = db'.events }
  IsCommand (post_claim new_id body) db db' = db' ≡ record db { executions = db'.executions }
  IsCommand (post_complete id body) db db' =
      db' ≡ record db { executions = db'.executions; events = db'.events }
  IsCommand r db db' = db' ≡ record db { approvals = db'.approvals; events = db'.events }

module _ {F : Type 0} ⦃chars : CharOps⦄ (env : Environment (Value F)) where
  pub handle-IsCommand :
      (r : Request (Value F)) (db : Db (Value F)) → IsCommand env r db (handle env r db)
  unfolding IsCommand handle
  handle-IsCommand (post_organization new_id name) db = create_organization-Guarded new_id name db
  handle-IsCommand (post_user new_id body) db = create_user-Guarded new_id body db
  handle-IsCommand (post_agent agent_id version_id body) db =
      register_agent-Guarded env.hash_manifest agent_id version_id body db
  handle-IsCommand (post_version new_id agent_id body) db =
      add_version-Guarded env.hash_manifest new_id agent_id body db
  handle-IsCommand (post_revoke now agent_id) db = revoke_agent-Guarded now agent_id db
  handle-IsCommand (post_tool new_id body) db = register_tool-Guarded env.is_schema new_id body db
  handle-IsCommand (post_session now new_id version_id environment) db =
      create_session-Guarded now new_id version_id environment db
  handle-IsCommand (post_bundle new_id body) db =
      publish_bundle-IsFramed env.load_yaml env.policy_signing_key env.sign new_id body db
  handle-IsCommand (post_event new_id body) db = ingest_event-IsFramed new_id body db
  handle-IsCommand (post_claim new_id body) db = claim_execution-IsFramed new_id body db
  handle-IsCommand (post_complete id body) db = complete_execution-IsFramed id body db
  handle-IsCommand (post_resolve now new_id body) db =
      resolve_approval-IsFramed now env.approval_ttl_seconds new_id body db
  handle-IsCommand (post_decision now id user_id approve) db =
      decide_approval-IsFramed now id user_id approve db
  handle-IsCommand (post_form now id user_id action) db =
      approval_decide-IsFramed now id user_id action db
