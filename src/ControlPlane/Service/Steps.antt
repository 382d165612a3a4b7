-- ===== src/ControlPlane/Service/Steps.antt =====
-- The abstract control plane: what one request may do to the tables. Rows are added under the
-- keys that they refer to; but for revocations, executions and approvals, none changes.
use phulax.Prelude.{ℕ, ◌+◌, Bool, true, false, none, some, List, [], ◌∷◌, ◌++◌, ◌≡◌, All, any, ◌==◌}
use phulax.ControlPlane.Tables.{find, update_where}
use phulax.ControlPlane.Db.{
  Organization, User, Agent, AgentVersion, Tool, AgentSession, ActionRequest, PolicyBundle,
  Execution, Approval, Event, Db, has_organization, has_user, has_session,
}
use phulax.ControlPlane.Registry.Orgs.{is_named, has_email}
use phulax.ControlPlane.Registry.Agents.{has_name, is_agent, is_version, revoked}
use phulax.ControlPlane.Registry.Tools.{is_tool}
use phulax.ControlPlane.Registry.Sessions.{names_revoked}
use phulax.ControlPlane.Policies.{max_version}
use phulax.ControlPlane.Events.{request_of}
use phulax.ControlPlane.Events.Timeline.{refers}

module _ {J : Type 0} where
  -- The foreign key of `approvals`.
  abbrev pub has_request : List (ActionRequest J) → Approval J → Bool
  has_request requests a = any (λ r. r.id == a.action_request_id) requests

  pub data IsStep (db : Db J) : Db J → Type 0 where
    unchanged : IsStep db db
    organization_added :
        (o : Organization)
        → find (is_named o.name) db.organizations ≡ none
        → IsStep db (record db { organizations = db.organizations ++ (o ∷ []) })
    user_added :
        (u : User)
        → has_organization u.org_id db ≡ true
        → find (has_email u.org_id u.email) db.users ≡ none
        → IsStep db (record db { users = db.users ++ (u ∷ []) })
    agent_registered :
        (a : Agent) (v : AgentVersion J)
        → has_organization a.org_id db ≡ true
        → has_user (some a.owner_user_id) db ≡ true
        → find (has_name a.org_id a.name) db.agents ≡ none
        → a.revoked_at ≡ none
        → v.agent_id ≡ a.id
        → IsStep db (record db {
          agents = db.agents ++ (a ∷ []);
          agent_versions = db.agent_versions ++ (v ∷ []);
        })
    version_added :
        (a : Agent) (v : AgentVersion J)
        → find (is_agent v.agent_id) db.agents ≡ some a
        → find (is_version v.agent_id v.version) db.agent_versions ≡ none
        → IsStep db (record db { agent_versions = db.agent_versions ++ (v ∷ []) })
    agent_revoked :
        (now id : ℕ) (a : Agent)
        → find (is_agent id) db.agents ≡ some a
        → a.revoked_at ≡ none
        → IsStep db (record db { agents = update_where (is_agent id) (revoked now) db.agents })
    tool_added :
        (t : Tool J)
        → has_organization t.org_id db ≡ true
        → find (is_tool t.org_id t.name) db.tools ≡ none
        → IsStep db (record db { tools = db.tools ++ (t ∷ []) })
    session_started :
        (s : AgentSession) (v : AgentVersion J)
        → find (λ (x : AgentVersion J). x.id == s.agent_version_id) db.agent_versions ≡ some v
        → names_revoked (find (is_agent v.agent_id) db.agents) ≡ false
        → IsStep db (record db { sessions = db.sessions ++ (s ∷ []) })
    bundle_published :
        (b : PolicyBundle J)
        → has_organization b.org_id db ≡ true
        → b.version ≡ max_version b.org_id db.policy_bundles + 1
        → IsStep db (record db { policy_bundles = db.policy_bundles ++ (b ∷ []) })
    evidence_recorded :
        (r : ActionRequest J) (e : Event J)
        → has_session r.session_id db ≡ true
        → has_user r.acting_user_id db ≡ true
        → request_of e ≡ r.id
        → IsStep db (record db {
          action_requests = db.action_requests ++ (r ∷ []);
          events = db.events ++ (e ∷ []);
        })
    executions_changed :
        (rows : List (Execution J)) (new : List (Event J))
        → All (λ e. refers db.action_requests e ≡ true) new
        → IsStep db (record db { executions = rows; events = db.events ++ new })
    approvals_changed :
        (rows : List (Approval J)) (new : List (Event J))
        → (All (λ a. has_request db.action_requests a ≡ true) db.approvals
            → All (λ a. has_request db.action_requests a ≡ true) rows
              × All (λ e. refers db.action_requests e ≡ true) new)
        → IsStep db (record db { approvals = rows; events = db.events ++ new })
