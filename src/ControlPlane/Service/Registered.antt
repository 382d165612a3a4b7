-- ===== src/ControlPlane/Service/Registered.antt =====
-- The routes of organizations, users, agents, tools, sessions and bundles take steps.
use mathlib.Core.Path.{subst}
use phulax.Prelude.{
  ℕ, ◌+◌, String, Bool, Option, none, some, ◌≡◌, refl, inl, inr, arith, ◌==◌, ok, Option-cases,
  Bool-cases, Result-cases,
}
use phulax.Value.{Value}
use phulax.Policy.Schema.Conditions.{CharOps}
use phulax.ControlPlane.Tables.{find}
use phulax.ControlPlane.Db.{
  Organization, User, AgentVersion, Tool, AgentSession, PolicyBundle, Db, has_organization,
  has_user,
}
use phulax.ControlPlane.Registry.Orgs.{
  UserCreate, is_named, has_email, new_user, create_organization, create_user,
}
use phulax.ControlPlane.Registry.Agents.{
  AgentRegister, VersionCreate, AgentOut, has_name, is_agent, is_version, new_agent, new_version,
  register_agent, add_version, revoke_agent,
}
use phulax.ControlPlane.Registry.Tools.{ToolCreate, is_tool, new_tool, register_tool}
use phulax.ControlPlane.Registry.Sessions.{names_revoked, new_session, create_session}
use phulax.ControlPlane.Policies.{
  BundlePublish, max_version, load_rules_document, new_bundle, insert_bundle, publish_bundle,
}
use phulax.ControlPlane.Service.Steps.{
  IsStep, unchanged, organization_added, user_added, agent_registered, version_added, agent_revoked,
  tool_added, session_started, bundle_published,
}

module _ {J : Type 0} where
  pub create_organization-IsStep :
      (new_id : ℕ) (name : String) (out : Organization) (db db' : Db J)
      → create_organization new_id name db ≡ ok (out, db')
      → IsStep db db'
  unfolding create_organization
  create_organization-IsStep new_id name out db db' h =
      elim (Option-cases (find (is_named name) db.organizations)) [
        | inr (o, e) ↦ absurd (ground arith)
        | inl e ↦
            subst (IsStep db) (ground arith)
              (organization_added (record { id = new_id; name = name }) e)
      ]

  pub create_user-IsStep :
      (new_id : ℕ) (body : UserCreate) (out : User) (db db' : Db J)
      → create_user new_id body db ≡ ok (out, db')
      → IsStep db db'
  unfolding create_user
  create_user-IsStep new_id body out db db' h =
      elim (Bool-cases (has_organization body.org_id db)) [
        | inr n ↦ absurd (ground arith)
        | inl y ↦ elim (Option-cases (find (has_email body.org_id body.email) db.users)) [
          | inr (u, e) ↦ absurd (ground arith)
          | inl e ↦ subst (IsStep db) (ground arith) (user_added (new_user new_id body) y e)
        ]
      ]

  pub register_agent-IsStep :
      (hash_manifest : J → String) (agent_id version_id : ℕ) (body : AgentRegister J)
      (out : AgentOut J) (db db' : Db J)
      → register_agent hash_manifest agent_id version_id body db ≡ ok (out, db')
      → IsStep db db'
  unfolding register_agent
  register_agent-IsStep hash_manifest agent_id version_id body out db db' h =
      elim (Bool-cases (has_organization body.org_id db)) [
        | inr n ↦ absurd (ground arith)
        | inl y ↦ elim (Bool-cases (has_user (some body.owner_user_id) db)) [
          | inr n ↦ absurd (ground arith)
          | inl z ↦ elim (Option-cases (find (has_name body.org_id body.name) db.agents)) [
            | inr (a, e) ↦ absurd (ground arith)
            | inl e ↦ subst (IsStep db) (ground arith) (
                agent_registered (new_agent hash_manifest agent_id body)
                  (new_version hash_manifest version_id agent_id body.version body.manifest) y z e
                  refl refl)
          ]
        ]
      ]

  pub add_version-IsStep :
      (hash_manifest : J → String) (new_id agent_id : ℕ) (body : VersionCreate J)
      (out : AgentVersion J) (db db' : Db J)
      → add_version hash_manifest new_id agent_id body db ≡ ok (out, db')
      → IsStep db db'
  unfolding add_version
  add_version-IsStep hash_manifest new_id agent_id body out db db' h =
      elim (Option-cases (find (is_agent agent_id) db.agents)) [
        | inl e ↦ absurd (ground arith)
        | inr (a, e) ↦
            elim (Option-cases (find (is_version agent_id body.version) db.agent_versions)) [
              | inr (v, e') ↦ absurd (ground arith)
              | inl e' ↦ subst (IsStep db) (ground arith) (
                  version_added a
                    (new_version hash_manifest new_id agent_id body.version body.manifest) e e')
            ]
      ]

  pub revoke_agent-IsStep :
      (now agent_id : ℕ) (out : AgentOut J) (db db' : Db J)
      → revoke_agent now agent_id db ≡ ok (out, db')
      → IsStep db db'
  unfolding revoke_agent
  revoke_agent-IsStep now agent_id out db db' h =
      elim (Option-cases (find (is_agent agent_id) db.agents)) [
        | inl e ↦ absurd (ground arith)
        | inr (a, e) ↦ elim (Option-cases a.revoked_at) [
          | inr (t, e') ↦ subst (IsStep db) (ground arith) unchanged
          | inl e' ↦ subst (IsStep db) (ground arith) (agent_revoked now agent_id a e e')
        ]
      ]

  pub register_tool-IsStep :
      (is_schema : J → Bool) (new_id : ℕ) (body : ToolCreate J) (out : Tool J) (db db' : Db J)
      → register_tool is_schema new_id body db ≡ ok (out, db')
      → IsStep db db'
  unfolding register_tool
  register_tool-IsStep is_schema new_id body out db db' h =
      elim (Bool-cases (has_organization body.org_id db)) [
        | inr n ↦ absurd (ground arith)
        | inl y ↦ elim (Bool-cases (is_schema body.args_schema)) [
          | inr n ↦ absurd (ground arith)
          | inl z ↦ elim (Option-cases (find (is_tool body.org_id body.name) db.tools)) [
            | inr (t, e) ↦ absurd (ground arith)
            | inl e ↦ subst (IsStep db) (ground arith) (tool_added (new_tool new_id body) y e)
          ]
        ]
      ]

  pub create_session-IsStep :
      (now new_id agent_version_id : ℕ) (environment : String) (out : AgentSession) (db db' : Db J)
      → create_session now new_id agent_version_id environment db ≡ ok (out, db')
      → IsStep db db'
  unfolding create_session
  create_session-IsStep now new_id agent_version_id environment out db db' h =
      elim (Option-cases
        (find (λ (v : AgentVersion J). v.id == agent_version_id) db.agent_versions)) [
          | inl e ↦ absurd (ground arith)
          | inr (v, e) ↦ elim (Bool-cases (names_revoked (find (is_agent v.agent_id) db.agents))) [
            | inl y ↦ absurd (ground arith)
            | inr n ↦
                subst (IsStep db) (ground arith)
                  (session_started (new_session now new_id agent_version_id environment) v e n)
          ]
        ]

module _ {F : Type 0} ⦃chars : CharOps⦄ where
  pub publish_bundle-IsStep :
      (load_yaml : String → Option (Value F)) (signing_key : String)
      (sign : String → ℕ → Value F → String) (new_id : ℕ) (body : BundlePublish)
      (out : PolicyBundle (Value F)) (db db' : Db (Value F))
      → publish_bundle load_yaml signing_key sign new_id body db ≡ ok (out, db')
      → IsStep db db'
  unfolding publish_bundle insert_bundle
  publish_bundle-IsStep load_yaml signing_key sign new_id body out db db' h =
      elim (Bool-cases (has_organization body.org_id db)) [
        | inr n ↦ absurd (ground arith)
        | inl y ↦ elim (Result-cases (load_rules_document load_yaml body.document)) [
          | inr (issues, e) ↦ absurd (ground arith)
          | inl ((none, rules), e) ↦ absurd (ground arith)
          | inl ((some d, rules), e) ↦ subst (IsStep db) (ground arith) (
              bundle_published
                (new_bundle signing_key sign new_id body.org_id
                  (max_version body.org_id db.policy_bundles + 1) d)
                y refl)
        ]
      ]
