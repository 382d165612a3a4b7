-- ===== src/ControlPlane/Service/Guarded.antt =====
-- The routes of the registry, each a command with a guard.
use phulax.Prelude.{ℕ, String, Bool, ◌≡◌, arith}
use phulax.ControlPlane.Db.{Db}
use phulax.ControlPlane.Approvals.History.{committed}
use phulax.ControlPlane.Registry.Orgs.{UserCreate, create_organization, create_user}
use phulax.ControlPlane.Registry.Agents.{
  AgentRegister, VersionCreate, register_agent, add_version, revoke_agent,
}
use phulax.ControlPlane.Registry.Tools.{ToolCreate, register_tool}
use phulax.ControlPlane.Registry.Sessions.{create_session}
use phulax.ControlPlane.Registry.Orgs.{is_named, has_email, new_user}
use phulax.ControlPlane.Registry.Agents.{
  has_name, is_agent, is_version, new_agent, new_version, revoked,
}
use phulax.ControlPlane.Registry.Tools.{is_tool, new_tool}
use phulax.ControlPlane.Registry.Sessions.{names_revoked, new_session}
use phulax.ControlPlane.Db.{Agent, AgentVersion, has_organization, has_user, Db}
use phulax.ControlPlane.Tables.{find, update_where}
use phulax.Prelude.{
  ◌==◌, ◌++◌, ◌⊎◌, inl, inr, Option-cases, Bool-cases, true, false, none, some, [], ◌∷◌,
}

-- The command is done if its guard holds, and else nothing is.
abbrev pub Guarded : {J : Type 0} → Type 0 → Db J → Db J → Db J → Type 0
Guarded guard db db' done = (guard × (db' ≡ done)) ⊎ ((¬ guard) × (db' ≡ db))

module _ {J : Type 0} where
  -- An agent with the id that is not revoked.
  abbrev pub IsActive : ℕ → Db J → Type 0
  IsActive agent_id db =
      (a : Agent) × (find (is_agent agent_id) db.agents ≡ some a) × (a.revoked_at ≡ none)

  -- A version with the id whose agent is not revoked.
  abbrev pub IsOpen : ℕ → Db J → Type 0
  IsOpen version_id db =
      (v : AgentVersion J) × (find (λ (x : AgentVersion J). x.id == version_id) db.agent_versions
        ≡ some v)
      × (names_revoked (find (is_agent v.agent_id) db.agents) ≡ false)

  pub create_organization-Guarded :
      (new_id : ℕ) (name : String) (db : Db J)
      → Guarded
          (find (is_named name) db.organizations ≡ none)
          db
          (committed db (create_organization new_id name db))
          (record db {
            organizations = db.organizations ++ (record { id = new_id; name = name } ∷ []);
          })
  unfolding create_organization
  create_organization-Guarded new_id name db =
      elim (Option-cases (find (is_named name) db.organizations)) [
        | inl e ↦ inl (e, ground arith)
        | inr (o, e) ↦ inr (λ n. ground arith, ground arith)
      ]

  pub create_user-Guarded :
      (new_id : ℕ) (body : UserCreate) (db : Db J)
      → Guarded
          ((has_organization body.org_id db ≡ true)
            × (find (has_email body.org_id body.email) db.users ≡ none))
          db
          (committed db (create_user new_id body db))
          (record db { users = db.users ++ (new_user new_id body ∷ []) })
  unfolding create_user
  create_user-Guarded new_id body db =
      elim (Option-cases (find (has_email body.org_id body.email) db.users)) [
        | inr (u, e) ↦ inr (λ (o, n). ground arith, ground arith)
        | inl e ↦ elim (Bool-cases (has_organization body.org_id db)) [
          | inl y ↦ inl ((y, e), ground arith)
          | inr n ↦ inr (λ (o, k). ground arith, ground arith)
        ]
      ]

  pub register_agent-Guarded :
      (hash : J → String) (agent_id version_id : ℕ) (body : AgentRegister J) (db : Db J)
      → Guarded
          ((has_organization body.org_id db ≡ true)
            × (has_user (some body.owner_user_id) db ≡ true)
            × (find (has_name body.org_id body.name) db.agents ≡ none))
          db
          (committed db (register_agent hash agent_id version_id body db))
          (record db {
            agents = db.agents ++ (new_agent hash agent_id body ∷ []);
            agent_versions =
                db.agent_versions
                ++ (new_version hash version_id agent_id body.version body.manifest ∷ []);
          })
  unfolding register_agent
  register_agent-Guarded hash agent_id version_id body db =
      elim (Option-cases (find (has_name body.org_id body.name) db.agents)) [
        | inr (u, e) ↦ inr (λ (o, p, n). ground arith, ground arith)
        | inl e ↦ elim (Bool-cases (has_organization body.org_id db)) [
          | inr n ↦ inr (λ (o, p, k). ground arith, ground arith)
          | inl y ↦ elim (Bool-cases (has_user (some body.owner_user_id) db)) [
            | inr n ↦ inr (λ (o, p, k). ground arith, ground arith)
            | inl z ↦ inl ((y, z, e), ground arith)
          ]
        ]
      ]

  pub add_version-Guarded :
      (hash : J → String) (new_id agent_id : ℕ) (body : VersionCreate J) (db : Db J)
      → Guarded
          ((¬ (find (is_agent agent_id) db.agents ≡ none))
            × (find (is_version agent_id body.version) db.agent_versions ≡ none))
          db
          (committed db (add_version hash new_id agent_id body db))
          (record db {
            agent_versions =
                db.agent_versions
                ++ (new_version hash new_id agent_id body.version body.manifest ∷ []);
          })
  unfolding add_version
  add_version-Guarded hash new_id agent_id body db =
      elim (Option-cases (find (is_agent agent_id) db.agents)) [
        | inl e ↦ inr (λ (o, n). absurd (o e), ground arith)
        | inr (a, e) ↦
            elim (Option-cases (find (is_version agent_id body.version) db.agent_versions)) [
              | inl k ↦ inl ((λ n. ground arith, k), ground arith)
              | inr (v, k) ↦ inr (λ (o, n). ground arith, ground arith)
            ]
      ]

  pub revoke_agent-Guarded :
      (now agent_id : ℕ) (db : Db J)
      → Guarded
          (IsActive agent_id db)
          db
          (committed db (revoke_agent now agent_id db))
          (record db { agents = update_where (is_agent agent_id) (revoked now) db.agents })
  unfolding revoke_agent
  revoke_agent-Guarded now agent_id db = elim (Option-cases (find (is_agent agent_id) db.agents)) [
    | inl e ↦ inr (λ (a, f, n). ground arith, ground arith)
    | inr (a, e) ↦ elim (Option-cases a.revoked_at) [
      | inl k ↦ inl ((a, e, k), ground arith)
      | inr (t, k) ↦ inr (λ (b, f, n). ground arith, ground arith)
    ]
  ]

  pub register_tool-Guarded :
      (is_schema : J → Bool) (new_id : ℕ) (body : ToolCreate J) (db : Db J)
      → Guarded
          ((has_organization body.org_id db ≡ true)
            × (is_schema body.args_schema ≡ true)
            × (find (is_tool body.org_id body.name) db.tools ≡ none))
          db
          (committed db (register_tool is_schema new_id body db))
          (record db { tools = db.tools ++ (new_tool new_id body ∷ []) })
  unfolding register_tool
  register_tool-Guarded is_schema new_id body db =
      elim (Option-cases (find (is_tool body.org_id body.name) db.tools)) [
        | inr (u, e) ↦ inr (λ (o, p, n). ground arith, ground arith)
        | inl e ↦ elim (Bool-cases (has_organization body.org_id db)) [
          | inr n ↦ inr (λ (o, p, k). ground arith, ground arith)
          | inl y ↦ elim (Bool-cases (is_schema body.args_schema)) [
            | inr n ↦ inr (λ (o, p, k). ground arith, ground arith)
            | inl z ↦ inl ((y, z, e), ground arith)
          ]
        ]
      ]

  pub create_session-Guarded :
      (now new_id version_id : ℕ) (environment : String) (db : Db J)
      → Guarded
          (IsOpen version_id db)
          db
          (committed db (create_session now new_id version_id environment db))
          (record db {
            sessions = db.sessions ++ (new_session now new_id version_id environment ∷ []);
          })
  unfolding create_session
  create_session-Guarded now new_id version_id environment db =
      elim (Option-cases (find (λ (x : AgentVersion J). x.id == version_id) db.agent_versions)) [
        | inl e ↦ inr (λ (a, f, n). ground arith, ground arith)
        | inr (v, e) ↦ elim (Bool-cases (names_revoked (find (is_agent v.agent_id) db.agents))) [
          | inr k ↦ inl ((v, e, k), ground arith)
          | inl k ↦ inr (λ (b, f, n). ground arith, ground arith)
        ]
      ]
