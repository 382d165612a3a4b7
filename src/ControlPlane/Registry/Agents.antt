-- ===== src/ControlPlane/Registry/Agents.antt =====
-- apps/api/src/phulax_api/routers/agents.py. `hash_manifest` is manifest_hash, the SHA-256 of the
-- JSON text of a manifest.
use phulax.Prelude.{
  ℕ, String, Bool, ◌&&◌, Option, none, some, List, [], ◌∷◌, ◌++◌, map, keep, str_eq, ◌==◌,
  if◌then◌else◌, Result, ok, err,
}
use phulax.ControlPlane.Tables.{find, find_last, update_where, id_filter, text_filter}
use phulax.ControlPlane.Db.{Agent, AgentVersion, Db, HttpError, has_organization, has_user}

-- schemas.AgentRegister
pub record AgentRegister (J : Type 0) : Type 0 where
  pub org_id : ℕ
  pub name : String
  pub owner_user_id : ℕ
  pub version : String
  pub manifest : J

-- schemas.VersionCreate
pub record VersionCreate (J : Type 0) : Type 0 where
  pub version : String
  pub manifest : J

-- schemas.AgentOut; of its latest version it shows all but the manifest.
pub record AgentOut (J : Type 0) : Type 0 where
  pub agent : Agent
  pub latest_version : Option (AgentVersion J)

-- The unique key of `agents`.
abbrev pub has_name : ℕ → String → Agent → Bool
has_name org_id name a = (a.org_id == org_id) && str_eq a.name name

abbrev pub is_agent : ℕ → Agent → Bool
is_agent id a = a.id == id

abbrev pub revoked : ℕ → Agent → Agent
revoked now a = record a { revoked_at = some now }

module _ {J : Type 0} where
  -- The unique key of `agent_versions`.
  abbrev pub is_version : ℕ → String → AgentVersion J → Bool
  is_version agent_id version v = (v.agent_id == agent_id) && str_eq v.version version

  -- `_latest_version`; two versions of one agent are created by different requests.
  unfoldable pub latest_version : ℕ → Db J → Option (AgentVersion J)
  latest_version agent_id db = find_last (λ v. v.agent_id == agent_id) db.agent_versions

  -- `_agent_out`
  unfoldable pub agent_out : Db J → Agent → AgentOut J
  agent_out db a = record { agent = a; latest_version = latest_version a.id db }

  unfoldable pub list_agents : Option ℕ → Option String → Db J → List (AgentOut J)
  list_agents org_id name db =
      map (agent_out db)
        (keep (λ a. id_filter org_id a.org_id && text_filter name a.name) db.agents)

  unfoldable pub get_agent : ℕ → Db J → Result HttpError (AgentOut J)
  get_agent agent_id db = elim (find (is_agent agent_id) db.agents) [
    | none ↦ err (record { status = 404; code = "agent not found" })
    | some a ↦ ok (agent_out db a)
  ]

  unfoldable pub list_versions : ℕ → Db J → Result HttpError (List (AgentVersion J))
  list_versions agent_id db = elim (find (is_agent agent_id) db.agents) [
    | none ↦ err (record { status = 404; code = "agent not found" })
    | some a ↦ ok (keep (λ v. v.agent_id == agent_id) db.agent_versions)
  ]

  unfoldable pub revoke_agent : ℕ → ℕ → Db J → Result HttpError (AgentOut J × Db J)
  unfolding agent_out
  revoke_agent now agent_id db = elim (find (is_agent agent_id) db.agents) [
    | none ↦ err (record { status = 404; code = "agent not found" })
    | some a ↦ elim a.revoked_at [
      | some t ↦ ok (agent_out db a, db)
      | none ↦
          let db' = record db {
            agents = update_where (is_agent agent_id) (revoked now) db.agents;
          } in
          ok (agent_out db' (revoked now a), db')
    ]
  ]

module _ {J : Type 0} (hash_manifest : J → String) where
  abbrev pub new_agent : ℕ → AgentRegister J → Agent
  new_agent new_id body = record {
    id = new_id;
    org_id = body.org_id;
    name = body.name;
    owner_user_id = body.owner_user_id;
    revoked_at = none;
  }

  abbrev pub new_version : ℕ → ℕ → String → J → AgentVersion J
  new_version new_id agent_id version manifest = record {
    id = new_id;
    agent_id = agent_id;
    version = version;
    manifest = manifest;
    manifest_hash = hash_manifest manifest;
  }

  -- `register_agent`: the agent and its first version; two uuids are drawn.
  unfoldable pub register_agent :
      ℕ → ℕ → AgentRegister J → Db J → Result HttpError (AgentOut J × Db J)
  unfolding agent_out
  register_agent agent_id version_id body db =
      if has_organization body.org_id db
      then (if has_user (some body.owner_user_id) db
          then elim (find (has_name body.org_id body.name) db.agents) [
            | some duplicate ↦ err (record { status = 409; code = "agent already registered" })
            | none ↦
                let a = new_agent agent_id body in
                let v = new_version version_id agent_id body.version body.manifest in
                let db' = record db {
                  agents = db.agents ++ (a ∷ []);
                  agent_versions = db.agent_versions ++ (v ∷ []);
                } in
                ok (agent_out db' a, db')
          ]
          else err (record { status = 404; code = "owner user not found" }))
      else err (record { status = 404; code = "organization not found" })

  unfoldable pub add_version :
      ℕ → ℕ → VersionCreate J → Db J → Result HttpError (AgentVersion J × Db J)
  add_version new_id agent_id body db = elim (find (is_agent agent_id) db.agents) [
    | none ↦ err (record { status = 404; code = "agent not found" })
    | some a ↦ elim (find (is_version agent_id body.version) db.agent_versions) [
      | some duplicate ↦ err (record { status = 409; code = "version already exists" })
      | none ↦
          let v = new_version new_id agent_id body.version body.manifest in
          ok (v, record db { agent_versions = db.agent_versions ++ (v ∷ []) })
    ]
  ]
