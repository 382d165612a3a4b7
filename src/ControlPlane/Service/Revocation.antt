-- ===== src/ControlPlane/Service/Revocation.antt =====
-- The kill switch of apps/api/src/phulax_api/routers/agents.py is permanent.
use mathlib.Core.Path.{subst}
use mathlib.Core.Option
use mathlib.Core.Option.{some-injective}
use phulax.Prelude.{
  sym, ap, ℕ, true, false, none, some, List, [], ◌∷◌, ◌≡◌, refl, ◌∙◌, inl, inr, arith, ◌==◌, str_eq,
  if◌then◌else◌, Bool-cases, Option-cases, err, String, Option, ◌⊎◌,
}
use phulax.Value.{Value}
use phulax.Policy.Schema.Conditions.{CharOps}
use phulax.ControlPlane.Tables.{find, update_where}
use phulax.ControlPlane.Tables.Laws.{find-some, find-append_some, find-update}
use phulax.ControlPlane.Db.{Agent, AgentVersion, AgentSession, Db}
use phulax.ControlPlane.Registry.Agents.{is_agent, revoked}
use phulax.ControlPlane.Registry.Sessions.{Settings, TokenClaims, create_session, issue_dev_token}
use phulax.ControlPlane.Service.{Environment, Request, handle_all}
use phulax.ControlPlane.Service.Steps.{
  IsStep, unchanged, organization_added, user_added, agent_registered, version_added, agent_revoked,
  tool_added, session_started, bundle_published, evidence_recorded, executions_changed,
  approvals_changed,
}
use phulax.ControlPlane.Service.Refinement.{handle_all-keeps}

-- The version that a session names.
abbrev pub version_of_session : {J : Type 0} → ℕ → Db J → Option ℕ
version_of_session session_id db =
    Option.map (λ (s : AgentSession). s.agent_version_id)
      (find (λ (s : AgentSession). s.id == session_id) db.sessions)

module _ (agent_id : ℕ) (a : Agent) where
  revoked-same :
      (now id t : ℕ) (b : Agent) (agents : List Agent)
      → a.revoked_at ≡ some t
      → find (is_agent id) agents ≡ some b
      → b.revoked_at ≡ none
      → find (is_agent agent_id) agents ≡ some a
      → find (is_agent agent_id) (update_where (is_agent id) (revoked now) agents) ≡ some a
  revoked-same now id t b agents gone target live found =
      let updated =
        find-update (is_agent id) (is_agent agent_id) (revoked now) agents
          (λ x. elim (Bool-cases (is_agent id x)) [ inl y ↦ rw y refl | inr n ↦ rw n refl ]) in
      elim (Bool-cases (id == agent_id)) [
        | inl y ↦
            let one : id ≡ agent_id = ground arith in
            let same : a ≡ b =
              some-injective a b
                (sym found ∙ subst (λ (i : ℕ). find (is_agent i) agents ≡ some b) one target) in
            absurd (cc (ap (λ (x : Agent). x.revoked_at) same, gone, live))
        | inr n ↦
            let own : is_agent agent_id a ≡ true = find-some _ agents a found in
            let other : is_agent id a ≡ false = ground arith in updated ∙ rw (found, other) refl
      ]

module _ {J : Type 0} (agent_id : ℕ) (a : Agent) where
  step-revoked :
      (t : ℕ) (db db' : Db J)
      → a.revoked_at ≡ some t
      → find (is_agent agent_id) db.agents ≡ some a
      → IsStep db db'
      → find (is_agent agent_id) db'.agents ≡ some a
  step-revoked t db db' gone h unchanged = h
  step-revoked t db db' gone h (organization_added o e) = h
  step-revoked t db db' gone h (user_added u e k) = h
  step-revoked t db db' gone h (agent_registered b w e k n r same) =
      find-append_some _ db.agents (b ∷ []) a h
  step-revoked t db db' gone h (version_added b w e k) = h
  step-revoked t db db' gone h (agent_revoked now id b e live) =
      revoked-same agent_id a now id t b db.agents gone e live h
  step-revoked t db db' gone h (tool_added u e k) = h
  step-revoked t db db' gone h (session_started x w e k) = h
  step-revoked t db db' gone h (bundle_published b o e) = h
  step-revoked t db db' gone h (evidence_recorded r e k u same) = h
  step-revoked t db db' gone h (executions_changed rows new e) = h
  step-revoked t db db' gone h (approvals_changed rows new e) = h

  issue_dev_token-revoked :
      (show_id : ℕ → String) (encode : TokenClaims → String → String) (settings : Settings)
      (now session_id t : ℕ) (v : AgentVersion J) (db : Db J)
      → a.revoked_at ≡ some t
      → v.agent_id ≡ agent_id
      → find (is_agent agent_id) db.agents ≡ some a
      → find (λ (x : AgentVersion J). x.id == v.id) db.agent_versions ≡ some v
      → (¬ (version_of_session session_id db ≡ some v.id))
        ⊎ (issue_dev_token show_id encode settings now session_id db
            ≡ err (record {
              status = 403;
              code =
                  if str_eq settings.phulax_env "dev"
                  then "agent is revoked"
                  else "token issuance is dev-only";
            }))
  unfolding issue_dev_token
  issue_dev_token-revoked show_id encode settings now session_id t v db gone own ha hv =
      elim (Option-cases (find (λ (s : AgentSession). s.id == session_id) db.sessions)) [
        | inl n ↦ inl (λ e. ground arith)
        | inr (s, found) ↦ elim (Bool-cases (s.agent_version_id == v.id)) [
          | inr n ↦ inl (λ e. ground arith)
          | inl y ↦ inr (ground arith)
        ]
      ]

module _ {F : Type 0} ⦃chars : CharOps⦄ (env : Environment (Value F)) where
  -- Once an agent is revoked, then after whatever requests it is still revoked since that time; and
  -- for every version of it that there is by then, added before or after the revocation, a session
  -- for the version is refused with 403, and so is a token for every session that names the
  -- version, where the text of the refusal tells whether tokens are issued at all.
  pub revoked-forever :
      (agent_id t : ℕ) (a : Agent) (v : AgentVersion (Value F)) (db : Db (Value F))
      (requests : List (Request (Value F))) (now new_id session_id : ℕ) (environment : String)
      (show_id : ℕ → String) (encode : TokenClaims → String → String) (settings : Settings)
      → a.revoked_at ≡ some t
      → find (is_agent agent_id) db.agents ≡ some a
      → v.agent_id ≡ agent_id
      → find
          (λ (x : AgentVersion (Value F)). x.id == v.id)
          (handle_all env requests db).agent_versions
        ≡ some v
      → let db' = handle_all env requests db in
        (find (is_agent agent_id) db'.agents ≡ some a)
        × (create_session now new_id v.id environment db'
            ≡ err (record { status = 403; code = "agent is revoked" }))
        × ((¬ (version_of_session session_id db' ≡ some v.id))
            ⊎ (issue_dev_token show_id encode settings now session_id db'
                ≡ err (record {
                  status = 403;
                  code =
                      if str_eq settings.phulax_env "dev"
                      then "agent is revoked"
                      else "token issuance is dev-only";
                })))
  unfolding create_session
  revoked-forever agent_id t a v db requests now new_id session_id environment show_id encode
        settings gone h own hv =
      let ha =
        handle_all-keeps env (λ d. find (is_agent agent_id) d.agents ≡ some a) requests db
          (λ d d' k step. step-revoked agent_id a t d d' gone k step) h in
      (
        ha,
        ground arith,
        issue_dev_token-revoked agent_id a show_id encode settings now session_id t v
            (handle_all env requests db) gone own ha hv,
      )
