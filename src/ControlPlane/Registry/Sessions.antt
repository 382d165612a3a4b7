-- ===== src/ControlPlane/Registry/Sessions.antt =====
-- apps/api/src/phulax_api/routers/sessions.py and tokens.py: sessions, and the tokens of their
-- agents. `show_id` is `str` of a uuid, and `encode` is `jwt.encode` with a key.
use phulax.Prelude.{
  ℕ, ◌+◌, String, Bool, true, false, not, Option, none, some, [], ◌∷◌, ◌++◌, str_eq, ◌==◌,
  if◌then◌else◌, Result, ok, err,
}
use phulax.ControlPlane.Tables.{find}
use phulax.ControlPlane.Db.{Agent, AgentVersion, AgentSession, Db, HttpError}

-- The settings that a token is made with (apps/api/src/phulax_api/settings.py).
pub record Settings : Type 0 where
  pub phulax_env : String
  pub gateway_signing_key : String
  pub token_ttl_seconds : ℕ
  pub token_audience : String
  pub token_issuer : String

-- What `build_claims` returns; times are seconds.
pub record TokenClaims : Type 0 where
  pub iss : String
  pub aud : String
  pub sub : String
  pub org : String
  pub avid : String
  pub ver : String
  pub sid : String
  pub env : String
  pub iat : ℕ
  pub exp : ℕ

-- schemas.TokenOut
pub record TokenOut : Type 0 where
  pub token : String
  pub expires_at : ℕ
  pub claims : TokenClaims

abbrev pub is_revoked : Agent → Bool
is_revoked a = elim a.revoked_at [ none ↦ false | some t ↦ true ]

-- `agent is not None and agent.revoked_at is not None`
abbrev pub names_revoked : Option Agent → Bool
names_revoked none = false
names_revoked (some a) = is_revoked a

abbrev pub new_session : ℕ → ℕ → ℕ → String → AgentSession
new_session now new_id version_id environment = record {
  id = new_id;
  agent_version_id = version_id;
  environment = environment;
  started_at = now;
}

module _ {J : Type 0} where
  unfoldable pub create_session : ℕ → ℕ → ℕ → String → Db J → Result HttpError (AgentSession × Db J)
  create_session now new_id agent_version_id environment db =
      elim (find (λ v. v.id == agent_version_id) db.agent_versions) [
        | none ↦ err (record { status = 404; code = "agent version not found" })
        | some v ↦
            if names_revoked (find (λ a. a.id == v.agent_id) db.agents)
            then err (record { status = 403; code = "agent is revoked" })
            else (let s = new_session now new_id agent_version_id environment in
                ok (s, record db { sessions = db.sessions ++ (s ∷ []) }))
      ]

module _ {J : Type 0} (show_id : ℕ → String) (encode : TokenClaims → String → String)
    (settings : Settings) where
  unfoldable pub build_claims : ℕ → Agent → AgentVersion J → AgentSession → TokenClaims
  build_claims now agent version session = record {
    iss = settings.token_issuer;
    aud = settings.token_audience;
    sub = show_id agent.id;
    org = show_id agent.org_id;
    avid = show_id version.id;
    ver = version.version;
    sid = show_id session.id;
    env = session.environment;
    iat = now;
    exp = now + settings.token_ttl_seconds;
  }

  -- The two assertions hold by the foreign keys; a failure of one is a 500.
  unfoldable pub issue_dev_token : ℕ → ℕ → Db J → Result HttpError TokenOut
  unfolding build_claims
  issue_dev_token now session_id db =
      if not (str_eq settings.phulax_env "dev")
      then err (record { status = 403; code = "token issuance is dev-only" })
      else elim (find (λ s. s.id == session_id) db.sessions) [
        | none ↦ err (record { status = 404; code = "session not found" })
        | some session ↦ elim (find (λ v. v.id == session.agent_version_id) db.agent_versions) [
          | none ↦ err (record { status = 500; code = "AssertionError" })
          | some version ↦ elim (find (λ a. a.id == version.agent_id) db.agents) [
            | none ↦ err (record { status = 500; code = "AssertionError" })
            | some agent ↦
                if is_revoked agent
                then err (record { status = 403; code = "agent is revoked" })
                else (let claims = build_claims now agent version session in
                    ok (record {
                      token = encode claims settings.gateway_signing_key;
                      expires_at = claims.exp;
                      claims = claims;
                    }))
          ]
        ]
      ]
