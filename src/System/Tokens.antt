-- ===== src/System/Tokens.antt =====
-- A token that the control plane issues (apps/api/src/phulax_api/routers/sessions.py) is read back
-- by the gateway (apps/gateway/src/phulax_gateway/tokens.py).
use phulax.Prelude.{
  ℕ, String, Option, none, some, ◌≡◌, refl, inl, inr, arith, ◌==◌, Result, ok, Option-cases,
}
use phulax.Value.{ℤ, int, str, scalar, Fields, end, field, get}
use phulax.ControlPlane.Tables.{find}
use phulax.ControlPlane.Db.{Agent, AgentVersion, AgentSession, Db}
use phulax.ControlPlane.Registry.Sessions.{
  Settings, TokenClaims, TokenOut, build_claims, issue_dev_token,
}
use phulax.Gateway.Calls.{Claims}
use phulax.Gateway.Tokens.{JwtError, read_claims, validate_token}

-- The claims as the JSON object that the token holds.
unfoldable pub payload_of : {F : Type 0} → TokenClaims → Fields F
payload_of c = field "iss" (scalar (str c.iss)) (
    field "aud" (scalar (str c.aud)) (
      field "sub" (scalar (str c.sub)) (
        field "org" (scalar (str c.org)) (
          field "avid" (scalar (str c.avid)) (
            field "ver" (scalar (str c.ver)) (
              field "sid" (scalar (str c.sid)) (
                field "env" (scalar (str c.env)) (
                  field "iat" (scalar (int (ℤ.pos c.iat)))
                    (field "exp" (scalar (int (ℤ.pos c.exp))) end)))))))))

-- What the gateway should read.
abbrev pub claims_of : {J : Type 0} → Agent → AgentVersion J → AgentSession → Claims
claims_of a v s = record {
  agent_id = a.id;
  org_id = a.org_id;
  agent_version_id = v.id;
  version = v.version;
  session_id = s.id;
  environment = s.environment;
}

module _ {J : Type 0} (show_id : ℕ → String) where
  issue_dev_token-ok :
      (encode : TokenClaims → String → String) (settings : Settings) (now session_id : ℕ)
      (db : Db J) (out : TokenOut)
      → issue_dev_token show_id encode settings now session_id db ≡ ok out
      → (s : AgentSession) × (v : AgentVersion J) × (a : Agent) × (find
            (λ (x : AgentSession). x.id == session_id)
            db.sessions
          ≡ some s)
        × (find (λ (x : AgentVersion J). x.id == s.agent_version_id) db.agent_versions ≡ some v)
        × (find (λ (x : Agent). x.id == v.agent_id) db.agents ≡ some a)
        × (a.revoked_at ≡ none)
        × (out.claims ≡ build_claims show_id encode settings now a v s)
  unfolding issue_dev_token build_claims
  issue_dev_token-ok encode settings now session_id db out h =
      elim (Option-cases (find (λ (x : AgentSession). x.id == session_id) db.sessions)) [
        | inl e ↦ absurd (ground arith)
        | inr (s, e) ↦
            elim (Option-cases
              (find (λ (x : AgentVersion J). x.id == s.agent_version_id) db.agent_versions)) [
                | inl e' ↦ absurd (ground arith)
                | inr (v, e') ↦
                    elim (Option-cases (find (λ (x : Agent). x.id == v.agent_id) db.agents)) [
                      | inl e'' ↦ absurd (ground arith)
                      | inr (a, e'') ↦ elim (Option-cases a.revoked_at) [
                        | inr (t, r) ↦ absurd (ground arith)
                        | inl r ↦ (s, v, a, e, e', e'', r, ground arith)
                      ]
                    ]
              ]
      ]

module _ {J : Type 0} (show_id : ℕ → String) (read_id : String → Option ℕ) where
  read_claims-build :
      (F : Type 0) (encode : TokenClaims → String → String) (settings : Settings) (now : ℕ)
      (a : Agent) (v : AgentVersion J) (s : AgentSession)
      → ((id : ℕ) → read_id (show_id id) ≡ some id)
      → read_claims {F = F} read_id (payload_of (build_claims show_id encode settings now a v s))
        ≡ ok (claims_of a v s)
  unfolding read_claims payload_of build_claims get
  read_claims-build F encode settings now a v s reads =
      rw (read_claims, reads a.id, reads a.org_id, reads v.id, reads s.id) refl

module _ {F J : Type 0} (show_id : ℕ → String) (read_id : String → Option ℕ) where
  -- A token that the control plane issues, where the library decodes it at a later time, with the
  -- key and the audience of the settings, to the claims that it was made of, gives the gateway the
  -- session that was asked for with its environment, the version of that session, and the agent of
  -- that version with its organization; and the agent was not revoked when the token was issued.
  pub issue_dev_token-validate :
      (encode : TokenClaims → String → String)
      (decode : ℕ → String → String → String → Result JwtError (Fields F)) (settings : Settings)
      (now later session_id : ℕ) (db : Db J) (out : TokenOut)
      → ((id : ℕ) → read_id (show_id id) ≡ some id)
      → decode later out.token settings.gateway_signing_key settings.token_audience
        ≡ ok (payload_of out.claims)
      → issue_dev_token show_id encode settings now session_id db ≡ ok out
      → (s : AgentSession) × (v : AgentVersion J) × (a : Agent) × (find
            (λ (x : AgentSession). x.id == session_id)
            db.sessions
          ≡ some s)
        × (find (λ (x : AgentVersion J). x.id == s.agent_version_id) db.agent_versions ≡ some v)
        × (find (λ (x : Agent). x.id == v.agent_id) db.agents ≡ some a)
        × (a.revoked_at ≡ none)
        × (validate_token read_id decode later out.token settings.gateway_signing_key
              settings.token_audience
            ≡ ok (claims_of a v s))
  unfolding validate_token
  issue_dev_token-validate encode decode settings now later session_id db out reads decodes h =
      let (s, v, a, e, e', e'', r, made) =
        issue_dev_token-ok show_id encode settings now session_id db out h in
      (
        s,
        v,
        a,
        e,
        e',
        e'',
        r,
        rw (decodes, made, validate_token)
            (read_claims-build show_id read_id F encode settings now a v s reads),
      )
