-- ===== src/Tests/Tokens.antt =====
-- A token of development, issued and read back.
use Prim.Native.String.{String}
use phulax.Prelude.{
  ℕ, zero, suc, ◌≡◌, refl, ap, Option, none, some, ok, ◌==◌, Result, err, [], ◌∷◌, ltb,
  if◌then◌else◌,
}
use phulax.Value.{ℤ, Fields}
use phulax.ControlPlane.Tables.{find}
use phulax.ControlPlane.Db.{Agent, AgentVersion, AgentSession, Db, empty_db}
use phulax.ControlPlane.Registry.Sessions.{TokenClaims, TokenOut, issue_dev_token}
use phulax.Gateway.Tokens.{JwtError, expired_signature, validate_token}
use phulax.System.Tokens.{payload_of, claims_of, issue_dev_token-validate}
use phulax.Tests.Service.{J, version, session, settings}

-- Ids in unary.
abbrev show_id : ℕ → String
show_id zero = ""
show_id (suc n) = String.◌∷◌ "1" (show_id n)

abbrev size : String → ℕ
size String.[] = zero
size (String.◌∷◌ c s) = suc (size s)

abbrev read_id : String → Option ℕ
read_id s = some (size s)

size-show_id : (id : ℕ) → size (show_id id) ≡ id
size-show_id zero = refl
size-show_id (suc n) = ap suc (size-show_id n)

-- A token that names its session.
abbrev encode : TokenClaims → String → String
encode claims key = claims.sid

abbrev agent : Agent
agent = record { id = 3; org_id = 1; name = "bot"; owner_user_id = 2; revoked_at = none }

abbrev db : Db J
db = record empty_db { agents = agent ∷ []; agent_versions = version ∷ []; sessions = session ∷ [] }

abbrev made : TokenClaims
made = record {
  iss = "phulax-control-plane";
  aud = "phulax-gateway";
  sub = "111";
  org = "1";
  avid = "1111";
  ver = "1";
  sid = "11111";
  env = "dev";
  iat = 12;
  exp = 912;
}

abbrev issued : TokenOut
issued = record { token = "11111"; expires_at = 912; claims = made }

abbrev decode : ℕ → String → String → String → Result JwtError (Fields ℤ)
decode now token key audience = if ltb now 912 then ok (payload_of made) else err expired_signature

issue_dev_token_runs : issue_dev_token show_id encode settings 12 5 db ≡ ok issued
unfolding issue_dev_token find
issue_dev_token_runs = refl

issue_dev_token-validate_example :
    (s : AgentSession) × (v : AgentVersion J) × (a : Agent) × (find
        (λ (x : AgentSession). x.id == 5)
        db.sessions
      ≡ some s)
    × (find (λ (x : AgentVersion J). x.id == s.agent_version_id) db.agent_versions ≡ some v)
    × (find (λ (x : Agent). x.id == v.agent_id) db.agents ≡ some a)
    × (a.revoked_at ≡ none)
    × (validate_token read_id decode 40 "11111" "secret" "phulax-gateway" ≡ ok (claims_of a v s))
issue_dev_token-validate_example =
    issue_dev_token-validate show_id read_id encode decode settings 12 40 5 db issued
      (λ id. ap some (size-show_id id)) refl issue_dev_token_runs
