-- ===== src/Tests/Service.antt =====
-- The whole control plane on a concrete sequence of requests.
use phulax.Prelude.{
  ◌⊎◌, ℕ, String, Bool, true, false, Option, none, some, List, [], ◌∷◌, ◌++◌, ◌≡◌, ◌≢◌, refl, ok,
  err, length, str_eq, take, if◌then◌else◌, any, ◌==◌,
}
use phulax.Value.{ℤ, Value, Scalar, str, scalar, list, dict, Fields, end, Items}
use phulax.Policy.Rules.{allow}
use phulax.ControlPlane.Tables.{find}
use phulax.ControlPlane.Db.{
  Agent, AgentVersion, AgentSession, ActionRequest, Event, decision_event, Db, empty_db,
}
use phulax.ControlPlane.Registry.Agents.{is_agent}
use phulax.ControlPlane.Registry.Sessions.{Settings, TokenClaims, create_session, issue_dev_token}
use phulax.ControlPlane.Events.{
  EventIngest, ActionRequestIn, is_some_id, new_request, event_out, timeline_event_out, join,
  list_events, timeline, ingest_event,
}
use phulax.ControlPlane.Events.Timeline.{AllRefer, ingest_event-timeline}
use phulax.ControlPlane.Service.{
  Environment, Request, post_organization, post_user, post_agent, post_version, post_session,
  post_bundle, post_event, handle, handle_all,
}
use phulax.ControlPlane.Service.Evidence.{IsHistory, handle_all-IsHistory}
use phulax.ControlPlane.Service.Links.{IsLinked, handle_all-IsLinked, issue_dev_token-never_asserts}
use phulax.ControlPlane.Service.Versions.{IsNumbered, handle_all-IsNumbered}
use phulax.ControlPlane.Service.Keys.{IsKeyed, handle_all-IsKeyed}
use phulax.ControlPlane.Service.Revocation.{version_of_session, revoked-forever}
use phulax.Tests.Samples.{char_ops, document}

abbrev pub J : Type 0
J = Value ℤ

abbrev empty_object : J
empty_object = dict end

abbrev pub env : Environment J
env = record {
  hash_manifest = λ manifest. "00";
  is_schema = λ schema. true;
  load_yaml = λ text. if str_eq text "rules: ..." then some document else none;
  sign = λ key version rules. key;
  policy_signing_key = "key";
  approval_ttl_seconds = 3600;
}

abbrev setup : List (Request J)
setup =
    post_organization 1 "acme"
    ∷ post_user 2 (record { org_id = 1; email = "a@b"; name = "a"; role = some "lead" })
    ∷ post_agent 3 4 (record {
      org_id = 1;
      name = "bot";
      owner_user_id = 2;
      version = "1";
      manifest = empty_object;
    })
    ∷ post_session 10 5 4 "dev"
    ∷ post_bundle 6 (record { org_id = 1; document = "rules: ..." })
    ∷ post_bundle 7 (record { org_id = 1; document = "rules: ..." })
    ∷ []

abbrev asked : ActionRequestIn J
asked = record {
  request_id = 20;
  trace_id = some 30;
  idempotency_key = none;
  session_id = 5;
  tool_name = "refund";
  environment = "dev";
  acting_user_id = none;
  canonical_hash = "ff";
  args_meta = empty_object;
  redacted_fields = [];
  requested_at = 11;
}

abbrev ingest : EventIngest J
ingest = record {
  action_request = asked;
  event = record {
    verdict = allow;
    rule = "r";
    reason_codes = [];
    matched_rules = [];
    risk_score = none;
    policy_version = none;
    latency_ms = none;
  };
}

abbrev agent : Agent
agent = record { id = 3; org_id = 1; name = "bot"; owner_user_id = 2; revoked_at = some 9 }

abbrev pub version : AgentVersion J
version = record {
  id = 4;
  agent_id = 3;
  version = "1";
  manifest = empty_object;
  manifest_hash = "00";
}

abbrev pub session : AgentSession
session = record { id = 5; agent_version_id = 4; environment = "dev"; started_at = 10 }

-- The tables with an agent that is revoked.
abbrev running : Db J
running = record empty_db {
  agents = agent ∷ [];
  agent_versions = version ∷ [];
  sessions = session ∷ [];
}

abbrev recorded : ActionRequest J
recorded = new_request 40 none asked

abbrev decision : Event J
decision = decision_event 40 ingest.event

abbrev evidence : Db J
evidence = record running { action_requests = recorded ∷ []; events = decision ∷ [] }

setup_runs :
    let db = handle_all env setup empty_db in
    (length db.policy_bundles ≡ 2) × (db.sessions ≡ session ∷ [])
unfolding handle_all handle phulax.ControlPlane.Policies.publish_bundle create_session find
    phulax.ControlPlane.Registry.Agents.register_agent phulax.ControlPlane.Registry.Agents.agent_out
    phulax.ControlPlane.Registry.Orgs.create_user
    phulax.ControlPlane.Registry.Orgs.create_organization
    phulax.ControlPlane.Policies.load_rules_document phulax.ControlPlane.Policies.insert_bundle
    phulax.Policy.Schema.parse_rules_data phulax.Value.get
    phulax.Policy.Schema.Conditions.unknown_keys phulax.Value.keys phulax.Prelude.contains
    phulax.Policy.Schema.parse_rules phulax.Value.items phulax.Policy.Schema.parse_rule
    phulax.Policy.Schema.Conditions.parse_conditions phulax.Policy.Schema.Conditions.parse_condition
    phulax.Policy.Schema.Conditions.valid_field_path phulax.Value.Texts.split_dots
    phulax.Policy.Schema.Conditions.op_of
setup_runs = (refl, refl)

handle_all-IsHistory_example : IsHistory evidence (handle_all env setup evidence)
handle_all-IsHistory_example = handle_all-IsHistory env setup evidence

handle_all-IsLinked_example :
    let db = handle_all env (setup ++ (post_event 40 ingest ∷ [])) empty_db in
    IsLinked db × (length (join db.action_requests db.events) ≡ length db.events)
handle_all-IsLinked_example = handle_all-IsLinked env (setup ++ (post_event 40 ingest ∷ []))

abbrev show_id : ℕ → String
show_id id = "id"

abbrev encode : TokenClaims → String → String
encode claims key = claims.sid

abbrev pub settings : Settings
settings = record {
  phulax_env = "dev";
  gateway_signing_key = "secret";
  token_ttl_seconds = 900;
  token_audience = "phulax-gateway";
  token_issuer = "phulax-control-plane";
}

issue_dev_token-never_asserts_example :
    issue_dev_token show_id encode settings 12 5 (handle_all env setup empty_db)
    ≢ err (record { status = 500; code = "AssertionError" })
issue_dev_token-never_asserts_example =
    issue_dev_token-never_asserts env setup show_id encode settings 12 5

handle_all-IsNumbered_example : IsNumbered (handle_all env setup empty_db).policy_bundles
handle_all-IsNumbered_example = handle_all-IsNumbered env setup

handle_all-IsKeyed_example : IsKeyed (handle_all env setup empty_db)
handle_all-IsKeyed_example = handle_all-IsKeyed env setup

-- A version that is added to the revoked agent.
abbrev late : AgentVersion J
late = record { id = 6; agent_id = 3; version = "2"; manifest = empty_object; manifest_hash = "00" }

abbrev afterwards : List (Request J)
afterwards = post_version 6 3 (record { version = "2"; manifest = empty_object }) ∷ []

afterwards_runs :
    find (λ (x : AgentVersion J). x.id == 6) (handle_all env afterwards running).agent_versions
    ≡ some late
unfolding handle_all handle find phulax.ControlPlane.Registry.Agents.add_version
afterwards_runs = refl

running_revoked : find (is_agent 3) running.agents ≡ some agent
unfolding find
running_revoked = refl

revoked-forever_example :
    let db' = handle_all env afterwards running in
    (find (is_agent 3) db'.agents ≡ some agent)
    × (create_session 12 8 6 "dev" db' ≡ err (record { status = 403; code = "agent is revoked" }))
    × ((¬ (version_of_session 5 db' ≡ some 6))
        ⊎ (issue_dev_token show_id encode settings 12 5 db'
            ≡ err (record { status = 403; code = "agent is revoked" })))
revoked-forever_example =
    revoked-forever env 3 9 agent late running afterwards 12 8 5 "dev" show_id encode settings refl
      running_revoked refl afterwards_runs

ingest_event_runs : ingest_event 40 ingest running ≡ ok (event_out recorded decision, evidence)
unfolding ingest_event find
ingest_event_runs = refl

ingest_event-timeline_example :
    AllRefer evidence
    × (tool_id : Option ℕ) × (let r = new_request 40 tool_id asked in
        ((trace_id : ℕ)
          → timeline trace_id evidence ≡ (
              if is_some_id trace_id (some 30)
              then timeline trace_id running ++ (timeline_event_out r decision ∷ [])
              else timeline trace_id running))
        × (list_events none evidence ≡ take 100 (event_out r decision ∷ list_events none running))
        × (event_out recorded decision ≡ event_out r decision))
ingest_event-timeline_example =
    ingest_event-timeline 40 ingest running evidence (event_out recorded decision) tt refl
      ingest_event_runs
