-- ===== src/Lib.antt =====
-- phulax: an authorization gateway for the actions of agents.
--
-- The program has three parts. `packages/policy` holds the rules: a parser that admits a document
-- of rules, an engine that decides one request under a bundle of them, and a risk score that
-- explains. `apps/gateway` authenticates a request, asks the engine, records the decision, and
-- only then executes. `apps/api`, the control plane, keeps the records: requests and their
-- events, approvals that a human decides, and executions that happen at most once.
--
-- Files and what they model:
--   Value          the values of JSON and YAML documents; Value/Texts the operations on texts
--   Policy         packages/policy/src/phulax_policy
--     Rules          the records of schema.py
--     Schema         the parser of schema.py (parse_rules_data, _parse_rule, _parse_match);
--                    Schema/Conditions has _parse_conditions and below; Schema/Sound and
--                    Schema/Document have what an accepted document is
--     Engine         evaluate, _apply_rule and _match_mismatch of engine.py; Engine/Conditions has
--                    _resolve_condition, _scalar_eq and _lookup; the modules below it have its
--                    theorems, by what they are about
--     Risk           score_request of risk.py
--   ControlPlane   apps/api/src/phulax_api
--     Tables         what the SQL statements do, on a table as the list of its rows
--     Db             the rows of models.py
--     Registry       routers/orgs.py, agents.py, tools.py and sessions.py, and tokens.py
--     Policies       routers/policies.py, and load_rules_document of the policy package
--     Events         routers/events.py: ingest_event, list_events, timeline
--     Executions     routers/executions.py: claim_execution, complete_execution
--     Approvals      routers/approvals.py: resolve_approval, decide_approval and what they call;
--                    Approvals/Routes has the routes over them
--     Review         routers/ui.py: approvals_list, approval_detail and approval_decide
--     Service        main.py and db.py: every route that writes as one type of requests, each a
--                    transaction; Service/Steps, Service/Commands and Service/Moves are the abstract
--                    control plane that they implement: how its tables may grow, the commands of
--                    the registry with their guards, and the state machines of approvals and
--                    executions; the modules beside them have what it keeps
--   Gateway        apps/gateway/src/phulax_gateway
--     Redaction      redaction.py
--     Store          policy_store.py: get is get_bundle, _verify is verify
--     Calls          what main.py reads of envelope.py and tokens.py, and its calls of the world
--     Tokens         validate_token of tokens.py
--     Executor       executor.py: execute and the simulated tools
--     Client         how the client of control_plane.py reads a response
--     Shape          args_meta of canonical.py
--     Canonical      _normalize, canonicalize and canonical_hash of canonical.py
--     Action         main.py: _record, refuse and _execute_action, _complete_quietly
--     Submission     main.py: submit_action and _approval_flow; Submission/Answers has the ways in
--                    which a submission may end
--   System         the gateway whose claims are answered by the executions of the control plane;
--                  System/Tokens has the tokens that one issues and the other reads
--   Tests          concrete inputs, runs, and the theorems at them
--
-- How the model stands to the code. A function of the program is a function of the same name; a
-- parameter that the code appends to is a component of the result; an exception is a value
-- (`Result`). A request to the control plane is one transaction: a function from the database to
-- an answer and a database, and an error leaves the database as it was (apps/api/src/phulax_api/
-- db.py rolls back). The clock and the uuids that are drawn are arguments. Concurrent requests
-- are interleaved statements in ControlPlane/Executions/AtMostOnce. The gateway keeps the list of
-- the calls with an effect that it made, the newest first; an exception that the framework turns
-- into a 500 is `raised 500`. All recursion is on the structure of the data, so nothing runs out
-- of fuel.
--
-- Parameters. The operations on floats are an instance `FloatOps`, where `of_int` may overflow as
-- Python's `float(n)` does; whether a character outside of ASCII is alphanumeric is an instance
-- `CharOps`. The gateway runs in a `World`, a record of what the control plane, the registry, the
-- JSON schema library, the hashes and the tools answer, where the answer to a call that has an
-- effect may depend on all such calls made before. A `Verifier` says which signatures verify_bundle of
-- signing.py accepts.
--
-- The control plane runs in an `Environment`: the YAML reader, the signature of a bundle, the hash
-- of a manifest, the check of a JSON schema, and two settings. The canonical form takes the JSON
-- text and SHA-256 as parameters, and the tests of a float as an instance `FloatForm`.
--
-- The foreign keys that a handler does not check itself make its request fail as the code does: a
-- 500, or the rollback of _create_pending. The tables keep rows in the order of their creation; two
-- events of one transaction, which share their time, keep the order in which they were written.
--
-- Not modelled: mappings whose keys are not strings, the wording of messages, the limits on the
-- lengths of texts in request bodies, YAML and JSON readers, the notification webhook, the signing
-- and decoding of tokens (a library does it), the latency of an event, transport errors of the HTTP
-- library, the HTML of the review pages, migrations and scripts, and the wiring of the services.
pub mod Prelude
pub mod Value
pub mod Policy
pub mod ControlPlane
pub mod Gateway
pub mod System
pub mod Tests
