-- ===== src/Gateway/Submission/Authorized.antt =====
-- When a submission executes a tool: what was checked, recorded and decided before.
use phulax.Prelude.{
  ◌<◌, String, Bool, true, ◌≡◌, refl, none, some, List, [], ◌∷◌, str_eq, ok, arith, inl, inr, ◌⊎◌,
  Bool-cases, Option-cases, Result-cases,
}
use phulax.Value.{FloatOps}
use phulax.Policy.Rules.{allow, require_approval, Bundle}
use phulax.Policy.Engine.{Decision, evaluate}
use phulax.Gateway.Calls.{ActionEnvelope, Claims, RegisteredTool, Call, posted, World, executions}
use phulax.Gateway.Action.{record_event, refuse}
use phulax.Gateway.Submission.AtMostOnce.{executions-refuse_decision}
use phulax.Gateway.Submission.{
  primary_of, proceed, risk_of, policy_request, enforce, check_tool, same_identity, submit_action,
}
use phulax.Gateway.Submission.Consent.{HasConsent, event_of, proceed-HasConsent}

module _ {F : Type 0} ⦃ops : FloatOps F⦄ (world : World F) (envelope : ActionEnvelope F)
    (claims : Claims) where
  -- Everything that stands before an execution.
  pub record IsAuthorized (calls : List (Call F)) : Type 0 where
    pub hashed : String
    pub tool : RegisteredTool
    pub bundle : Bundle F
    pub revoked : Bool
    pub decision : Decision
    pub canonical :
        world.hash envelope.tool_name envelope.environment envelope.arguments ≡ some hashed
    pub identity : same_identity world envelope claims ≡ true
    pub environment : str_eq envelope.environment claims.environment ≡ true
    pub agent : world.get_agent claims.agent_id ≡ ok (some revoked)
    pub registered : world.get_tool claims.org_id envelope.tool_name ≡ ok (some tool)
    pub valid : world.validates tool envelope.arguments ≡ true
    pub policy : world.get_bundle claims.org_id ≡ some bundle
    pub decided :
        evaluate (policy_request world envelope claims) bundle (record { revoked = revoked })
        ≡ ok decision
    pub recorded :
        world.post_event calls
          (event_of world envelope claims hashed tool decision (risk_of world envelope claims tool))
        ≡ true
    pub consent :
        HasConsent world envelope claims hashed tool decision (risk_of world envelope claims tool) (
          posted
            (event_of world envelope claims hashed tool decision
              (risk_of world envelope claims tool))
            true
          ∷ calls)

  -- What `enforce` has to show.
  abbrev IsEnforced : String → RegisteredTool → Bundle F → Bool → List (Call F) → Type 0
  IsEnforced hashed tool bundle revoked calls =
      (d : Decision) × (evaluate (policy_request world envelope claims) bundle
          (record { revoked = revoked })
        ≡ ok d)
      × (world.post_event calls
            (event_of world envelope claims hashed tool d (risk_of world envelope claims tool))
          ≡ true)
      × HasConsent world envelope claims hashed tool d (risk_of world envelope claims tool) (
          posted (event_of world envelope claims hashed tool d (risk_of world envelope claims tool))
            true
          ∷ calls)

  enforce-IsEnforced :
      (hashed : String) (tool : RegisteredTool) (bundle : Bundle F) (revoked : Bool)
      (calls : List (Call F))
      → executions calls ≡ 0
      → 0 < executions (enforce world envelope claims hashed tool bundle revoked calls).1
      → IsEnforced hashed tool bundle revoked calls
  unfolding enforce
  enforce-IsEnforced hashed tool bundle revoked calls z h =
      elim (Result-cases
        (evaluate (policy_request world envelope claims) bundle (record { revoked = revoked }))) [
          | inr (x, e) ↦ absurd (ground arith)
          | inl (d, e) ↦
              let risk = risk_of world envelope claims tool in
              let refusal =
                executions-refuse_decision world envelope claims hashed (primary_of d) d risk
                  calls in
              let effect : (d.effect ≡ allow) ⊎ (d.effect ≡ require_approval) = ground arith in
              let run : 0 < executions (proceed world envelope claims hashed tool d risk calls).1 =
                ground arith in
              let (recorded, consent) =
                proceed-HasConsent world envelope claims hashed tool d risk calls effect z run in
              (d, e, recorded, consent)
        ]

  -- What `check_tool` has to show.
  abbrev IsChecked : String → Bool → List (Call F) → Type 0
  IsChecked hashed revoked calls =
      (tool : RegisteredTool) × (bundle : Bundle F) × (world.get_tool claims.org_id
          envelope.tool_name
        ≡ ok (some tool))
      × (world.validates tool envelope.arguments ≡ true)
      × (world.get_bundle claims.org_id ≡ some bundle)
      × IsEnforced hashed tool bundle revoked calls

  check_tool-IsChecked :
      (hashed : String) (revoked : Bool) (calls : List (Call F))
      → executions calls ≡ 0
      → 0 < executions (check_tool world envelope claims hashed revoked calls).1
      → IsChecked hashed revoked calls
  unfolding check_tool refuse record_event executions
  check_tool-IsChecked hashed revoked calls z h =
      elim (Result-cases (world.get_tool claims.org_id envelope.tool_name)) [
        | inr (x, e) ↦ absurd (ground arith)
        | inl (none, e) ↦ absurd (ground arith)
        | inl (some tool, e) ↦ elim (Bool-cases (world.validates tool envelope.arguments)) [
          | inr n ↦ absurd (ground arith)
          | inl y ↦ elim (Option-cases (world.get_bundle claims.org_id)) [
            | inl e' ↦ absurd (ground arith)
            | inr (bundle, e') ↦
                let run : 0
                    < executions
                        (enforce world envelope claims hashed tool bundle revoked calls).1 =
                  ground arith in
                (tool, bundle, e, y, e', enforce-IsEnforced hashed tool bundle revoked calls z run)
          ]
        ]
      ]

  -- A submission that executes a tool comes from the agent, the session, the version and the
  -- environment of the token; the agent and the tool are registered and the arguments fit the
  -- tool's schema; the decision of the engine under the bundle was recorded first; and it is
  -- allow, or it requires an approval that the control plane then consumed for this request.
  pub submit_action-IsAuthorized :
      0 < executions (submit_action world envelope claims []).1 → IsAuthorized []
  unfolding submit_action refuse record_event executions
  submit_action-IsAuthorized h =
      elim (Option-cases (world.hash envelope.tool_name envelope.environment envelope.arguments)) [
        | inl e ↦ absurd (ground arith)
        | inr (hashed, e) ↦ elim (Bool-cases (same_identity world envelope claims)) [
          | inr n ↦ absurd (ground arith)
          | inl i ↦ elim (Bool-cases (str_eq envelope.environment claims.environment)) [
            | inr n ↦ absurd (ground arith)
            | inl v ↦ elim (Result-cases (world.get_agent claims.agent_id)) [
              | inr (x, e') ↦ absurd (ground arith)
              | inl (none, e') ↦ absurd (ground arith)
              | inl (some revoked, e') ↦
                  let run : 0 < executions (check_tool world envelope claims hashed revoked []).1 =
                    ground arith in
                  let (tool, bundle, t, ok_args, b, enforced) =
                    check_tool-IsChecked hashed revoked [] refl run in
                  let (d, ev, recorded, consent) = enforced in
                  record {
                    hashed = hashed;
                    tool = tool;
                    bundle = bundle;
                    revoked = revoked;
                    decision = d;
                    canonical = e;
                    identity = i;
                    environment = v;
                    agent = e';
                    registered = t;
                    valid = ok_args;
                    policy = b;
                    decided = ev;
                    recorded = recorded;
                    consent = consent;
                  }
            ]
          ]
        ]
      ]
