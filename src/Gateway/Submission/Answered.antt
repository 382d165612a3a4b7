-- ===== src/Gateway/Submission/Answered.antt =====
-- What a submission answers, by what the control plane says of its claim, if it makes one.
use mathlib.Core.Path.{subst}
use phulax.Prelude.{
  ℕ, String, Bool, true, false, ◌≡◌, refl, none, some, List, ◌∷◌, ok, err, arith, inl, inr, str_eq,
  Option-cases, Result-cases, Bool-cases,
}
use phulax.Value.{FloatOps, Fields}
use phulax.Policy.Rules.{Effect, deny, require_approval, freeze, Bundle}
use phulax.Policy.Engine.{Decision, evaluate}
use phulax.Policy.Risk.{RiskScore}
use phulax.ControlPlane.Db.{ExecutionState, Approval}
use phulax.ControlPlane.Executions.{ExecutionClaimOut}
use phulax.ControlPlane.Approvals.{Mode, was_consumed, was_pending, was_rejected}
use phulax.Gateway.Calls.{
  ActionEnvelope, Claims, RegisteredTool, control_plane_error, execution_conflict, Call, posted,
  resolved, claimed, World,
}
use phulax.Gateway.Action.{
  Response, Outcome, record_event, refuse, refuse_decision, claim_of, execute_claimed, execute_bare,
  execute_action,
}
use phulax.Gateway.Submission.{
  with_approval, resolution_of, follow, approval_flow, base_of, primary_of, preview_of, proceed,
  risk_of, policy_request, enforce, check_tool, same_identity, submit_action,
}
use phulax.Gateway.Submission.Consent.{event_of}
use phulax.Gateway.Submission.Answers.{
  IsPrelude, begun, noted, asked, IsAnswered, refused, waiting, unrecorded, conflicting, duplicated,
  crashed, unhashed, finished, broken, ran,
}

module _ {F : Type 0} (world : World F) (envelope : ActionEnvelope F) (claims : Claims)
    (calls : List (Call F)) where
  abbrev pub Answers : Outcome F × List (Call F) → Type 0
  Answers p = IsAnswered world envelope claims calls p.0 p.1

  with_approval-IsAnswered :
      (a : Approval (Fields F)) {o : Outcome F} {c : List (Call F)}
      → IsAnswered world envelope claims calls o c
      → IsAnswered world envelope claims calls (with_approval world envelope claims a o) c
  with_approval-IsAnswered a (refused status rule p) = refused status rule p
  with_approval-IsAnswered a (waiting r h p) = waiting _ h p
  with_approval-IsAnswered a (unrecorded hashed key k p) = unrecorded hashed key k p
  with_approval-IsAnswered a (conflicting hashed key k p) = conflicting hashed key k p
  with_approval-IsAnswered a (duplicated hashed key out r k e h p) =
      duplicated hashed key out _ k e h p
  with_approval-IsAnswered a (crashed hashed key out k e p) = crashed hashed key out k e p
  with_approval-IsAnswered a (unhashed hashed key out k e p) = unhashed hashed key out k e p
  with_approval-IsAnswered a (finished hashed key out r result meta k e h p) =
      finished hashed key out _ result meta k e h p
  with_approval-IsAnswered a (broken k p) = broken k p
  with_approval-IsAnswered a (ran r result k h p) = ran _ result k h p

  -- A response to which no branch has added anything.
  abbrev IsBase : Response F → Type 0
  IsBase r = (r.status ≡ 200) × (r.result ≡ none) × (r.duplicate ≡ none) × (r.execution ≡ none)

  execute_claimed-IsAnswered :
      (hashed key : String) (out : ExecutionClaimOut String) (base : Response F) (c : List (Call F))
      → envelope.idempotency_key ≡ some key
      → out.claimed ≡ true
      → IsBase base
      → IsPrelude calls c
      → Answers (
          execute_claimed world envelope claims out.execution_id base
            (claimed (claim_of world envelope claims hashed key) (ok out) ∷ c))
  unfolding execute_claimed
  execute_claimed-IsAnswered hashed key out base c keyed e b p =
      let c' : List (Call F) = claimed (claim_of world envelope claims hashed key) (ok out) ∷ c in
      elim (Option-cases (world.execute c' envelope.tool_name envelope.arguments)) [
        | inl h ↦ subst Answers (ground arith) (crashed hashed key out keyed e p)
        | inr (result, h) ↦ elim (Option-cases (world.hash_result result)) [
          | inl k ↦ subst Answers (ground arith) (unhashed hashed key out keyed e p)
          | inr (meta, k) ↦ subst Answers (ground arith) (
              finished hashed key out
                (record base {
                  result = some result;
                  duplicate = some false;
                  execution = some (out.execution_id, ExecutionState.succeeded, some meta);
                })
                result meta keyed e (b.0, refl, refl, refl) p)
        ]
      ]

  execute_bare-IsAnswered :
      (base : Response F) (c : List (Call F))
      → envelope.idempotency_key ≡ none
      → IsBase base
      → IsPrelude calls c
      → Answers (execute_bare world envelope claims base c)
  unfolding execute_bare
  execute_bare-IsAnswered base c e b p =
      elim (Option-cases (world.execute c envelope.tool_name envelope.arguments)) [
        | inl h ↦ subst Answers (ground arith) (broken e p)
        | inr (result, h) ↦
            subst Answers (ground arith)
              (ran (record base { result = some result }) result e (b.0, refl, b.2, b.3) p)
      ]

  execute_action-IsAnswered :
      (hashed : String) (base : Response F) (c : List (Call F))
      → IsBase base
      → IsPrelude calls c
      → Answers (execute_action world envelope claims hashed base c)
  unfolding execute_action
  execute_action-IsAnswered hashed base c b p = elim (Option-cases envelope.idempotency_key) [
    | inl e ↦ subst Answers (ground arith) (execute_bare-IsAnswered base c e b p)
    | inr (key, keyed) ↦
        let claim = claim_of world envelope claims hashed key in
        elim (Result-cases (world.claim_execution c claim)) [
          | inr (control_plane_error, e) ↦
              subst Answers (ground arith) (unrecorded hashed key keyed p)
          | inr (execution_conflict, e) ↦
              subst Answers (ground arith) (conflicting hashed key keyed p)
          | inl (out, e) ↦ elim (Bool-cases out.claimed) [
            | inr n ↦ subst Answers (ground arith) (
                duplicated hashed key out
                  (record base {
                    duplicate = some true;
                    execution = some (out.execution_id, out.state, out.result_meta);
                  })
                  keyed n (b.0, b.1, refl, refl) p)
            | inl y ↦
                subst Answers (ground arith)
                  (execute_claimed-IsAnswered hashed key out base c keyed y b p)
          ]
        ]
  ]

  follow-IsAnswered :
      (m : Mode) (a : Approval (Fields F)) (hashed : String) (base : Response F) (c : List (Call F))
      → IsBase base
      → IsPrelude calls c
      → Answers (follow world envelope claims m a hashed base c)
  unfolding follow
  follow-IsAnswered was_consumed a hashed base c b p =
      with_approval-IsAnswered a (execute_action-IsAnswered hashed base c b p)
  follow-IsAnswered was_rejected a hashed base c b p = refused 403 "APPROVAL_REJECTED" p
  follow-IsAnswered was_pending a hashed base c b p = waiting _ (refl, b.1, b.2, b.3) p

  approval_flow-IsAnswered :
      (hashed : String) (d : Decision) (risk : RiskScore) (preview : Fields F)
      (fields : List String) (base : Response F) (c : List (Call F))
      → IsBase base
      → IsPrelude calls c
      → Answers (approval_flow world envelope claims hashed d risk preview fields base c)
  unfolding approval_flow
  approval_flow-IsAnswered hashed d risk preview fields base c b p =
      elim (Option-cases d.approver_role) [
        | inl e ↦ subst Answers (ground arith) (refused 502 "approval could not be resolved" p)
        | inr (role, e) ↦
            let request = resolution_of world envelope claims hashed role d risk preview fields in
            elim (Result-cases (world.resolve_approval c request)) [
              | inr (x, k) ↦
                  subst Answers (ground arith)
                    (refused 502 "approval could not be resolved" (asked request (err x) p))
              | inl (out, k) ↦ subst Answers (ground arith) (
                  follow-IsAnswered out.mode out.approval hashed base
                    (resolved request (ok out) ∷ c) b (asked request (ok out) p))
            ]
      ]

  proceed-IsAnswered :
      (hashed : String) (tool : RegisteredTool) (d : Decision) (risk : RiskScore) (effect : Effect)
      → d.effect ≡ effect
      → Answers (proceed world envelope claims hashed tool d risk calls)
  unfolding proceed record_event
  proceed-IsAnswered hashed tool d risk effect same =
      let (preview, redacted_fields) = preview_of world envelope claims tool d.effect in
      let event = event_of world envelope claims hashed tool d risk in
      let base = base_of world envelope claims hashed (primary_of d) d risk in
      let recorded = world.post_event calls event in
      let c : List (Call F) = posted event recorded ∷ calls in
      let p : IsPrelude calls c = noted event recorded begun in
      let acted = execute_action-IsAnswered hashed base c (refl, refl, refl, refl) p in
      let asking =
        approval_flow-IsAnswered hashed d risk preview redacted_fields base c
          (refl, refl, refl, refl) p in
      elim (Bool-cases recorded) [
        | inr n ↦
            subst Answers (ground arith) (refused 502 "decision event could not be recorded" p)
        | inl y ↦
            (elim effect
                as (λ x.
                  d.effect ≡ x → Answers (proceed world envelope claims hashed tool d risk calls)) [
                    | require_approval ↦ λ e. subst Answers (ground arith) asking
                    | _ ↦ λ e. subst Answers (ground arith) acted
                  ])
              same
      ]

  refuse-IsAnswered :
      (hashed : String) (status : ℕ) (rule : String)
      → Answers (refuse world envelope claims hashed status rule calls)
  unfolding refuse record_event
  refuse-IsAnswered hashed status rule = refused status rule (noted _ _ begun)

  refuse_decision-IsAnswered :
      (hashed primary : String) (d : Decision) (risk : RiskScore)
      → Answers (refuse_decision world envelope claims hashed primary d risk calls)
  unfolding refuse_decision record_event
  refuse_decision-IsAnswered hashed primary d risk = refused 403 primary (noted _ _ begun)

module _ {F : Type 0} ⦃ops : FloatOps F⦄ (world : World F) (envelope : ActionEnvelope F)
    (claims : Claims) (calls : List (Call F)) where
  enforce-IsAnswered :
      (hashed : String) (tool : RegisteredTool) (bundle : Bundle F) (revoked : Bool)
      → Answers world envelope claims calls
          (enforce world envelope claims hashed tool bundle revoked calls)
  unfolding enforce
  enforce-IsAnswered hashed tool bundle revoked =
      let ends = Answers world envelope claims calls in
      elim (Result-cases
        (evaluate (policy_request world envelope claims) bundle (record { revoked = revoked }))) [
          | inr (x, e) ↦ subst ends (ground arith) (refused 500 "evaluate" begun)
          | inl (d, e) ↦
              let risk = risk_of world envelope claims tool in
              let denied =
                refuse_decision-IsAnswered world envelope claims calls hashed (primary_of d) d
                  risk in
              let gone =
                proceed-IsAnswered world envelope claims calls hashed tool d risk d.effect refl in
              (elim d.effect
                  as (λ x.
                    d.effect ≡ x
                    → ends (enforce world envelope claims hashed tool bundle revoked calls)) [
                      | deny ↦ λ k. subst ends (ground arith) denied
                      | freeze ↦ λ k. subst ends (ground arith) denied
                      | _ ↦ λ k. subst ends (ground arith) gone
                    ])
                refl
        ]

  check_tool-IsAnswered :
      (hashed : String) (revoked : Bool)
      → Answers world envelope claims calls (check_tool world envelope claims hashed revoked calls)
  unfolding check_tool
  check_tool-IsAnswered hashed revoked =
      let ends = Answers world envelope claims calls in
      let denied = refuse-IsAnswered world envelope claims calls hashed in
      elim (Result-cases (world.get_tool claims.org_id envelope.tool_name)) [
        | inr (x, e) ↦ subst ends (ground arith) (refused 500 "control plane" begun)
        | inl (none, e) ↦ subst ends (ground arith) (denied 403 "tool.unknown")
        | inl (some tool, e) ↦ elim (Bool-cases (world.validates tool envelope.arguments)) [
          | inr n ↦ subst ends (ground arith) (denied 403 "tool.args-schema")
          | inl y ↦ elim (Option-cases (world.get_bundle claims.org_id)) [
            | inl k ↦ subst ends (ground arith) (denied 503 "policy.bundle-unavailable")
            | inr (bundle, k) ↦
                subst ends (ground arith) (enforce-IsAnswered hashed tool bundle revoked)
          ]
        ]
      ]

  pub submit_action-IsAnswered :
      IsAnswered world envelope claims calls
        (submit_action world envelope claims calls).0
        (submit_action world envelope claims calls).1
  unfolding submit_action
  submit_action-IsAnswered =
      let ends = Answers world envelope claims calls in
      elim (Option-cases (world.hash envelope.tool_name envelope.environment envelope.arguments)) [
        | inl e ↦ subst ends (ground arith) (refused 500 "canonical_hash" begun)
        | inr (hashed, e) ↦
            let denied = refuse-IsAnswered world envelope claims calls hashed in
            elim (Bool-cases (same_identity world envelope claims)) [
              | inr n ↦ subst ends (ground arith) (denied 403 "identity.claims-mismatch")
              | inl y ↦ elim (Bool-cases (str_eq envelope.environment claims.environment)) [
                | inr n ↦ subst ends (ground arith) (denied 403 "identity.environment-mismatch")
                | inl z ↦ elim (Result-cases (world.get_agent claims.agent_id)) [
                  | inr (x, k) ↦ subst ends (ground arith) (refused 500 "control plane" begun)
                  | inl (none, k) ↦ subst ends (ground arith) (denied 403 "identity.agent-unknown")
                  | inl (some revoked, k) ↦
                      subst ends (ground arith) (check_tool-IsAnswered hashed revoked)
                ]
              ]
            ]
      ]
