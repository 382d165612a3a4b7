-- ===== src/Gateway/Submission/Consent.antt =====
-- When a recorded decision leads to an execution: it is allowed, or an approval is consumed.
use phulax.Prelude.{
  ◌<◌, String, true, ◌≡◌, refl, some, List, ◌∷◌, ok, arith, inl, inr, ◌⊎◌, Bool-cases, Option-cases,
  Result-cases,
}
use phulax.Value.{Fields}
use phulax.Policy.Rules.{allow, require_approval}
use phulax.Policy.Engine.{Decision}
use phulax.Policy.Risk.{RiskScore}
use phulax.ControlPlane.Db.{Approval}
use phulax.ControlPlane.Approvals.{
  ApprovalResolveOut, Mode, was_consumed, was_pending, was_rejected,
}
use phulax.Gateway.Calls.{
  ActionEnvelope, Claims, RegisteredTool, DecisionEvent, Call, posted, resolved, World, executions,
}
use phulax.Gateway.Action.{Response, decision_event, record_event}
use phulax.Gateway.Submission.{
  resolution_of, follow, approval_flow, base_of, primary_of, preview_of, proceed,
}

module _ {F : Type 0} (world : World F) (envelope : ActionEnvelope F) (claims : Claims) where
  -- The policy allows the action, or requires an approval that the control plane consumed for it.
  abbrev pub HasConsent : String → RegisteredTool → Decision → RiskScore → List (Call F) → Type 0
  HasConsent hashed tool d risk calls =
      (d.effect ≡ allow)
      ⊎ ((d.effect ≡ require_approval)
          × (role : String) × (out : ApprovalResolveOut (Fields F)) × (d.approver_role ≡ some role)
          × (world.resolve_approval calls (
                resolution_of world envelope claims hashed role d risk
                  (preview_of world envelope claims tool d.effect).0
                  (preview_of world envelope claims tool d.effect).1)
              ≡ ok out)
          × (out.mode ≡ was_consumed))

  abbrev pub event_of : String → RegisteredTool → Decision → RiskScore → DecisionEvent
  event_of hashed tool d risk =
      decision_event world envelope claims hashed d.effect (primary_of d) d.reason_codes
        d.matched_rules (some risk.score) (some d.policy_version)
        (preview_of world envelope claims tool d.effect).1

  follow-consumed :
      (m : Mode) (a : Approval (Fields F)) (hashed : String) (base : Response F)
      (calls : List (Call F))
      → executions calls ≡ 0
      → 0 < executions (follow world envelope claims m a hashed base calls).1
      → m ≡ was_consumed
  unfolding follow
  follow-consumed was_consumed a hashed base calls z h = refl
  follow-consumed was_pending a hashed base calls z h = absurd (omega arith)
  follow-consumed was_rejected a hashed base calls z h = absurd (omega arith)

  approval_flow-consumed :
      (hashed : String) (d : Decision) (risk : RiskScore) (preview : Fields F)
      (fields : List String) (base : Response F) (calls : List (Call F))
      → executions calls ≡ 0
      → 0
        < executions (approval_flow world envelope claims hashed d risk preview fields base calls).1
      → (role : String) × (out : ApprovalResolveOut (Fields F)) × (d.approver_role ≡ some role)
        × (world.resolve_approval calls
              (resolution_of world envelope claims hashed role d risk preview fields)
            ≡ ok out)
        × (out.mode ≡ was_consumed)
  unfolding approval_flow executions
  approval_flow-consumed hashed d risk preview fields base calls z h =
      elim (Option-cases d.approver_role) [
        | inl e ↦ absurd (ground arith)
        | inr (role, e) ↦
            let request = resolution_of world envelope claims hashed role d risk preview fields in
            elim (Result-cases (world.resolve_approval calls request)) [
              | inr (x, e') ↦ absurd (ground arith)
              | inl (out, e') ↦ (
                role,
                out,
                e,
                e',
                follow-consumed out.mode out.approval hashed base
                    (resolved request (ok out) ∷ calls) z (ground arith),
              )
            ]
      ]

  pub proceed-HasConsent :
      (hashed : String) (tool : RegisteredTool) (d : Decision) (risk : RiskScore)
      (calls : List (Call F))
      → (d.effect ≡ allow) ⊎ (d.effect ≡ require_approval)
      → executions calls ≡ 0
      → 0 < executions (proceed world envelope claims hashed tool d risk calls).1
      → (world.post_event calls (event_of hashed tool d risk) ≡ true)
        × HasConsent hashed tool d risk (posted (event_of hashed tool d risk) true ∷ calls)
  unfolding proceed record_event executions
  proceed-HasConsent hashed tool d risk calls effect z h =
      elim (Bool-cases (world.post_event calls (event_of hashed tool d risk))) [
        | inr n ↦ absurd (ground arith)
        | inl y ↦ elim effect [
          | inl a ↦ (y, inl a)
          | inr r ↦
              let (role, out, e, e', m) =
                approval_flow-consumed hashed d risk
                  (preview_of world envelope claims tool d.effect).0
                  (preview_of world envelope claims tool d.effect).1
                  (base_of world envelope claims hashed (primary_of d) d risk)
                  (posted (event_of hashed tool d risk) true ∷ calls) z (ground arith) in
              (y, inr (r, role, out, e, e', m))
        ]
      ]
