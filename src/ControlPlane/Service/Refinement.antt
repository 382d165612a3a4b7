-- ===== src/ControlPlane/Service/Refinement.antt =====
-- The routes implement the abstract control plane.
use mathlib.Core.Path.{subst}
use phulax.ControlPlane.Review.{approval_decide}
use phulax.Prelude.{
  ℕ, String, inl, inr, arith, str_eq, Result-cases, List, [], ◌∷◌, ◌≡◌, refl, Result, ok, err,
}
use phulax.Value.{Value}
use phulax.Policy.Schema.Conditions.{CharOps}
use phulax.ControlPlane.Db.{Db, HttpError}
use phulax.ControlPlane.Registry.Orgs.{create_organization, create_user}
use phulax.ControlPlane.Registry.Agents.{register_agent, add_version, revoke_agent}
use phulax.ControlPlane.Registry.Tools.{register_tool}
use phulax.ControlPlane.Registry.Sessions.{create_session}
use phulax.ControlPlane.Policies.{publish_bundle}
use phulax.ControlPlane.Events.{ingest_event}
use phulax.ControlPlane.Executions.{claim_execution, complete_execution}
use phulax.ControlPlane.Approvals.{resolve_approval, decide_approval}
use phulax.ControlPlane.Approvals.History.{committed}
use phulax.ControlPlane.Service.{
  Environment, Request, post_organization, post_user, post_agent, post_version, post_revoke,
  post_tool, post_session, post_bundle, post_event, post_claim, post_complete, post_resolve,
  post_decision, post_form, handle, handle_all,
}
use phulax.ControlPlane.Service.Steps.{IsStep, unchanged}
use phulax.ControlPlane.Service.Registered.{
  create_organization-IsStep, create_user-IsStep, register_agent-IsStep, add_version-IsStep,
  revoke_agent-IsStep, register_tool-IsStep, create_session-IsStep, publish_bundle-IsStep,
}
use phulax.ControlPlane.Service.Recorded.{
  ingest_event-IsStep, claim_execution-IsStep, complete_execution-IsStep,
}
use phulax.ControlPlane.Service.Approved.{resolve_approval-IsStep, decide_approval-IsStep}

committed-IsStep :
    {J A : Type 0} (db : Db J) (r : Result HttpError (A × Db J))
    → ((out : A) (db' : Db J) → r ≡ ok (out, db') → IsStep db db')
    → IsStep db (committed db r)
committed-IsStep db (err e) h = unchanged
committed-IsStep db (ok (out, db')) h = h out db' refl

approval_decide-IsStep :
    {J : Type 0} (now approval_id user_id : ℕ) (action : String) (db : Db J)
    → IsStep db (approval_decide now approval_id user_id action db).1
unfolding approval_decide
approval_decide-IsStep now approval_id user_id action db =
    elim (Result-cases (decide_approval now approval_id user_id (str_eq action "approve") db)) [
      | inr (e, k) ↦ subst (IsStep db) (ground arith) unchanged
      | inl ((out, db'), k) ↦
          subst (IsStep db) (ground arith)
            (decide_approval-IsStep now approval_id user_id (str_eq action "approve") out db db' k)
    ]

module _ {F : Type 0} ⦃chars : CharOps⦄ (env : Environment (Value F)) where
  -- Every request to a route that writes takes one step of the abstract control plane, whatever
  -- it is, whenever it arrives, and whether it is accepted or not.
  pub handle-IsStep : (r : Request (Value F)) (db : Db (Value F)) → IsStep db (handle env r db)
  unfolding handle
  handle-IsStep (post_organization new_id name) db =
      committed-IsStep db (create_organization new_id name db)
        (λ out. create_organization-IsStep new_id name out db)
  handle-IsStep (post_user new_id body) db =
      committed-IsStep db (create_user new_id body db)
        (λ out. create_user-IsStep new_id body out db)
  handle-IsStep (post_agent agent_id version_id body) db =
      committed-IsStep db (register_agent env.hash_manifest agent_id version_id body db)
        (λ out. register_agent-IsStep env.hash_manifest agent_id version_id body out db)
  handle-IsStep (post_version new_id agent_id body) db =
      committed-IsStep db (add_version env.hash_manifest new_id agent_id body db)
        (λ out. add_version-IsStep env.hash_manifest new_id agent_id body out db)
  handle-IsStep (post_revoke now agent_id) db =
      committed-IsStep db (revoke_agent now agent_id db)
        (λ out. revoke_agent-IsStep now agent_id out db)
  handle-IsStep (post_tool new_id body) db =
      committed-IsStep db (register_tool env.is_schema new_id body db)
        (λ out. register_tool-IsStep env.is_schema new_id body out db)
  handle-IsStep (post_session now new_id agent_version_id environment) db =
      committed-IsStep db (create_session now new_id agent_version_id environment db)
        (λ out. create_session-IsStep now new_id agent_version_id environment out db)
  handle-IsStep (post_bundle new_id body) db =
      committed-IsStep db
        (publish_bundle env.load_yaml env.policy_signing_key env.sign new_id body db)
        (λ out.
          publish_bundle-IsStep env.load_yaml env.policy_signing_key env.sign new_id body out db)
  handle-IsStep (post_event new_id body) db =
      committed-IsStep db (ingest_event new_id body db)
        (λ out. ingest_event-IsStep new_id body out db)
  handle-IsStep (post_claim new_id body) db =
      committed-IsStep db (claim_execution new_id body db)
        (λ out. claim_execution-IsStep new_id body out db)
  handle-IsStep (post_complete id body) db =
      committed-IsStep db (complete_execution id body db)
        (λ out. complete_execution-IsStep id body out db)
  handle-IsStep (post_resolve now new_id body) db =
      committed-IsStep db (resolve_approval now env.approval_ttl_seconds new_id body db)
        (λ out. resolve_approval-IsStep now env.approval_ttl_seconds new_id body out db)
  handle-IsStep (post_decision now approval_id user_id approve) db =
      committed-IsStep db (decide_approval now approval_id user_id approve db)
        (λ out. decide_approval-IsStep now approval_id user_id approve out db)
  handle-IsStep (post_form now approval_id user_id action) db =
      approval_decide-IsStep now approval_id user_id action db

  -- What every step of the abstract control plane keeps holds after any requests.
  pub handle_all-keeps {ℓ} :
      (P : Db (Value F) → Type ℓ) (requests : List (Request (Value F))) (db : Db (Value F))
      → ((d d' : Db (Value F)) → P d → IsStep d d' → P d')
      → P db
      → P (handle_all env requests db)
  unfolding handle_all
  handle_all-keeps P [] db keeps h = h
  handle_all-keeps P (r ∷ requests) db keeps h =
      handle_all-keeps P requests (handle env r db) keeps
        (keeps db (handle env r db) h (handle-IsStep r db))
