-- ===== src/ControlPlane/Service/Frames.antt =====
-- The tables that a route may change.
use phulax.Prelude.{ℕ, String, Bool, Option, ◌≡◌, arith, str_eq}
use phulax.Value.{Value}
use phulax.Policy.Schema.Conditions.{CharOps}
use phulax.ControlPlane.Db.{Db}
use phulax.ControlPlane.Executions.{
  ExecutionClaim, ExecutionComplete, claim_execution, complete_execution, record_execution_event,
  claim_row,
}
use phulax.ControlPlane.Approvals.{
  resolve_approval, decide_approval, resolve_open, create_pending, existing_pending,
  void_and_expire, decide_row, ApprovalResolve,
}
use phulax.ControlPlane.Approvals.History.{committed}
use phulax.ControlPlane.Review.{approval_decide}
use phulax.ControlPlane.Policies.{BundlePublish, publish_bundle, insert_bundle}
use phulax.ControlPlane.Events.{EventIngest, ingest_event}

module _ {J : Type 0} where
  pub ingest_event-IsFramed :
      (new_id : ℕ) (body : EventIngest J) (db : Db J)
      → let db' = committed db (ingest_event new_id body db) in
        db' ≡ record db { action_requests = db'.action_requests; events = db'.events }
  unfolding ingest_event
  ingest_event-IsFramed new_id body db = ground arith

  pub claim_execution-IsFramed :
      (new_id : ℕ) (body : ExecutionClaim) (db : Db J)
      → let db' = committed db (claim_execution new_id body db) in
        db' ≡ record db { executions = db'.executions }
  unfolding claim_execution claim_row
  claim_execution-IsFramed new_id body db = ground arith

  pub complete_execution-IsFramed :
      (id : ℕ) (body : ExecutionComplete J) (db : Db J)
      → let db' = committed db (complete_execution id body db) in
        db' ≡ record db { executions = db'.executions; events = db'.events }
  unfolding complete_execution record_execution_event
  complete_execution-IsFramed id body db = ground arith

  pub resolve_approval-IsFramed :
      (now ttl new_id : ℕ) (body : ApprovalResolve J) (db : Db J)
      → let db' = committed db (resolve_approval now ttl new_id body db) in
        db' ≡ record db { approvals = db'.approvals; events = db'.events }
  unfolding resolve_approval resolve_open create_pending existing_pending void_and_expire
  resolve_approval-IsFramed now ttl new_id body db = ground arith

  pub decide_approval-IsFramed :
      (now id user_id : ℕ) (approve : Bool) (db : Db J)
      → let db' = committed db (decide_approval now id user_id approve db) in
        db' ≡ record db { approvals = db'.approvals; events = db'.events }
  unfolding decide_approval decide_row
  decide_approval-IsFramed now id user_id approve db = ground arith

  pub approval_decide-IsFramed :
      (now id user_id : ℕ) (action : String) (db : Db J)
      → let db' = (approval_decide now id user_id action db).1 in
        db' ≡ record db { approvals = db'.approvals; events = db'.events }
  unfolding approval_decide
  approval_decide-IsFramed now id user_id action db =
      ground (arith, decide_approval-IsFramed now id user_id (str_eq action "approve") db)

module _ {F : Type 0} ⦃chars : CharOps⦄ where
  pub publish_bundle-IsFramed :
      (load_yaml : String → Option (Value F)) (key : String) (sign : String → ℕ → Value F → String)
      (new_id : ℕ) (body : BundlePublish) (db : Db (Value F))
      → let db' = committed db (publish_bundle load_yaml key sign new_id body db) in
        db' ≡ record db { policy_bundles = db'.policy_bundles }
  unfolding publish_bundle insert_bundle
  publish_bundle-IsFramed load_yaml key sign new_id body db = ground arith
