-- ===== src/ControlPlane/Service/Moves.antt =====
-- The state machines of the rows of approvals and executions: how one request may move a row, and
-- which rows it may add.
use phulax.Prelude.{
  ℕ, ◌+◌, ◌≤◌, ◌<◌, String, Bool, true, false, some, List, [], ◌∷◌, ◌≡◌, ◌⊎◌, All, ◌==◌, str_eq,
}
use phulax.ControlPlane.Tables.{find, find_last, count_where}
use phulax.ControlPlane.Db.{
  pending, approved, expired, voided, authorized, executing, User, ActionRequest, Execution,
  Approval, Db, has_organization,
}
use phulax.ControlPlane.Executions.{
  ExecutionClaim, ExecutionComplete, has_key, new_execution, completed,
}
use phulax.ControlPlane.Executions.AtMostOnce.{has_id}
use phulax.ControlPlane.Executions.Outcomes.{IsUnique}
use phulax.ControlPlane.Approvals.{ApprovalResolve, new_approval, to_consumed, to_state, decided}
use phulax.ControlPlane.Approvals.Decisions.{MayDecide, decision_of}
use phulax.ControlPlane.Service.{
  Request, post_claim, post_complete, post_resolve, post_decision, post_form,
}
use phulax.ControlPlane.Service.Steps.{IsStep}

-- No row is lost and none overtakes another: each moves, and new rows follow.
pub data Rows {A : Type 0} (Move : A → A → Type 0) (New : A → Type 0)
    : List A → List A → Type 0 where
  added : {ys : List A} → All New ys → Rows Move New [] ys
  moved :
      {x y : A} {xs ys : List A} → Move x y → Rows Move New xs ys → Rows Move New (x ∷ xs) (y ∷ ys)

module _ {J : Type 0} where
  -- The approval is for this action of this session.
  pub record Binds (body : ApprovalResolve J) (a : Approval J) : Type 0 where
    pub org : a.org_id ≡ body.org_id
    pub hash : str_eq a.canonical_hash body.canonical_hash ≡ true
    pub session : a.session_id ≡ body.session_id

  -- The request is that decision.
  pub data Decides (now id user_id : ℕ) : Bool → Request J → Type 0 where
    by_call :
        (approve : Bool) → Decides now id user_id approve (post_decision now id user_id approve)
    by_form :
        (action : String)
        → Decides now id user_id (str_eq action "approve") (post_form now id user_id action)

  pub data IsApprovalMove (db : Db J) (r : Request J) : Approval J → Approval J → Type 0 where
    same : (a : Approval J) → IsApprovalMove db r a a
    -- APPROVED → CONSUMED, by the action that was approved, in time and under the same policy.
    consumes :
        (now new_id : ℕ) (body : ApprovalResolve J) (a : Approval J)
        → r ≡ post_resolve now new_id body
        → Binds body a
        → a.state ≡ approved
        → now < a.expires_at
        → str_eq a.policy_version body.policy_version ≡ true
        → IsApprovalMove db r a (to_consumed now a)
    -- APPROVED → VOIDED, when the policy has changed.
    voids :
        (now new_id : ℕ) (body : ApprovalResolve J) (a : Approval J)
        → r ≡ post_resolve now new_id body
        → Binds body a
        → a.state ≡ approved
        → now < a.expires_at
        → str_eq a.policy_version body.policy_version ≡ false
        → IsApprovalMove db r a (to_state voided a)
    -- PENDING or APPROVED → EXPIRED, when the time is over.
    expires :
        (now new_id : ℕ) (body : ApprovalResolve J) (a : Approval J)
        → r ≡ post_resolve now new_id body
        → Binds body a
        → (a.state ≡ pending) ⊎ (a.state ≡ approved)
        → a.expires_at ≤ now
        → IsApprovalMove db r a (to_state expired a)
    -- PENDING → APPROVED or REJECTED, as a user who may decide it says, in time.
    decides :
        (now user_id : ℕ) (approve : Bool) (u : User) (a : Approval J)
        → Decides now a.id user_id approve r
        → find (λ (v : User). v.id == user_id) db.users ≡ some u
        → MayDecide now a.id u a
        → IsApprovalMove db r a (decided (decision_of approve) u.id now a)

  -- A PENDING row for a recorded request.
  pub data IsRequested (ttl : ℕ) (db : Db J) (r : Request J) : Approval J → Type 0 where
    requested :
        (now new_id : ℕ) (body : ApprovalResolve J) (q : ActionRequest J)
        → r ≡ post_resolve now new_id body
        → find_last (λ (x : ActionRequest J). x.request_id == body.request_id) db.action_requests
          ≡ some q
        → IsRequested ttl db r (new_approval new_id q.id (now + ttl) body)

  pub data IsExecutionMove (r : Request J) : Execution J → Execution J → Type 0 where
    same : (e : Execution J) → IsExecutionMove r e e
    -- AUTHORIZED → EXECUTING, by a claim of its key for the same action.
    starts :
        (new_id : ℕ) (body : ExecutionClaim) (e : Execution J)
        → r ≡ post_claim new_id body
        → has_key body e ≡ true
        → str_eq e.canonical_hash body.canonical_hash ≡ true
        → e.state ≡ authorized
        → IsExecutionMove r e (record e { state = executing })
    -- EXECUTING → SUCCEEDED or FAILED, with the result, by a completion.
    finishes :
        (body : ExecutionComplete J) (e : Execution J)
        → r ≡ post_complete e.id body
        → e.state ≡ executing
        → IsExecutionMove r e (completed body e)

  -- A row that executes already, for a claim of a key that has none.
  pub data IsClaimed (db : Db J) (r : Request J) : Execution J → Type 0 where
    claims :
        (new_id : ℕ) (body : ExecutionClaim)
        → r ≡ post_claim new_id body
        → has_organization body.org_id db ≡ true
        → count_where (has_key body) db.executions ≡ 0
        → IsClaimed db r (record (new_execution new_id body) { state = executing })

  abbrev pub ApprovalRows : ℕ → Db J → Request J → List (Approval J) → Type 0
  ApprovalRows ttl db r rows = Rows (IsApprovalMove db r) (IsRequested ttl db r) db.approvals rows

  abbrev pub ExecutionRows : Db J → Request J → List (Execution J) → Type 0
  ExecutionRows db r rows = Rows (IsExecutionMove r) (IsClaimed db r) db.executions rows

  -- The ids are unique, and that of a claim is new.
  pub record IsSound (db : Db J) (r : Request J) : Type 0 where
    pub executions : IsUnique db.executions
    pub approvals : (id : ℕ) → count_where (λ (a : Approval J). a.id == id) db.approvals ≤ 1
    pub fresh :
        (new_id : ℕ) (body : ExecutionClaim)
        → r ≡ post_claim new_id body
        → count_where (has_id new_id) db.executions ≡ 0

  -- The step of the abstract control plane that a request takes.
  pub record IsTransition (ttl : ℕ) (db : Db J) (r : Request J) (db' : Db J) : Type 0 where
    pub step : IsStep db db'
    pub approvals : ApprovalRows ttl db r db'.approvals
    pub executions : ExecutionRows db r db'.executions
