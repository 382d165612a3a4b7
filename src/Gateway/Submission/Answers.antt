-- ===== src/Gateway/Submission/Answers.antt =====
-- The ways in which a submission may end: what it answers, and the calls that it makes.
use phulax.Prelude.{ℕ, String, Bool, true, false, ◌≡◌, none, some, List, ◌∷◌, ok, err, Result}
use phulax.Value.{Fields}
use phulax.ControlPlane.Db.{ExecutionState}
use phulax.ControlPlane.Executions.{ExecutionClaimOut}
use phulax.ControlPlane.Approvals.{ApprovalResolve, ApprovalResolveOut}
use phulax.Gateway.Calls.{
  ActionEnvelope, Claims, DecisionEvent, Failure, control_plane_error, execution_conflict, Call,
  posted, resolved, claimed, executed, completed, World,
}
use phulax.Gateway.Action.{Response, Outcome, responded, raised, claim_of}

-- Calls that only record the decision and ask for an approval.
pub data IsPrelude {F : Type 0} (calls : List (Call F)) : List (Call F) → Type 0 where
  begun : IsPrelude calls calls
  noted :
      {c : List (Call F)} (event : DecisionEvent) (recorded : Bool)
      → IsPrelude calls c
      → IsPrelude calls (posted event recorded ∷ c)
  asked :
      {c : List (Call F)} (request : ApprovalResolve (Fields F))
      (answer : Result Failure (ApprovalResolveOut (Fields F)))
      → IsPrelude calls c
      → IsPrelude calls (resolved request answer ∷ c)

module _ {F : Type 0} where
  -- The response shows the recorded outcome of an execution, and no result.
  abbrev pub IsReplay : ExecutionClaimOut String → Response F → Type 0
  IsReplay out r =
      (r.status ≡ 200)
      × (r.result ≡ none)
      × (r.duplicate ≡ some true)
      × (r.execution ≡ some (out.execution_id, out.state, out.result_meta))

  -- The response shows the result of an execution that was just made.
  abbrev pub IsFresh : ℕ → Fields F → String → Response F → Type 0
  IsFresh id result meta r =
      (r.status ≡ 200)
      × (r.result ≡ some result)
      × (r.duplicate ≡ some false)
      × (r.execution ≡ some (id, ExecutionState.succeeded, some meta))

  -- The response shows the result of an execution that no key protects.
  abbrev pub IsUnkeyed : Fields F → Response F → Type 0
  IsUnkeyed result r =
      (r.status ≡ 200) × (r.result ≡ some result) × (r.duplicate ≡ none) × (r.execution ≡ none)

  abbrev pub IsPending : Response F → Type 0
  IsPending r = (r.status ≡ 202) × (r.result ≡ none) × (r.duplicate ≡ none) × (r.execution ≡ none)

module _ {F : Type 0} (world : World F) (envelope : ActionEnvelope F) (claims : Claims)
    (calls : List (Call F)) where
  -- The outcome of a submission after `calls`, and the calls after it.
  pub data IsAnswered : Outcome F → List (Call F) → Type 0 where
    -- Nothing is claimed: an error, or an approval is waited for.
    refused :
        {c : List (Call F)} (status : ℕ) (rule : String)
        → IsPrelude calls c
        → IsAnswered (raised status rule) c
    waiting :
        {c : List (Call F)} (r : Response F)
        → IsPending r
        → IsPrelude calls c
        → IsAnswered (responded r) c
    -- The claim is not answered, or refused.
    unrecorded :
        {c : List (Call F)} (hashed key : String)
        → envelope.idempotency_key ≡ some key
        → IsPrelude calls c
        → IsAnswered
            (raised 502 "execution claim could not be recorded")
            (claimed (claim_of world envelope claims hashed key) (err control_plane_error) ∷ c)
    conflicting :
        {c : List (Call F)} (hashed key : String)
        → envelope.idempotency_key ≡ some key
        → IsPrelude calls c
        → IsAnswered
            (raised 409 "execution.key-reused")
            (claimed (claim_of world envelope claims hashed key) (err execution_conflict) ∷ c)
    -- The key is claimed already.
    duplicated :
        {c : List (Call F)} (hashed key : String) (out : ExecutionClaimOut String) (r : Response F)
        → envelope.idempotency_key ≡ some key
        → out.claimed ≡ false
        → IsReplay out r
        → IsPrelude calls c
        → IsAnswered
            (responded r)
            (claimed (claim_of world envelope claims hashed key) (ok out) ∷ c)
    -- The claim is granted: the tool runs, and its result is recorded if it has one.
    crashed :
        {c : List (Call F)} (hashed key : String) (out : ExecutionClaimOut String)
        → envelope.idempotency_key ≡ some key
        → out.claimed ≡ true
        → IsPrelude calls c
        → IsAnswered (raised 500 "executor") (
            completed out.execution_id ExecutionState.failed none
            ∷ executed envelope.tool_name envelope.arguments
            ∷ claimed (claim_of world envelope claims hashed key) (ok out)
            ∷ c)
    unhashed :
        {c : List (Call F)} (hashed key : String) (out : ExecutionClaimOut String)
        → envelope.idempotency_key ≡ some key
        → out.claimed ≡ true
        → IsPrelude calls c
        → IsAnswered (raised 500 "canonicalize") (
            executed envelope.tool_name envelope.arguments
            ∷ claimed (claim_of world envelope claims hashed key) (ok out)
            ∷ c)
    finished :
        {c : List (Call F)} (hashed key : String) (out : ExecutionClaimOut String) (r : Response F)
        (result : Fields F) (meta : String)
        → envelope.idempotency_key ≡ some key
        → out.claimed ≡ true
        → IsFresh out.execution_id result meta r
        → IsPrelude calls c
        → IsAnswered (responded r) (
            completed out.execution_id ExecutionState.succeeded (some meta)
            ∷ executed envelope.tool_name envelope.arguments
            ∷ claimed (claim_of world envelope claims hashed key) (ok out)
            ∷ c)
    -- There is no key: the tool runs, and nothing is recorded.
    broken :
        {c : List (Call F)}
        → envelope.idempotency_key ≡ none
        → IsPrelude calls c
        → IsAnswered (raised 500 "executor") (executed envelope.tool_name envelope.arguments ∷ c)
    ran :
        {c : List (Call F)} (r : Response F) (result : Fields F)
        → envelope.idempotency_key ≡ none
        → IsUnkeyed result r
        → IsPrelude calls c
        → IsAnswered (responded r) (executed envelope.tool_name envelope.arguments ∷ c)
