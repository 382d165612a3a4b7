-- ===== src/ControlPlane/Service/Executed.antt =====
-- The routes of executions move the rows as their state machine says.
use mathlib.Core.Path.{subst}
use phulax.Prelude.{
  ℕ, true, some, [], ◌∷◌, ◌≡◌, ◌⊎◌, refl, sym, ap, inl, inr, arith, All-append, ◌==◌, str_eq,
  Option-cases, Bool-cases,
}
use phulax.Prelude.Perms.{All-map}
use phulax.ControlPlane.Tables.{find, count_where}
use phulax.ControlPlane.Tables.Laws.{find-none_count, find-some, find_unique}
use phulax.ControlPlane.Db.{
  authorized, executing, same_execution_state, Execution, Db, has_organization,
}
use phulax.ControlPlane.Executions.{
  ExecutionClaim, ExecutionComplete, has_key, new_execution, is_authorized_row, is_executing_row,
  completed, start_executing, finish_executing, claim_execution, complete_execution,
  record_execution_event,
}
use phulax.ControlPlane.Executions.AtMostOnce.{has_id}
use phulax.ControlPlane.Executions.Outcomes.{IsUnique, claim_execution-answer}
use phulax.ControlPlane.Approvals.History.{committed}
use phulax.ControlPlane.Service.{post_claim, post_complete}
use phulax.ControlPlane.Service.Moves.{
  IsExecutionMove, starts, finishes, IsClaimed, claims, ExecutionRows,
}
use phulax.ControlPlane.Service.Moved.{Rows-refl, Rows-update, Rows-append, All-of, unique-All}
use phulax.ControlPlane.Service.Kept.{Keeps-executions}

module _ {J : Type 0} where
  pub executions-record_event :
      (e : Execution J) (db : Db J) → (record_execution_event e db).executions ≡ db.executions
  unfolding record_execution_event
  executions-record_event e db = ground arith

  -- A completion.
  pub complete-executions :
      (id : ℕ) (body : ExecutionComplete J) (db : Db J)
      → ((committed db (complete_execution id body db)).executions ≡ db.executions)
        ⊎ ((committed db (complete_execution id body db)).executions
            ≡ finish_executing id body db.executions)
  unfolding complete_execution
  complete-executions id body db =
      let rows = finish_executing id body db.executions in
      elim (Bool-cases (count_where (is_executing_row id) db.executions == 1)) [
        | inr n ↦ elim (Option-cases (find (λ (r : Execution J). r.id == id) db.executions)) [
          | inl e ↦ inl (ground arith)
          | inr (r, e) ↦ inl (ground arith)
        ]
        | inl y ↦ elim (Option-cases (find (λ (r : Execution J). r.id == id) rows)) [
          | inl e ↦ inl (ground arith)
          | inr (r, e) ↦
              let noted = executions-record_event r (record db { executions = rows }) in
              inr (ground arith)
        ]
      ]

  pub complete-Rows :
      (id : ℕ) (body : ExecutionComplete J) (db : Db J)
      → ExecutionRows db
          (post_complete id body)
          (committed db (complete_execution id body db)).executions
  unfolding finish_executing
  complete-Rows id body db =
      let rows = ExecutionRows db (post_complete id body) in
      elim (complete-executions id body db) [
        | inl e ↦ Keeps-executions _ db _ e
        | inr e ↦ subst rows (sym e) (
            Rows-update _ _ (is_executing_row id) (completed body) db.executions
              IsExecutionMove.same
              (All-of _ db.executions (λ x y.
                let own : id ≡ x.id = ground arith in
                finishes body x (ap (λ i. post_complete i body) own) (ground arith))))
      ]

  pub start-Rows :
      (new_id : ℕ) (body : ExecutionClaim) (e : Execution J) (db : Db J)
      → IsUnique db.executions
      → find (has_key body) db.executions ≡ some e
      → str_eq e.canonical_hash body.canonical_hash ≡ true
      → ExecutionRows db (post_claim new_id body) (start_executing e.id db.executions)
  unfolding start_executing
  start-Rows new_id body e db u old same_hash =
      let own = find-some (has_key body) db.executions e old in
      let found =
        find_unique (has_key body) (has_id e.id) db.executions e old (ground arith) (u.ids e.id) in
      Rows-update _ _ (is_authorized_row e.id) (λ x. record x { state = executing }) db.executions
        IsExecutionMove.same
        (All-map
          (λ x k y.
            let one : e ≡ x = k (ground arith) in
            starts new_id body x refl (subst (λ z. has_key body z ≡ true) one own)
              (subst (λ z. str_eq z.canonical_hash body.canonical_hash ≡ true) one same_hash)
              (ground arith))
          db.executions (unique-All (has_id e.id) db.executions e (u.ids e.id) found))

  pub claim-Rows :
      (new_id : ℕ) (body : ExecutionClaim) (db : Db J)
      → IsUnique db.executions
      → count_where (has_id new_id) db.executions ≡ 0
      → ExecutionRows db
          (post_claim new_id body)
          (committed db (claim_execution new_id body db)).executions
  claim-Rows new_id body db u fresh =
      let rows = ExecutionRows db (post_claim new_id body) in
      let stays =
        Rows-refl _ (IsClaimed db (post_claim new_id body)) IsExecutionMove.same db.executions in
      let answered = claim_execution-answer new_id body db u fresh in
      elim (Option-cases (find (has_key body) db.executions)) [
        | inl absent ↦ elim (Bool-cases (has_organization body.org_id db)) [
          | inr n ↦ subst rows (ground arith) stays
          | inl y ↦
              let row = record (new_execution new_id body) { state = executing } in
              let new : IsClaimed db (post_claim new_id body) row =
                claims new_id body refl y (find-none_count (has_key body) db.executions absent) in
              subst rows (ground arith) (
                Rows-append _ _ (row ∷ []) (new, tt) stays
                  (λ ws k. All-append _ ws (row ∷ []) k (new, tt)))
        ]
        | inr (e, old) ↦ elim (Bool-cases (str_eq e.canonical_hash body.canonical_hash)) [
          | inr n ↦ subst rows (ground arith) stays
          | inl y ↦ elim (Bool-cases (same_execution_state e.state authorized)) [
            | inr n ↦ subst rows (ground arith) stays
            | inl z ↦ subst rows (ground arith) (start-Rows new_id body e db u old y)
          ]
        ]
      ]
