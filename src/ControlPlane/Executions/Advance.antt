-- ===== src/ControlPlane/Executions/Advance.antt =====
-- A recorded outcome is final: no later statement changes it, and every later claim of its key
-- reads it.
use mathlib.Core.Path.{subst}
use phulax.Prelude.{
  ℕ, Bool, true, false, ◌&&◌, some, List, [], ◌∷◌, ◌≡◌, ◌∙◌, ap, sym, inl, inr, arith, Option-cases,
  ok, eq_iff,
}
use phulax.ControlPlane.Tables.{find, count_where}
use phulax.ControlPlane.Tables.Laws.{
  count-update_same, find-some, find-none_count, find_unique, find-update, find-append_some,
}
use phulax.ControlPlane.Db.{ExecutionState, succeeded, failed, Execution, Db}
use phulax.ControlPlane.Executions.{
  ExecutionClaim, ExecutionComplete, completed_state, completed, has_key, is_authorized_row,
  is_executing_row, insert_authorized, start_executing, finish_executing, claim_execution,
  complete_execution, record_execution_event,
}
use phulax.ControlPlane.Executions.AtMostOnce.{Statement, insert, start, finish, perform, has_id}
use phulax.ControlPlane.Executions.Outcomes.{IsUnique, claim_execution-answer}

abbrev pub is_final : ExecutionState → Bool
is_final succeeded = true
is_final failed = true
is_final _ = false

and_fst : (a b : Bool) → (a && b) ≡ true → a ≡ true
and_fst a b h = ground arith

module _ {J : Type 0} where
  unfoldable pub perform_all : List (Statement J) → List (Execution J) → List (Execution J)
  perform_all [] rows = rows
  perform_all (s ∷ ss) rows = perform_all ss (perform s rows)

  perform-final :
      (s : Statement J) (rows : List (Execution J)) (e : Execution J)
      → find (has_id e.id) rows ≡ some e
      → is_final e.state ≡ true
      → find (has_id e.id) (perform s rows) ≡ some e
  unfolding perform
  perform-final (insert n body) rows e found done = elim (Option-cases (find (has_key body) rows)) [
    | inl new ↦ rw (new, insert_authorized) (find-append_some (has_id e.id) rows _ e found)
    | inr (x, old) ↦ rw (old, insert_authorized) found
  ]
  perform-final (start n) rows e found done =
      unfold start_executing in
      (find-update (is_authorized_row n) (has_id e.id) _ rows (λ x. ground arith)
        ∙ rw found (ground arith))
  perform-final (finish n body) rows e found done =
      unfold finish_executing in
      (find-update (is_executing_row n) (has_id e.id) _ rows (λ x. ground arith)
        ∙ rw found (ground arith))

  -- Once an execution has succeeded or failed, no sequence of statements of claims and completions
  -- changes its row: not its state, and not its result.
  pub perform_all-final :
      (ss : List (Statement J)) (rows : List (Execution J)) (e : Execution J)
      → find (has_id e.id) rows ≡ some e
      → is_final e.state ≡ true
      → find (has_id e.id) (perform_all ss rows) ≡ some e
  unfolding perform_all
  perform_all-final [] rows e found done = found
  perform_all-final (s ∷ ss) rows e found done =
      perform_all-final ss (perform s rows) e (perform-final s rows e found done) done

  pub finish-IsUnique :
      (id : ℕ) (body : ExecutionComplete J) (rows : List (Execution J))
      → IsUnique rows
      → IsUnique (finish_executing id body rows)
  unfolding finish_executing
  finish-IsUnique id body rows u = record {
    ids = λ n.
        rw
          (count-update_same (is_executing_row id) (has_id n) (completed body) rows
            (λ x. ground arith))
          (u.ids n);
    keys = λ b.
        rw
          (count-update_same (is_executing_row id) (has_key b) (completed body) rows
            (λ x. ground arith))
          (u.keys b);
  }

  find-finish :
      (id : ℕ) (body : ExecutionComplete J) (rows : List (Execution J)) (x : Execution J)
      → find (has_id id) rows ≡ some x
      → is_executing_row id x ≡ true
      → find (has_id id) (finish_executing id body rows) ≡ some (completed body x)
  unfolding finish_executing
  find-finish id body rows x found running =
      find-update (is_executing_row id) (has_id id) (completed body) rows (λ y. ground arith)
      ∙ rw (found, running)

  executions-record_event :
      (e : Execution J) (db : Db J) → (record_execution_event e db).executions ≡ db.executions
  unfolding record_execution_event
  executions-record_event e db = ground arith

  -- The row that a completion finds, and what becomes of it.
  complete_execution-row :
      (id : ℕ) (body : ExecutionComplete J) (db db' : Db J) (e : Execution J)
      → IsUnique db.executions
      → complete_execution id body db ≡ ok (e, db')
      → (x : Execution J) × (find (has_id id) db.executions ≡ some x)
        × (e ≡ completed body x)
        × (db'.executions ≡ finish_executing id body db.executions)
        × (find (has_id id) (finish_executing id body db.executions) ≡ some (completed body x))
  unfolding complete_execution
  complete_execution-row id body db db' e u h =
      elim (Option-cases (find (is_executing_row id) db.executions)) [
        | inl idle ↦
            absurd (ground (arith, find-none_count (is_executing_row id) db.executions idle))
        | inr (x, running) ↦
            let found : find (has_id id) db.executions ≡ some x =
              find_unique (is_executing_row id) (has_id id) db.executions x running
                (and_fst _ _ (find-some (is_executing_row id) db.executions x running))
                (u.ids id) in
            let after : find (has_id id) (finish_executing id body db.executions)
                ≡ some (completed body x) =
              find-finish id body db.executions x found
                (find-some (is_executing_row id) db.executions x running) in
            (
              x,
              found,
              ground arith,
              ground (
                arith,
                executions-record_event (completed body x)
                    (record db { executions = finish_executing id body db.executions }),
              ),
              after,
            )
      ]

  -- On a table with unique ids and keys, and with a fresh uuid for the claim: after a completion has
  -- been recorded, every claim of the same key and canonical request is a
  -- duplicate: it is not claimed, it answers with the recorded state and result, and it changes
  -- nothing.
  pub claim_complete :
      (id new_id : ℕ) (body : ExecutionComplete J) (claim : ExecutionClaim) (db db' : Db J)
      (e : Execution J)
      → IsUnique db.executions
      → complete_execution id body db ≡ ok (e, db')
      → has_key claim e ≡ true
      → claim.canonical_hash ≡ e.canonical_hash
      → count_where (has_id new_id) db'.executions ≡ 0
      → claim_execution new_id claim db'
        ≡ ok (
          record {
            execution_id = e.id;
            claimed = false;
            state = completed_state body.state;
            result_meta = some body.result_meta;
          },
          db',
        )
  claim_complete id new_id body claim db db' e u h key hash fresh =
      let (x, found, same, rows, after) = complete_execution-row id body db db' e u h in
      let u' : IsUnique db'.executions =
        subst IsUnique (sym rows) (finish-IsUnique id body db.executions u) in
      let at_key : find (has_key claim) db'.executions ≡ some e = rw rows (
        find_unique (has_id id) (has_key claim) (finish_executing id body db.executions) e
          (after ∙ ap some (sym same)) key (rw rows at (u'.keys claim))) in
      claim_execution-answer new_id claim db' u' fresh
      ∙ ground (arith, at_key, same, (eq_iff e.canonical_hash claim.canonical_hash).1 (sym hash))
