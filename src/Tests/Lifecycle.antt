-- ===== src/Tests/Lifecycle.antt =====
-- Executions: a small history of statements, and the theorems at it.
use phulax.Prelude.{ℕ, ◌≤◌, true, false, ◌≡◌, refl, none, some, List, [], ◌∷◌, ok, arith}
use phulax.ControlPlane.Tables.{find, count_where}
use phulax.ControlPlane.Db.{empty_db, executing, succeeded, Execution, Db}
use phulax.ControlPlane.Executions.{
  ExecutionClaim, ExecutionClaimOut, ExecutionComplete, Completion, has_key, new_execution,
  start_executing, claim_execution, complete_execution, completed,
}
use phulax.ControlPlane.Executions.AtMostOnce.{
  Statement, insert, start, finish, AllFresh, total_wins, has_id, total_wins-le,
}
use phulax.ControlPlane.Executions.Outcomes.{IsUnique, claim_execution-answer}
use phulax.ControlPlane.Executions.Advance.{perform_all, perform_all-final, claim_complete}

abbrev claim : ExecutionClaim
claim = record { org_id = 1; idempotency_key = "k"; request_id = 7; canonical_hash = "h" }

abbrev done : ExecutionComplete ℕ
done = record { state = Completion.succeeded; result_meta = 5 }

-- Two callers claim the same key; one of them completes.
abbrev history : List (Statement ℕ)
history = insert 10 claim ∷ insert 11 claim ∷ start 10 ∷ start 10 ∷ finish 10 done ∷ start 10 ∷ []

total_wins_runs : total_wins 10 history [] ≡ 1
unfolding total_wins count_where phulax.ControlPlane.Executions.AtMostOnce.perform find
    phulax.ControlPlane.Tables.update_where
total_wins_runs = refl

total_wins-fresh : AllFresh history []
unfolding count_where phulax.ControlPlane.Executions.AtMostOnce.perform find
    phulax.ControlPlane.Tables.update_where
total_wins-fresh = (refl, (refl, (tt, (tt, (tt, (tt, tt))))))

total_wins-le_example : total_wins 10 history [] ≤ 1
total_wins-le_example = total_wins-le 10 history [] total_wins-fresh

abbrev empty : Db ℕ
empty = record empty_db { organizations = record { id = 1; name = "demo" } ∷ [] }

abbrev finished : Execution ℕ
finished = completed done (new_execution 10 claim)

perform_all-final_example :
    find
      (has_id 10)
      (perform_all (start 10 ∷ insert 11 claim ∷ finish 10 done ∷ []) (finished ∷ []))
    ≡ some finished
unfolding find
perform_all-final_example =
    perform_all-final (start 10 ∷ insert 11 claim ∷ finish 10 done ∷ []) (finished ∷ []) finished
      refl refl

empty-IsUnique : IsUnique empty.executions
unfolding count_where
empty-IsUnique = record { ids = λ n. omega arith; keys = λ b. omega arith }

claim_execution-answer_example :
    claim_execution 10 claim empty
    ≡ ok (
      record { execution_id = 10; claimed = true; state = executing; result_meta = none },
      record empty { executions = record (new_execution 10 claim) { state = executing } ∷ [] },
    )
unfolding find count_where
claim_execution-answer_example = claim_execution-answer 10 claim empty empty-IsUnique refl

-- One execution that runs.
abbrev running : Db ℕ
running = record empty { executions = record (new_execution 10 claim) { state = executing } ∷ [] }

abbrev closed : Db ℕ
closed = record empty { executions = finished ∷ [] }

running-IsUnique : IsUnique running.executions
unfolding count_where
running-IsUnique = record { ids = λ n. ground arith; keys = λ b. ground arith }

complete_execution_runs : complete_execution 10 done running ≡ ok (finished, closed)
unfolding complete_execution count_where find phulax.ControlPlane.Executions.finish_executing
    phulax.ControlPlane.Tables.update_where phulax.ControlPlane.Executions.record_execution_event
    phulax.ControlPlane.Tables.find_last
complete_execution_runs = refl

claim_complete_example :
    claim_execution 12 claim closed
    ≡ ok (
      record { execution_id = 10; claimed = false; state = succeeded; result_meta = some 5 },
      closed,
    )
unfolding count_where
claim_complete_example =
    claim_complete 10 12 done claim running closed finished running-IsUnique complete_execution_runs
      refl refl refl
