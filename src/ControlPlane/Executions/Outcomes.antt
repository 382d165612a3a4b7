-- ===== src/ControlPlane/Executions/Outcomes.antt =====
-- What a claim answers, and the uniqueness that it rests on.
use mathlib.Core.Option.{some-injective}
use text.Mathlib.TextPositions.{eq_refl}
use phulax.Prelude.{
  ℕ, ◌≤◌, Bool, true, false, ◌&&◌, none, some, List, [], ◌∷◌, ◌++◌, ◌≡◌, refl, ◌∙◌, ap, sym, inl,
  inr, arith, ◌==◌, if◌then◌else◌, Option-cases, Result, ok, err, str_eq,
}
use phulax.ControlPlane.Tables.{find, update_where, count_where}
use phulax.ControlPlane.Tables.Laws.{
  any-find, any-find-none, count-append, count-le, find-some, find_unique, find-update, find-append,
  update-append, find-count_pos, count-none-find, update-none, find-none_count,
}
use phulax.ControlPlane.Db.{
  has_organization, authorized, executing, same_execution_state, Execution, Db, HttpError,
}
use phulax.ControlPlane.Executions.{
  ExecutionClaim, ExecutionClaimOut, has_key, is_authorized_row, new_execution, start_executing,
  claim_row, claim_execution,
}
use phulax.ControlPlane.Executions.AtMostOnce.{has_id}

and_snd : (a b : Bool) → (a && b) ≡ true → b ≡ true
and_snd a b h = ground arith

module _ {J : Type 0} where
  -- The primary key and the unique key of the table.
  pub record IsUnique (rows : List (Execution J)) : Type 0 where
    pub ids : (id : ℕ) → count_where (has_id id) rows ≤ 1
    pub keys : (body : ExecutionClaim) → count_where (has_key body) rows ≤ 1

  -- The answer to a claim that finds the row `e` for its key.
  abbrev pub answer :
      ExecutionClaim → Execution J → Db J → Result HttpError (ExecutionClaimOut J × Db J)
  answer body e db =
      if str_eq e.canonical_hash body.canonical_hash
      then (if same_execution_state e.state authorized
          then ok (
            record {
              execution_id = e.id;
              claimed = true;
              state = executing;
              result_meta = e.result_meta;
            },
            record db { executions = start_executing e.id db.executions },
          )
          else ok (
            record {
              execution_id = e.id;
              claimed = false;
              state = e.state;
              result_meta = e.result_meta;
            },
            db,
          ))
      else err (record { status = 409; code = "execution.key-reused" })

  find-start :
      (rows : List (Execution J)) (e : Execution J)
      → find (has_id e.id) rows ≡ some e
      → find (has_id e.id) (start_executing e.id rows)
        ≡ some (if is_authorized_row e.id e then record e { state = executing } else e)
  unfolding start_executing
  find-start rows e found =
      find-update (is_authorized_row e.id) (has_id e.id) _ rows (λ x. ground arith) ∙ rw found

  authorized_count :
      (rows : List (Execution J)) (e : Execution J)
      → find (has_id e.id) rows ≡ some e
      → count_where (has_id e.id) rows ≤ 1
      → e.state ≡ authorized
      → count_where (is_authorized_row e.id) rows ≡ 1
  authorized_count rows e found unique open_ = omega (
    arith,
    count-le (is_authorized_row e.id) (has_id e.id) rows (λ x h. ground arith),
    find-count_pos (has_id e.id) (is_authorized_row e.id) rows e found (ground arith),
  )

  closed_count :
      (rows : List (Execution J)) (e : Execution J)
      → find (has_id e.id) rows ≡ some e
      → count_where (has_id e.id) rows ≤ 1
      → same_execution_state e.state authorized ≡ false
      → count_where (is_authorized_row e.id) rows ≡ 0
  closed_count rows e found unique closed =
      elim (Option-cases (find (is_authorized_row e.id) rows)) [
        | inl none_open ↦ find-none_count (is_authorized_row e.id) rows none_open
        | inr (x, open_row) ↦
            let y : is_authorized_row e.id x ≡ true =
              find-some (is_authorized_row e.id) rows x open_row in
            let same : find (has_id e.id) rows ≡ some x =
              find_unique (is_authorized_row e.id) (has_id e.id) rows x open_row (ground arith)
                unique in
            absurd (
              cc (
                ap (λ (z : Execution J). same_execution_state z.state authorized)
                    (some-injective e x (sym found ∙ same)),
                closed,
                and_snd (x.id == e.id) (same_execution_state x.state authorized) y,
              ))
      ]

  start-closed :
      (rows : List (Execution J)) (e : Execution J)
      → find (has_id e.id) rows ≡ some e
      → count_where (has_id e.id) rows ≤ 1
      → same_execution_state e.state authorized ≡ false
      → start_executing e.id rows ≡ rows
  unfolding start_executing
  start-closed rows e found unique closed =
      update-none (is_authorized_row e.id) _ rows (closed_count rows e found unique closed)

  claim_row-open :
      (rows : List (Execution J)) (db : Db J) (e : Execution J)
      → find (has_id e.id) rows ≡ some e
      → count_where (has_id e.id) rows ≤ 1
      → e.state ≡ authorized
      → claim_row e.id rows db
        ≡ ok (
          record {
            execution_id = e.id;
            claimed = true;
            state = executing;
            result_meta = e.result_meta;
          },
          record db { executions = start_executing e.id rows },
        )
  unfolding claim_row
  claim_row-open rows db e found unique open_ =
      ground (arith, find-start rows e found, authorized_count rows e found unique open_)

  claim_row-closed :
      (rows : List (Execution J)) (db : Db J) (e : Execution J)
      → find (has_id e.id) rows ≡ some e
      → count_where (has_id e.id) rows ≤ 1
      → same_execution_state e.state authorized ≡ false
      → claim_row e.id rows db
        ≡ ok (
          record {
            execution_id = e.id;
            claimed = false;
            state = e.state;
            result_meta = e.result_meta;
          },
          record db { executions = rows },
        )
  unfolding claim_row
  claim_row-closed rows db e found unique closed = ground (
    arith,
    find-start rows e found,
    start-closed rows e found unique closed,
    closed_count rows e found unique closed,
  )

  found_new :
      (new_id : ℕ) (body : ExecutionClaim) (rows : List (Execution J))
      → find (has_key body) rows ≡ none
      → find (has_key body) (rows ++ (new_execution new_id body ∷ []))
        ≡ some (new_execution new_id body)
  unfolding find
  found_new new_id body rows new =
      find-append (has_key body) rows _ new ∙ ground (arith, eq_refl body.idempotency_key)

  start-new :
      (new_id : ℕ) (body : ExecutionClaim) (rows : List (Execution J))
      → count_where (has_id new_id) rows ≡ 0
      → start_executing new_id (rows ++ (new_execution new_id body ∷ []))
        ≡ rows ++ (record (new_execution new_id body) { state = executing } ∷ [])
  unfolding start_executing update_where
  start-new new_id body rows fresh =
      update-append (is_authorized_row new_id) _ rows (new_execution new_id body ∷ [])
      ∙ (rw
          (update-none (is_authorized_row new_id) (λ e. record e { state = executing }) rows
            (omega (
              arith,
              count-le (is_authorized_row new_id) (has_id new_id) rows (λ x h. ground arith),
            )))
          (ground arith))

  claim_new :
      (new_id : ℕ) (body : ExecutionClaim) (db : Db J)
      → IsUnique db.executions
      → count_where (has_id new_id) db.executions ≡ 0
      → claim_row new_id (db.executions ++ (new_execution new_id body ∷ [])) db
        ≡ ok (
          record { execution_id = new_id; claimed = true; state = executing; result_meta = none },
          record db {
            executions =
                db.executions ++ (record (new_execution new_id body) { state = executing } ∷ []);
          },
        )
  unfolding find count_where start_executing update_where
  claim_new new_id body db u fresh =
      let e : Execution J = new_execution new_id body in
      let found : find (has_id new_id) (db.executions ++ (e ∷ [])) ≡ some e =
        find-append (has_id new_id) db.executions (e ∷ [])
          (count-none-find (has_id new_id) db.executions fresh)
        ∙ ground arith in
      claim_row-open (db.executions ++ (e ∷ [])) db e found
        (rw count-append (ground (arith, fresh))) refl
      ∙ ap
          (λ (rows : List (Execution J)). ok (
            record { execution_id = new_id; claimed = true; state = executing; result_meta = none },
            record db { executions = rows },
          ))
          (start-new new_id body db.executions fresh)

  -- On a table with unique ids and keys, none of which is the uuid that is drawn: a claim of a key
  -- that has no row gets a new execution and is the one that starts it, if the organization exists;
  -- if not it fails. A claim of a key that has a row is refused with 409 if the row is of another
  -- canonical request; else it starts the execution if that is still AUTHORIZED, and if not it reads
  -- back the state and the result that are recorded and changes nothing.
  pub claim_execution-answer :
      (new_id : ℕ) (body : ExecutionClaim) (db : Db J)
      → IsUnique db.executions
      → count_where (has_id new_id) db.executions ≡ 0
      → claim_execution new_id body db ≡ elim (find (has_key body) db.executions) [
        | some e ↦ answer body e db
        | none ↦
            if has_organization body.org_id db
            then ok (
              record {
                execution_id = new_id;
                claimed = true;
                state = executing;
                result_meta = none;
              },
              record db {
                executions =
                    db.executions
                    ++ (record (new_execution new_id body) { state = executing } ∷ []);
              },
            )
            else err (record { status = 500; code = "IntegrityError" })
      ]
  unfolding claim_execution
  claim_execution-answer new_id body db u fresh =
      elim (Option-cases (find (has_key body) db.executions)) [
        | inl new ↦ ground (
          arith,
          new,
          any-find-none (has_key body) db.executions new,
          found_new new_id body db.executions new,
          eq_refl body.canonical_hash,
          claim_new new_id body db u fresh,
        )
        | inr (e, old) ↦
            let found : find (has_id e.id) db.executions ≡ some e =
              find_unique (has_key body) (has_id e.id) db.executions e old (ground arith)
                (u.ids e.id) in
            ground (
              arith,
              old,
              any-find (has_key body) db.executions e old,
              claim_row-open db.executions db e found (u.ids e.id),
              claim_row-closed db.executions db e found (u.ids e.id),
            )
      ]
