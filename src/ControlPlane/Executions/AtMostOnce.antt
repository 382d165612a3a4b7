-- ===== src/ControlPlane/Executions/AtMostOnce.antt =====
-- At most one caller moves an execution to EXECUTING, however the statements of concurrent claims
-- and completions are interleaved. Each SQL statement is one atomic step on the table.
use native.Mathlib.Decide.{dec_lt}
use mathlib.Core.Path.{subst}
use native.Mathlib.Nat.{le_trans}
use phulax.Prelude.{
  ℕ, ◌+◌, ◌≤◌, ◌<◌, Bool, ◌&&◌, List, [], ◌∷◌, ◌++◌, ◌≡◌, refl, sym, inl, inr, arith, ◌==◌,
  if◌then◌else◌, Bool-cases, Option-cases, ==_iff,
}
use phulax.ControlPlane.Tables.{find, update_where, count_where}
use phulax.ControlPlane.Tables.Laws.{
  count-append, count-le, count-update_none, count-update_same, count-update_le,
}
use phulax.ControlPlane.Db.{Execution}
use phulax.ControlPlane.Executions.{
  ExecutionClaim, ExecutionComplete, has_key, is_authorized_row, insert_authorized, new_execution,
  start_executing, finish_executing,
}

pub data Statement (J : Type 0) : Type 0 where
  insert : ℕ → ExecutionClaim → Statement J
  start : ℕ → Statement J
  finish : ℕ → ExecutionComplete J → Statement J

module _ {J : Type 0} where
  unfoldable pub perform : Statement J → List (Execution J) → List (Execution J)
  unfolding insert_authorized start_executing finish_executing
  perform (insert new_id body) rows = insert_authorized new_id body rows
  perform (start id) rows = start_executing id rows
  perform (finish id body) rows = finish_executing id body rows

  abbrev pub has_id : ℕ → Execution J → Bool
  has_id id e = e.id == id

  -- The statement is the transition of `id`, and its `rowcount` is 1.
  abbrev pub wins : ℕ → Statement J → List (Execution J) → ℕ
  wins id (start id') rows =
      if (id' == id) && (count_where (is_authorized_row id') rows == 1) then 1 else 0
  wins id s rows = 0

  unfoldable pub total_wins : ℕ → List (Statement J) → List (Execution J) → ℕ
  total_wins id [] rows = 0
  total_wins id (s ∷ ss) rows = wins id s rows + total_wins id ss (perform s rows)

  -- A uuid that is drawn is no id of a row that the table has.
  abbrev pub IsFresh : Statement J → List (Execution J) → Type 0
  IsFresh (insert new_id body) rows = count_where (has_id new_id) rows ≡ 0
  IsFresh s rows = Unit

  abbrev pub AllFresh : List (Statement J) → List (Execution J) → Type 0
  AllFresh [] rows = Unit
  AllFresh (s ∷ ss) rows = IsFresh s rows × AllFresh ss (perform s rows)

  -- The execution is there, and has left AUTHORIZED.
  record IsStarted (id : ℕ) (rows : List (Execution J)) : Type 0 where
    present : 0 < count_where (has_id id) rows
    left : count_where (is_authorized_row id) rows ≡ 0

  count_id-update :
      (id : ℕ) (p : Execution J → Bool) (f : Execution J → Execution J) (rows : List (Execution J))
      → ((e : Execution J) → (f e).id ≡ e.id)
      → count_where (has_id id) (update_where p f rows) ≡ count_where (has_id id) rows
  count_id-update id p f rows h = count-update_same p (has_id id) f rows (λ e. ground (arith, h e))

  -- No update of the program makes a row AUTHORIZED.
  start-le :
      (id n : ℕ) (rows : List (Execution J))
      → count_where (is_authorized_row id) (start_executing n rows)
        ≤ count_where (is_authorized_row id) rows
  unfolding start_executing
  start-le id n rows = count-update_le _ (is_authorized_row id) _ rows (λ e h. ground arith)

  finish-le :
      (id n : ℕ) (body : ExecutionComplete J) (rows : List (Execution J))
      → count_where (is_authorized_row id) (finish_executing n body rows)
        ≤ count_where (is_authorized_row id) rows
  unfolding finish_executing
  finish-le id n body rows = count-update_le _ (is_authorized_row id) _ rows (λ e h. ground arith)

  count_id-start :
      (id n : ℕ) (rows : List (Execution J))
      → count_where (has_id id) (start_executing n rows) ≡ count_where (has_id id) rows
  unfolding start_executing
  count_id-start id n rows = count_id-update id _ _ rows (λ e. refl)

  count_id-finish :
      (id n : ℕ) (body : ExecutionComplete J) (rows : List (Execution J))
      → count_where (has_id id) (finish_executing n body rows) ≡ count_where (has_id id) rows
  unfolding finish_executing
  count_id-finish id n body rows = count_id-update id _ _ rows (λ e. refl)

  count-append_present :
      (id n : ℕ) (body : ExecutionClaim) (rows : List (Execution J))
      → 0 < count_where (has_id id) rows
      → 0 < count_where (has_id id) (rows ++ (new_execution n body ∷ []))
  count-append_present id n body rows h =
      omega (arith, count-append (has_id id) rows (new_execution n body ∷ []))

  append-left :
      (id n : ℕ) (body : ExecutionClaim) (rows : List (Execution J))
      → count_where (has_id n) rows ≡ 0
      → IsStarted id rows
      → count_where (is_authorized_row id) (rows ++ (new_execution n body ∷ [])) ≡ 0
  unfolding count_where
  append-left id n body rows f h = elim (Bool-cases (n == id)) [
    | inl same ↦ absurd (omega (arith, h.present, rw ((==_iff n id).0 same) at f))
    | inr other ↦ rw count-append (ground (arith, h.left))
  ]

  insert-IsStarted :
      (id n : ℕ) (body : ExecutionClaim) (rows : List (Execution J))
      → count_where (has_id n) rows ≡ 0
      → IsStarted id rows
      → IsStarted id (insert_authorized n body rows)
  unfolding insert_authorized
  insert-IsStarted id n body rows f h = elim (Option-cases (find (has_key body) rows)) [
    | inr (e, found) ↦ rw (found, insert_authorized) h
    | inl new ↦
        rw (new, insert_authorized)
          (record {
            present = count-append_present id n body rows h.present;
            left = append-left id n body rows f h;
          })
  ]

  perform-IsStarted :
      (id : ℕ) (s : Statement J) (rows : List (Execution J))
      → IsFresh s rows
      → IsStarted id rows
      → IsStarted id (perform s rows)
  unfolding perform
  perform-IsStarted id (insert n body) rows f h = insert-IsStarted id n body rows f h
  perform-IsStarted id (start n) rows f h = record {
    present = rw (count_id-start id n rows) h.present;
    left = omega (arith, start-le id n rows, h.left);
  }
  perform-IsStarted id (finish n body) rows f h = record {
    present = rw (count_id-finish id n body rows) h.present;
    left = omega (arith, finish-le id n body rows, h.left);
  }

  IsStarted-self :
      (id : ℕ) (rows : List (Execution J))
      → 0 < count_where (is_authorized_row id) rows
      → IsStarted id (start_executing id rows)
  IsStarted-self id rows h = record {
    present =
        rw (count_id-start id id rows)
          (le_trans h (count-le (is_authorized_row id) (has_id id) rows (λ e x. ground arith)));
    left =
        unfold start_executing in
        count-update_none _ (is_authorized_row id) _ rows (λ e. ground arith);
  }

  -- The winning statement leaves no row AUTHORIZED, and the row is there.
  win-IsStarted :
      (id n : ℕ) (rows : List (Execution J))
      → 0 < wins id (start n) rows
      → IsStarted id (perform (start n) rows)
  unfolding perform
  win-IsStarted id n rows h = elim (Bool-cases (n == id)) [
    | inl same ↦
        let e : n ≡ id = (==_iff n id).0 same in
        subst (λ m. IsStarted id (start_executing m rows)) (sym e)
          (IsStarted-self id rows
            (subst (λ m. 0 < count_where (is_authorized_row m) rows) e (ground arith)))
    | inr other ↦ absurd (ground arith)
  ]

  win_starts :
      (id : ℕ) (s : Statement J) (rows : List (Execution J))
      → 0 < wins id s rows
      → IsStarted id (perform s rows)
  win_starts id (insert n body) rows h = absurd (omega arith)
  win_starts id (start n) rows h = win-IsStarted id n rows h
  win_starts id (finish n body) rows h = absurd (omega arith)

  no_win :
      (id : ℕ) (s : Statement J) (rows : List (Execution J))
      → IsStarted id rows
      → wins id s rows ≡ 0
  no_win id (insert n body) rows h = refl
  no_win id (start n) rows h = elim (Bool-cases (n == id)) [
    | inl same ↦
        let e : n ≡ id = (==_iff n id).0 same in
        let none_left : count_where (is_authorized_row n) rows ≡ 0 =
          subst (λ m. count_where (is_authorized_row m) rows ≡ 0) (sym e) h.left in
        ground arith
    | inr other ↦ ground arith
  ]
  no_win id (finish n body) rows h = refl

  wins-le : (id : ℕ) (s : Statement J) (rows : List (Execution J)) → wins id s rows ≤ 1
  wins-le id (insert n body) rows = omega arith
  wins-le id (start n) rows = ground arith
  wins-le id (finish n body) rows = omega arith

  no_more_wins :
      (id : ℕ) (ss : List (Statement J)) (rows : List (Execution J))
      → AllFresh ss rows
      → IsStarted id rows
      → total_wins id ss rows ≡ 0
  unfolding total_wins
  no_more_wins id [] rows f h = refl
  no_more_wins id (s ∷ ss) rows (f, fs) h = omega (
    arith,
    no_win id s rows h,
    no_more_wins id ss (perform s rows) fs (perform-IsStarted id s rows f h),
  )

  -- Whatever statements of claims and completions run, in whatever order and from whatever table,
  -- at most one of them moves the execution `id` from AUTHORIZED to EXECUTING, provided that no
  -- uuid that an insertion draws is the id of a row.
  pub total_wins-le :
      (id : ℕ) (ss : List (Statement J)) (rows : List (Execution J))
      → AllFresh ss rows
      → total_wins id ss rows ≤ 1
  unfolding total_wins
  total_wins-le id [] rows f = omega arith
  total_wins-le id (s ∷ ss) rows (f, fs) = elim (dec_lt 0 (wins id s rows)) [
    | yes w ↦
        omega (
          arith,
          wins-le id s rows,
          no_more_wins id ss (perform s rows) fs (win_starts id s rows w),
        )
    | no l ↦ omega (arith, l, total_wins-le id ss (perform s rows) fs)
  ]
