-- ===== src/System/Served.antt =====
-- The executions of the control plane between two calls of the gateway.
use mathlib.Core.Path.{subst}
use phulax.Prelude.{
  ℕ, ◌+◌, ◌≤◌, suc, String, Bool, true, false, ◌&&◌, Option, none, some, List, [], ◌∷◌, ◌++◌, ◌≡◌,
  refl, sym, arith, inl, inr, All, All-append, leb, str_eq, if◌then◌else◌, Result, ok, Option-cases,
  Bool-cases,
}
use phulax.ControlPlane.Tables.{find, count_where}
use phulax.ControlPlane.Tables.Laws.{count-append, count-update_same}
use phulax.ControlPlane.Db.{
  authorized, executing, same_execution_state, Execution, Db, HttpError, has_organization,
}
use phulax.ControlPlane.Executions.{
  ExecutionClaim, ExecutionClaimOut, ExecutionComplete, has_key, new_execution, claim_execution,
  finish_executing, is_executing_row, completed as completed_row,
}
use phulax.ControlPlane.Executions.AtMostOnce.{has_id}
use phulax.ControlPlane.Executions.Outcomes.{IsUnique, claim_execution-answer}
use phulax.ControlPlane.Executions.Advance.{finish-IsUnique}
use phulax.ControlPlane.Approvals.History.{committed}
use phulax.ControlPlane.Service.Changes.{find-All, update-All}
use phulax.ControlPlane.Service.Keys.{same_text, insert_unique}
use phulax.System.{read_claim}
use phulax.System.Log.{same_key, won}

module _ {J : Type 0} where
  abbrev pub IsBegun : Execution J → Type 0
  IsBegun e = same_execution_state e.state authorized ≡ false

  -- The executions between two requests: unique ids and keys, none that waits to begin, and ids
  -- below the number of the next call.
  pub record IsServed (n : ℕ) (rows : List (Execution J)) : Type 0 where
    pub unique : IsUnique rows
    pub begun : All IsBegun rows
    pub bounded : (id : ℕ) → leb n id ≡ true → count_where (has_id id) rows ≡ 0

  abbrev begun_row : ℕ → ExecutionClaim → Execution J
  begun_row n claim = record (new_execution n claim) { state = executing }

  insert-IsServed :
      (n : ℕ) (claim : ExecutionClaim) (rows : List (Execution J))
      → find (has_key claim) rows ≡ none
      → IsServed n rows
      → IsServed (suc n) (rows ++ (begun_row n claim ∷ []))
  unfolding count_where
  insert-IsServed n claim rows absent s = record {
    unique = record {
      ids = λ id. ground (
        arith,
        count-append (has_id id) rows (begun_row n claim ∷ []),
        s.unique.ids id,
        s.bounded id,
      );
      keys = λ key.
          insert_unique (has_key key) (has_key claim) rows (begun_row n claim)
            (λ y x h.
              ground (arith, same_text claim.idempotency_key x.idempotency_key key.idempotency_key))
            absent (s.unique.keys key);
    };
    begun = All-append IsBegun rows (begun_row n claim ∷ []) s.begun (refl, tt);
    bounded = λ id h.
        ground (arith, count-append (has_id id) rows (begun_row n claim ∷ []), s.bounded id);
  }

  pub weaken-IsServed :
      (n : ℕ) (rows : List (Execution J)) → IsServed n rows → IsServed (suc n) rows
  weaken-IsServed n rows s = record {
    unique = s.unique;
    begun = s.begun;
    bounded = λ id h. s.bounded id (ground arith);
  }

  pub finish-IsServed :
      (n id : ℕ) (body : ExecutionComplete J) (rows : List (Execution J))
      → IsServed n rows
      → IsServed n (finish_executing id body rows)
  unfolding finish_executing
  finish-IsServed n id body rows s = record {
    unique = finish-IsUnique id body rows s.unique;
    begun =
        update-All IsBegun (is_executing_row id) (completed_row body) rows (λ x h. ground arith)
          s.begun;
    bounded = λ k h. ground (
      arith,
      s.bounded k,
      count-update_same (is_executing_row id) (has_id k) (completed_row body) rows
          (λ x. ground arith),
    );
  }

  pub finish-count :
      (id : ℕ) (body : ExecutionComplete J) (rows : List (Execution J)) (key : ExecutionClaim)
      → count_where (has_key key) (finish_executing id body rows) ≡ count_where (has_key key) rows
  unfolding finish_executing
  finish-count id body rows key =
      count-update_same (is_executing_row id) (has_key key) (completed_row body) rows
        (λ x. ground arith)

  -- What a claim does to the count of the rows with a key.
  abbrev pub Counts : ExecutionClaim → Bool → List (Execution J) → List (Execution J) → Type 0
  Counts key win rows rows' =
      (if win then 1 else 0) + count_where (has_key key) rows ≤ count_where (has_key key) rows'

  found-begun :
      (p : Execution J → Bool) (n : ℕ) (rows : List (Execution J)) (e : Execution J)
      → IsServed n rows
      → find p rows ≡ some e
      → same_execution_state e.state authorized ≡ false
  found-begun p n rows e s found = find-All IsBegun p rows e s.begun found

module _ (n : ℕ) (claim : ExecutionClaim) (db : Db (Option String)) where
  -- What a claim with this result does.
  abbrev pub IsGood :
      Result HttpError (ExecutionClaimOut (Option String) × Db (Option String)) → Type 0
  IsGood r =
      IsServed (suc n) (committed db r).executions
      × ((key : ExecutionClaim)
          → Counts key (same_key key claim && won (read_claim r)) db.executions
              (committed db r).executions)

  lost-IsGood :
      (r : Result HttpError (ExecutionClaimOut (Option String) × Db (Option String)))
      → IsServed n db.executions
      → won (read_claim r) ≡ false
      → (committed db r).executions ≡ db.executions
      → IsGood r
  lost-IsGood r s lost same = (
    subst (IsServed (suc n)) (sym same) (weaken-IsServed n db.executions s),
    λ key. rw (lost, same) (ground arith),
  )

  won-IsGood :
      (out : ExecutionClaimOut (Option String)) (db' : Db (Option String))
      → IsServed n db.executions
      → find (has_key claim) db.executions ≡ none
      → db'.executions ≡ db.executions ++ (begun_row n claim ∷ [])
      → IsGood (ok (out, db'))
  unfolding count_where
  won-IsGood out db' s absent same = (
    subst (IsServed (suc n)) (sym same) (insert-IsServed n claim db.executions absent s),
    λ key.
        rw (same, count-append (has_key key) db.executions (begun_row n claim ∷ [])) (ground arith),
  )

  pub claim-IsGood : IsServed n db.executions → IsGood (claim_execution n claim db)
  claim-IsGood s =
      let answered = claim_execution-answer n claim db s.unique (s.bounded n (ground arith)) in
      elim (Option-cases (find (has_key claim) db.executions)) [
        | inr (e, found) ↦
            let begun = found-begun (has_key claim) n db.executions e s found in
            elim (Bool-cases (str_eq e.canonical_hash claim.canonical_hash)) [
              | inl y ↦ lost-IsGood (claim_execution n claim db) s (ground arith) (ground arith)
              | inr f ↦ lost-IsGood (claim_execution n claim db) s (ground arith) (ground arith)
            ]
        | inl absent ↦ elim (Bool-cases (has_organization claim.org_id db)) [
          | inl y ↦
              let out : ExecutionClaimOut (Option String) = record {
                execution_id = n;
                claimed = true;
                state = executing;
                result_meta = none;
              } in
              let db' = record db { executions = db.executions ++ (begun_row n claim ∷ []) } in
              let done : claim_execution n claim db ≡ ok (out, db') = ground arith in
              rw done (won-IsGood out db' s absent refl)
          | inr f ↦ lost-IsGood (claim_execution n claim db) s (ground arith) (ground arith)
        ]
      ]
