-- ===== src/ControlPlane/Approvals/History.antt =====
-- Any sequence of approval requests, each one transaction; one that raises is rolled back.
use phulax.Prelude.{
  ℕ, ◌≤◌, Bool, List, [], ◌∷◌, ◌≡◌, refl, inl, inr, arith, ◌==◌, Option-cases, Result, ok, err,
}
use phulax.ControlPlane.Tables.{find, count_where}
use phulax.ControlPlane.Db.{Approval, Db, HttpError}
use phulax.ControlPlane.Approvals.{ApprovalResolve, decide_row, decide_approval, resolve_approval}
use phulax.ControlPlane.Approvals.Decisions.{decision_of}
use phulax.ControlPlane.Approvals.Invariant.{
  IsExclusive, is_active_for, resolve_approval-IsExclusive, decide_row-IsExclusive,
}

pub data Call (J : Type 0) : Type 0 where
  resolve : ℕ → ℕ → ℕ → ApprovalResolve J → Call J
  decide : ℕ → ℕ → ℕ → Bool → Call J

module _ {J : Type 0} where
  abbrev pub committed : {A : Type 0} → Db J → Result HttpError (A × Db J) → Db J
  committed db (err e) = db
  committed db (ok (a, db')) = db'

  -- The database after a request.
  unfoldable pub serve : Call J → Db J → Db J
  serve (resolve now ttl new_id body) db = committed db (resolve_approval now ttl new_id body db)
  serve (decide now id user_id approve) db =
      committed db (decide_approval now id user_id approve db)

  unfoldable pub serve_all : List (Call J) → Db J → Db J
  serve_all [] db = db
  serve_all (c ∷ calls) db = serve_all calls (serve c db)

  decide_approval-IsExclusive :
      (now id user_id : ℕ) (approve : Bool) (out : Approval J) (db db' : Db J)
      → IsExclusive db.approvals
      → decide_approval now id user_id approve db ≡ ok (out, db')
      → IsExclusive db'.approvals
  unfolding decide_approval
  decide_approval-IsExclusive now id user_id approve out db db' u h =
      elim (Option-cases (find (λ a. a.id == id) db.approvals)) [
        | inl e ↦ absurd (ground arith)
        | inr (a, e) ↦ elim (Option-cases (find (λ v. v.id == user_id) db.users)) [
          | inl e' ↦ absurd (ground arith)
          | inr (v, e') ↦
              let done : decide_row now (decision_of approve) id v.id db ≡ ok (out, db') =
                ground arith in
              decide_row-IsExclusive now id v.id (decision_of approve) out db db' u done
        ]
      ]

  committed-IsExclusive :
      {A : Type 0}
      → (db : Db J) (r : Result HttpError (A × Db J)) → IsExclusive db.approvals
      → ((out : A) (db' : Db J) → r ≡ ok (out, db') → IsExclusive db'.approvals)
      → IsExclusive (committed db r).approvals
  committed-IsExclusive db (err e) u h = u
  committed-IsExclusive db (ok (a, db')) u h = h a db' refl

  serve-IsExclusive :
      (c : Call J) (db : Db J) → IsExclusive db.approvals → IsExclusive (serve c db).approvals
  unfolding serve
  serve-IsExclusive (resolve now ttl new_id body) db u =
      committed-IsExclusive db (resolve_approval now ttl new_id body db) u
        (λ out db'. resolve_approval-IsExclusive now ttl new_id body out db db' u)
  serve-IsExclusive (decide now id user_id approve) db u =
      committed-IsExclusive db (decide_approval now id user_id approve db) u
        (λ out db'. decide_approval-IsExclusive now id user_id approve out db db' u)

  -- Whatever requests arrive, in whatever order and at whatever times, an organization has at
  -- most one PENDING or APPROVED approval for a canonical hash and a session, if it had at most
  -- one before.
  pub serve_all-IsExclusive :
      (calls : List (Call J)) (db : Db J) (key : ApprovalResolve J)
      → IsExclusive db.approvals
      → count_where (is_active_for key) (serve_all calls db).approvals ≤ 1
  unfolding serve_all IsExclusive
  serve_all-IsExclusive [] db key u = u key
  serve_all-IsExclusive (c ∷ calls) db key u =
      serve_all-IsExclusive calls (serve c db) key (serve-IsExclusive c db u)
