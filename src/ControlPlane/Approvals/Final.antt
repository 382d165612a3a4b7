-- ===== src/ControlPlane/Approvals/Final.antt =====
-- A closed approval stays as it is.
use phulax.Prelude.{
  sym, ℕ, ◌+◌, Bool, false, some, List, [], ◌∷◌, ◌≡◌, refl, ◌∙◌, inl, inr, arith, ◌==◌, Bool-cases,
  Option-cases, Result, ok, err,
}
use mathlib.Core.Path.{subst}
use phulax.ControlPlane.Tables.{find, update_where, count_where}
use phulax.ControlPlane.Tables.Laws.{find-update, find-append_some}
use phulax.ControlPlane.Db.{ApprovalState, expired, voided, Approval, Db, HttpError}
use phulax.ControlPlane.Approvals.Opened.{IsOpened, resolve_open-IsOpened}
use phulax.ControlPlane.Approvals.{
  ApprovalResolve, ApprovalResolveOut, is_active, is_consumable, is_voidable, is_expirable,
  to_consumed, to_state, new_approval, decided, is_decidable, decide_row, decide_approval,
  resolve_approval, void_and_expire,
}
use phulax.ControlPlane.Approvals.Decisions.{decision_of}
use phulax.ControlPlane.Approvals.History.{Call, resolve, decide, committed, serve, serve_all}

module _ {J : Type 0} (a : Approval J) where
  -- The row of the approval is still `a`.
  abbrev pub Keeps : List (Approval J) → Type 0
  Keeps rows = find (λ (x : Approval J). x.id == a.id) rows ≡ some a

  -- An update that keeps ids and does not concern `a`.
  update-Keeps :
      (p : Approval J → Bool) (f : Approval J → Approval J) (rows : List (Approval J))
      → ((x : Approval J) → (f x).id ≡ x.id)
      → p a ≡ false
      → Keeps rows
      → Keeps (update_where p f rows)
  update-Keeps p f rows same n found =
      find-update p (λ (x : Approval J). x.id == a.id) f rows (λ x. ground (arith, same x))
      ∙ rw (found, n) refl

  module _ (closed : is_active a ≡ false) where
    housekeeping-Keeps :
        (now : ℕ) (body : ApprovalResolve J) (db : Db J)
        → Keeps db.approvals
        → Keeps (void_and_expire now body db).approvals
    unfolding void_and_expire
    housekeeping-Keeps now body db found =
        update-Keeps (is_expirable now body) (to_state expired)
          (update_where (is_voidable now body) (to_state voided) db.approvals) (λ x. refl)
          (ground arith)
          (update-Keeps (is_voidable now body) (to_state voided) db.approvals (λ x. refl)
            (ground arith) found)

    opened-Keeps :
        (now ttl new_id : ℕ) (body : ApprovalResolve J) (before db db' : Db J)
        → Keeps before.approvals
        → Keeps db.approvals
        → IsOpened now ttl new_id body before db db'
        → Keeps db'.approvals
    opened-Keeps now ttl new_id body before db db' v u (IsOpened.left e) = subst Keeps (sym e) u
    opened-Keeps now ttl new_id body before db db' v u (IsOpened.rolled_back e) =
        subst Keeps (sym e) v
    opened-Keeps now ttl new_id body before db db' v u (IsOpened.inserted id n e) =
        subst Keeps (sym e) (
          find-append_some (λ (x : Approval J). x.id == a.id) db.approvals
            (new_approval new_id id (now + ttl) body ∷ []) a u)

    resolve_approval-Keeps :
        (now ttl new_id : ℕ) (body : ApprovalResolve J) (out : ApprovalResolveOut J) (db db' : Db J)
        → Keeps db.approvals
        → resolve_approval now ttl new_id body db ≡ ok (out, db')
        → Keeps db'.approvals
    unfolding resolve_approval
    resolve_approval-Keeps now ttl new_id body out db db' found h =
        elim (Option-cases (find (is_consumable now body) db.approvals)) [
          | inr (r, e) ↦ subst Keeps (ground arith) (
              update-Keeps (is_consumable now body) (to_consumed now) db.approvals (λ x. refl)
                (ground arith) found)
          | inl e ↦
              opened-Keeps now ttl new_id body db (void_and_expire now body db) db' found
                (housekeeping-Keeps now body db found)
                (resolve_open-IsOpened now ttl new_id body db (void_and_expire now body db) out db'
                  (ground arith))
        ]

    decide_row-Keeps :
        (now id user_id : ℕ) (s : ApprovalState) (out : Approval J) (db db' : Db J)
        → Keeps db.approvals
        → decide_row now s id user_id db ≡ ok (out, db')
        → Keeps db'.approvals
    unfolding decide_row
    decide_row-Keeps now id user_id s out db db' found h =
        elim (Bool-cases (count_where (is_decidable now id) db.approvals == 1)) [
          | inr n ↦ absurd (ground arith)
          | inl y ↦ subst Keeps (ground arith) (
              update-Keeps (is_decidable now id) (decided s user_id now) db.approvals (λ x. refl)
                (ground arith) found)
        ]

    decide_approval-Keeps :
        (now id user_id : ℕ) (accept : Bool) (out : Approval J) (db db' : Db J)
        → Keeps db.approvals
        → decide_approval now id user_id accept db ≡ ok (out, db')
        → Keeps db'.approvals
    unfolding decide_approval
    decide_approval-Keeps now id user_id accept out db db' found h =
        elim (Option-cases (find (λ x. x.id == id) db.approvals)) [
          | inl e ↦ absurd (ground arith)
          | inr (x, e) ↦ elim (Option-cases (find (λ v. v.id == user_id) db.users)) [
            | inl e' ↦ absurd (ground arith)
            | inr (v, e') ↦
                let done : decide_row now (decision_of accept) id v.id db ≡ ok (out, db') =
                  ground arith in
                decide_row-Keeps now id v.id (decision_of accept) out db db' found done
          ]
        ]

    committed-Keeps :
        {A : Type 0}
        → (db : Db J) (r : Result HttpError (A × Db J)) → Keeps db.approvals
        → ((out : A) (db' : Db J) → r ≡ ok (out, db') → Keeps db'.approvals)
        → Keeps (committed db r).approvals
    committed-Keeps db (err e) u h = u
    committed-Keeps db (ok (out, db')) u h = h out db' refl

    serve-Keeps : (c : Call J) (db : Db J) → Keeps db.approvals → Keeps (serve c db).approvals
    unfolding serve
    serve-Keeps (resolve now ttl new_id body) db u =
        committed-Keeps db (resolve_approval now ttl new_id body db) u
          (λ out db'. resolve_approval-Keeps now ttl new_id body out db db' u)
    serve-Keeps (decide now id user_id accept) db u =
        committed-Keeps db (decide_approval now id user_id accept db) u
          (λ out db'. decide_approval-Keeps now id user_id accept out db db' u)

    -- Once an approval is REJECTED, EXPIRED, CONSUMED or VOIDED, no sequence of requests changes
    -- its row: it is never granted again, and neither its decider nor its times change.
    pub serve_all-Keeps :
        (calls : List (Call J)) (db : Db J)
        → Keeps db.approvals
        → Keeps (serve_all calls db).approvals
    unfolding serve_all
    serve_all-Keeps [] db u = u
    serve_all-Keeps (c ∷ calls) db u = serve_all-Keeps calls (serve c db) (serve-Keeps c db u)
