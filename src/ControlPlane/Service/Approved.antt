-- ===== src/ControlPlane/Service/Approved.antt =====
-- The routes of approvals take steps.
use mathlib.Core.Path.{subst}
use mathlib.Core.List.{append-nil}
use phulax.Prelude.{
  ℕ, ◌+◌, Bool, true, Option, none, some, [], ◌∷◌, ◌++◌, ◌≡◌, ◌⊎◌, refl, sym, ap, inl, inr, arith,
  All-append, ◌==◌, ok, Option-cases, Bool-cases, Result-cases,
}
use phulax.ControlPlane.Tables.{find, find_last, update_where, count_where}
use phulax.ControlPlane.Tables.Laws.{any-find_last}
use phulax.ControlPlane.Db.{ApprovalState, ActionRequest, Approval, User, Db}
use phulax.ControlPlane.Approvals.{
  ApprovalResolve, ApprovalResolveOut, is_consumable, is_rejection, is_pending, to_consumed,
  new_approval, has_references, existing_pending, create_pending, record_event, void_and_expire,
  resolve_open, resolve_approval, decided, is_decidable, decide_row, decide_approval,
}
use phulax.ControlPlane.Approvals.Decisions.{decision_of}
use phulax.ControlPlane.Service.Steps.{IsStep, unchanged, has_request}
use phulax.ControlPlane.Service.Changes.{
  AllLinked, IsChange, update-All, find-All, record_event-AllRecorded, change-IsStep,
  IsChange-trans, void_and_expire-IsChange,
}

module _ {J : Type 0} where
  -- An update of the approvals, and an event of one that was there.
  update-IsChange :
      (p : Approval J → Bool) (f : Approval J → Approval J) (a : Approval J) (d : Option ℕ)
      (db : Db J)
      → ((x : Approval J) → (f x).action_request_id ≡ x.action_request_id)
      → find p db.approvals ≡ some a
      → IsChange db (record db {
        approvals = update_where p f db.approvals;
        events = record_event (f a) d db.events;
      })
  unfolding record_event
  update-IsChange p f a d db same e = (
    update_where p f db.approvals,
    record_event (f a) d [],
    refl,
    λ h. (
      update-All (λ x. has_request db.action_requests x ≡ true) p f db.approvals
          (λ x k. rw (same x) k) h,
      (
        rw (same a) (find-All (λ x. has_request db.action_requests x ≡ true) p db.approvals a h e),
        tt,
      ),
    ),
  )

  existing-same :
      (body : ApprovalResolve J) (a : Approval J) (before db' : Db J)
      → existing_pending body before ≡ ok (a, db')
      → before ≡ db'
  unfolding existing_pending
  existing-same body a before db' h =
      elim (Option-cases (find (is_pending body) before.approvals)) [
        | inl e ↦ absurd (ground arith)
        | inr (x, e) ↦ ground arith
      ]

  -- What is done, or the rollback to the tables before.
  abbrev IsOutcome : Db J → Db J → Db J → Type 0
  IsOutcome before db db' = IsChange db db' ⊎ (before ≡ db')

  module _ (now ttl new_id : ℕ) (body : ApprovalResolve J) where
    create_pending-IsOutcome :
        (a : Approval J) (before db db' : Db J)
        → create_pending now ttl new_id body before db ≡ ok (a, db')
        → IsOutcome before db db'
    unfolding create_pending record_event
    create_pending-IsOutcome a before db db' h =
        elim (Option-cases (
          find_last (λ (r : ActionRequest J). r.request_id == body.request_id)
            db.action_requests)) [
              | inl e ↦ absurd (ground arith)
              | inr (r, e) ↦ elim (Bool-cases (has_references body db)) [
                | inr n ↦ inr (existing-same body a before db' (ground arith))
                | inl y ↦
                    let row = new_approval new_id r.id (now + ttl) body in
                    let linked : has_request db.action_requests row ≡ true =
                      any-find_last (λ (q : ActionRequest J). q.request_id == body.request_id)
                        (λ (q : ActionRequest J). q.id == r.id) db.action_requests r e
                        (ground arith) in
                    inl (
                      db.approvals ++ (row ∷ []),
                      record_event row none [],
                      ground arith,
                      λ h. (
                        All-append (λ x. has_request db.action_requests x ≡ true) db.approvals
                            (row ∷ []) h (linked, tt),
                        (linked, tt),
                      ),
                    )
              ]
            ]

    unchanged_approvals : (db : Db J) → IsChange db db
    unchanged_approvals db = (
      db.approvals,
      [],
      ap (λ events. record db { events = events }) (sym (append-nil db.events)),
      λ h. (h, tt),
    )

    resolve_open-IsOutcome :
        (out : ApprovalResolveOut J) (before db db' : Db J)
        → resolve_open now ttl new_id body before db ≡ ok (out, db')
        → IsOutcome before db db'
    unfolding resolve_open
    resolve_open-IsOutcome out before db db' h =
        elim (Option-cases (find (is_rejection now body) db.approvals)) [
          | inr (a, e) ↦ inl (subst (IsChange db) (ground arith) (unchanged_approvals db))
          | inl e ↦ elim (Option-cases (find (is_pending body) db.approvals)) [
            | inr (a, e') ↦ inl (subst (IsChange db) (ground arith) (unchanged_approvals db))
            | inl e' ↦ elim (Result-cases (create_pending now ttl new_id body before db)) [
              | inl ((a, db₁), c) ↦ create_pending-IsOutcome a before db db' (ground arith)
              | inr (x, c) ↦ absurd (ground arith)
            ]
          ]
        ]

    pub resolve_approval-IsStep :
        (out : ApprovalResolveOut J) (db db' : Db J)
        → resolve_approval now ttl new_id body db ≡ ok (out, db')
        → IsStep db db'
    unfolding resolve_approval
    resolve_approval-IsStep out db db' h =
        elim (Option-cases (find (is_consumable now body) db.approvals)) [
          | inr (a, e) ↦ change-IsStep db db' (
              subst (IsChange db) (ground arith) (
                update-IsChange (is_consumable now body) (to_consumed now) a none db (λ x. refl) e))
          | inl e ↦
              let swept = void_and_expire now body db in
              elim (resolve_open-IsOutcome out db swept db' (ground arith)) [
                | inr same ↦ subst (IsStep db) same unchanged
                | inl change ↦
                    change-IsStep db db'
                      (IsChange-trans db swept db' (void_and_expire-IsChange now body db) change)
              ]
        ]

  decide_row-IsStep :
      (now id user_id : ℕ) (s : ApprovalState) (out : Approval J) (db db' : Db J)
      → decide_row now s id user_id db ≡ ok (out, db')
      → IsStep db db'
  unfolding decide_row record_event
  decide_row-IsStep now id user_id s out db db' h =
      let requests = db.action_requests in
      let rows = update_where (is_decidable now id) (decided s user_id now) db.approvals in
      let linked : AllLinked requests db.approvals → AllLinked requests rows =
        update-All (λ x. has_request requests x ≡ true) (is_decidable now id)
          (decided s user_id now) db.approvals (λ x k. k) in
      elim (Bool-cases (count_where (is_decidable now id) db.approvals == 1)) [
        | inr n ↦ absurd (ground arith)
        | inl y ↦ elim (Option-cases (find (λ (a : Approval J). a.id == id) rows)) [
          | inl e ↦ absurd (ground arith)
          | inr (a, e) ↦ change-IsStep db db' (
            rows,
            record_event a (some user_id) [],
            ground arith,
            λ h. (
              linked h,
              record_event-AllRecorded requests a (some user_id) (
                  find-All (λ x. has_request requests x ≡ true) (λ (x : Approval J). x.id == id)
                    rows a (linked h) e),
            ),
          )
        ]
      ]

  pub decide_approval-IsStep :
      (now id user_id : ℕ) (accept : Bool) (out : Approval J) (db db' : Db J)
      → decide_approval now id user_id accept db ≡ ok (out, db')
      → IsStep db db'
  unfolding decide_approval
  decide_approval-IsStep now id user_id accept out db db' h =
      elim (Option-cases (find (λ (x : Approval J). x.id == id) db.approvals)) [
        | inl e ↦ absurd (ground arith)
        | inr (x, e) ↦ elim (Option-cases (find (λ (v : User). v.id == user_id) db.users)) [
          | inl e' ↦ absurd (ground arith)
          | inr (v, e') ↦
              let done : decide_row now (decision_of accept) id v.id db ≡ ok (out, db') =
                ground arith in
              decide_row-IsStep now id v.id (decision_of accept) out db db' done
        ]
      ]
