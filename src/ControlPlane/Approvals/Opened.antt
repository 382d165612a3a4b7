-- ===== src/ControlPlane/Approvals/Opened.antt =====
-- What becomes of the table where no approval is consumed.
use phulax.Prelude.{
  ℕ, ◌+◌, none, [], ◌∷◌, ◌++◌, ◌≡◌, inl, inr, arith, ◌==◌, Bool-cases, Option-cases, Result-cases,
  ok,
}
use phulax.ControlPlane.Tables.{find, find_last}
use phulax.ControlPlane.Db.{Approval, Db}
use phulax.ControlPlane.Approvals.{
  ApprovalResolve, ApprovalResolveOut, was_consumed, is_rejection, is_pending, has_references,
  new_approval, existing_pending, create_pending, resolve_open,
}

module _ {J : Type 0} (now ttl new_id : ℕ) (body : ApprovalResolve J) (before db : Db J) where
  -- The approvals are those of one of the two databases, or a pending one more.
  pub data IsOpened (db' : Db J) : Type 0 where
    left : db'.approvals ≡ db.approvals → IsOpened db'
    rolled_back : db'.approvals ≡ before.approvals → IsOpened db'
    inserted :
        (action_request_id : ℕ)
        → find (is_pending body) db.approvals ≡ none
        → db'.approvals
          ≡ db.approvals ++ (new_approval new_id action_request_id (now + ttl) body ∷ [])
        → IsOpened db'

  existing-IsOpened :
      (a : Approval J) (db' : Db J) → existing_pending body before ≡ ok (a, db') → IsOpened db'
  unfolding existing_pending
  existing-IsOpened a db' h = elim (Option-cases (find (is_pending body) before.approvals)) [
    | inl e ↦ absurd (ground arith)
    | inr (x, e) ↦ IsOpened.rolled_back (ground arith)
  ]

  created-IsOpened :
      (a : Approval J) (db' : Db J)
      → find (is_pending body) db.approvals ≡ none
      → create_pending now ttl new_id body before db ≡ ok (a, db')
      → IsOpened db'
  unfolding create_pending
  created-IsOpened a db' n h =
      elim (Option-cases (find_last (λ r. r.request_id == body.request_id) db.action_requests)) [
        | inl e ↦ absurd (ground arith)
        | inr (r, e) ↦ elim (Bool-cases (has_references body db)) [
          | inl y ↦ IsOpened.inserted r.id n (ground arith)
          | inr f ↦ existing-IsOpened a db' (ground arith)
        ]
      ]

  pub resolve_open-IsOpened :
      (out : ApprovalResolveOut J) (db' : Db J)
      → resolve_open now ttl new_id body before db ≡ ok (out, db')
      → IsOpened db'
  unfolding resolve_open
  resolve_open-IsOpened out db' h =
      elim (Option-cases (find (is_rejection now body) db.approvals)) [
        | inr (a, e) ↦ IsOpened.left (ground arith)
        | inl e ↦ elim (Option-cases (find (is_pending body) db.approvals)) [
          | inr (a, e') ↦ IsOpened.left (ground arith)
          | inl e' ↦ elim (Result-cases (create_pending now ttl new_id body before db)) [
            | inl ((a, db₁), c) ↦ created-IsOpened a db' e' (ground arith)
            | inr (x, c) ↦ absurd (ground arith)
          ]
        ]
      ]

  pub resolve_open-mode :
      (out : ApprovalResolveOut J) (db' : Db J)
      → resolve_open now ttl new_id body before db ≡ ok (out, db')
      → ¬ (out.mode ≡ was_consumed)
  unfolding resolve_open
  resolve_open-mode out db' h m = elim (Option-cases (find (is_rejection now body) db.approvals)) [
    | inr (a, e) ↦ ground arith
    | inl e ↦ elim (Option-cases (find (is_pending body) db.approvals)) [
      | inr (a, e') ↦ ground arith
      | inl e' ↦ elim (Result-cases (create_pending now ttl new_id body before db)) [
        | inl ((a, db₁), e'') ↦ ground arith
        | inr (x, e'') ↦ ground arith
      ]
    ]
  ]
