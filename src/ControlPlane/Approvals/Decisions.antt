-- ===== src/ControlPlane/Approvals/Decisions.antt =====
-- `decide_approval`: who may decide, and what.
use mathlib.Core.Option.{some-injective}
use phulax.Prelude.{
  ℕ, ◌≤◌, ◌<◌, Bool, true, false, some, List, ◌≡◌, ◌∙◌, ap, sym, inl, inr, arith, ◌==◌,
  if◌then◌else◌, Bool-cases, Option-cases, ok,
}
use phulax.ControlPlane.Tables.{find, update_where, count_where}
use phulax.ControlPlane.Tables.Laws.{find-some, find-none_count, find_unique, find-update}
use phulax.ControlPlane.Db.{ApprovalState, pending, approved, rejected, User, Approval, Db}
use phulax.ControlPlane.Approvals.{
  role_is, is_requester, is_decidable, decided, decide_row, decide_approval,
}

abbrev pub decision_of : Bool → ApprovalState
decision_of approve = if approve then approved else rejected

module _ {J : Type 0} (now approval_id : ℕ) where
  abbrev has_id : Approval J → Bool
  has_id a = a.id == approval_id

  -- The user may decide the approval now.
  pub record MayDecide (u : User) (a : Approval J) : Type 0 where
    pub org : u.org_id ≡ a.org_id
    pub role : role_is u.role a.approver_role ≡ true
    pub other : is_requester a.requester_user_id u.id ≡ false
    pub state : a.state ≡ pending
    pub unexpired : now < a.expires_at

  -- The row that the compare-and-set changes is the one that was read.
  decidable-found :
      (rows : List (Approval J)) (a : Approval J)
      → count_where has_id rows ≤ 1
      → find has_id rows ≡ some a
      → count_where (is_decidable now approval_id) rows ≡ 1
      → is_decidable now approval_id a ≡ true
  decidable-found rows a u h c = elim (Option-cases (find (is_decidable now approval_id) rows)) [
    | inl e ↦ absurd (ground (arith, find-none_count (is_decidable now approval_id) rows e))
    | inr (b, e) ↦
        let yes = find-some (is_decidable now approval_id) rows b e in
        let same = find_unique (is_decidable now approval_id) has_id rows b e (ground arith) u in
        ap (is_decidable now approval_id) (some-injective a b (sym h ∙ same)) ∙ yes
  ]

  decided-found :
      (s : ApprovalState) (user_id : ℕ) (rows : List (Approval J)) (a : Approval J)
      → is_decidable now approval_id a ≡ true
      → find has_id rows ≡ some a
      → find has_id (update_where (is_decidable now approval_id) (decided s user_id now) rows)
        ≡ some (decided s user_id now a)
  decided-found s user_id rows a y h =
      find-update (is_decidable now approval_id) has_id (decided s user_id now) rows
        (λ x. ground arith)
      ∙ rw (h, y)

  decide_row-ok :
      (s : ApprovalState) (user_id : ℕ) (db db' : Db J) (a out : Approval J)
      → count_where has_id db.approvals ≤ 1
      → find has_id db.approvals ≡ some a
      → decide_row now s approval_id user_id db ≡ ok (out, db')
      → (is_decidable now approval_id a ≡ true)
        × (out ≡ decided s user_id now a)
        × (db'.approvals
            ≡ update_where (is_decidable now approval_id) (decided s user_id now) db.approvals)
  unfolding decide_row
  decide_row-ok s user_id db db' a out u h e =
      elim (Bool-cases (count_where (is_decidable now approval_id) db.approvals == 1)) [
        | inr n ↦ absurd (ground arith)
        | inl y ↦
            let free = decidable-found db.approvals a u h (ground arith) in
            let found = decided-found s user_id db.approvals a free h in
            (free, ground arith, ground arith)
      ]

  -- Where the id of the approval is unique, a decision that succeeds was made by a user of the organization of the
  -- approval who has its approver role and did not make the request, while it was PENDING and not
  -- expired. The approval becomes APPROVED or REJECTED as the user said, and names that user; no
  -- other row changes.
  pub decide_approval-MayDecide :
      (user_id : ℕ) (approve : Bool) (db db' : Db J) (out : Approval J)
      → count_where has_id db.approvals ≤ 1
      → decide_approval now approval_id user_id approve db ≡ ok (out, db')
      → (a : Approval J) × (u : User) × (find has_id db.approvals ≡ some a)
        × (find (λ v. v.id == user_id) db.users ≡ some u)
        × MayDecide u a
        × (out ≡ decided (decision_of approve) u.id now a)
        × (db'.approvals
            ≡ update_where
                (is_decidable now approval_id)
                (decided (decision_of approve) u.id now)
                db.approvals)
  unfolding decide_approval
  decide_approval-MayDecide user_id approve db db' out unique h =
      elim (Option-cases (find has_id db.approvals)) [
        | inl e ↦ absurd (ground arith)
        | inr (a, e) ↦ elim (Option-cases (find (λ v. v.id == user_id) db.users)) [
          | inl e' ↦ absurd (ground arith)
          | inr (u, e') ↦
              let done : decide_row now (decision_of approve) approval_id u.id db ≡ ok (out, db') =
                ground arith in
              let (free, changed, kept) =
                decide_row-ok (decision_of approve) u.id db db' a out unique e done in
              (
                a,
                u,
                e,
                e',
                record {
                  org = ground arith;
                  role = ground arith;
                  other = ground arith;
                  state = ground arith;
                  unexpired = ground arith;
                },
                changed,
                kept,
              )
        ]
      ]
