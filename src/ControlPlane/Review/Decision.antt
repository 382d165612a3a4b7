-- ===== src/ControlPlane/Review/Decision.antt =====
-- The review page cannot bypass a rule of the decision.
use phulax.Prelude.{
  ℕ, ◌≤◌, String, none, some, ◌≡◌, ◌⊎◌, ap, ◌∙◌, inl, inr, arith, ◌==◌, str_eq, Result-cases,
}
use phulax.ControlPlane.Tables.{find, update_where, count_where}
use phulax.ControlPlane.Db.{User, Approval, Db}
use phulax.ControlPlane.Approvals.{decided, is_decidable, decide_approval}
use phulax.ControlPlane.Approvals.Decisions.{MayDecide, decision_of, decide_approval-MayDecide}
use phulax.ControlPlane.Review.{Redirect, approval_decide}

module _ {J : Type 0} (now approval_id : ℕ) where
  -- Where the id of the approval is unique, a decision on the review page either shows an error and
  -- changes nothing; or it shows none, the user may decide the approval at that time, and its row,
  -- and no other, becomes APPROVED by that user if the action is `approve`, and else REJECTED.
  pub approval_decide-MayDecide :
      (user_id : ℕ) (action : String) (db db' : Db J) (page : Redirect)
      → count_where (λ (a : Approval J). a.id == approval_id) db.approvals ≤ 1
      → approval_decide now approval_id user_id action db ≡ (page, db')
      → ((e : String) × (page.error ≡ some e) × (db' ≡ db))
        ⊎ ((a : Approval J) × (u : User) × (page.error ≡ none)
            × (find (λ (x : Approval J). x.id == approval_id) db.approvals ≡ some a)
            × (find (λ (v : User). v.id == user_id) db.users ≡ some u)
            × MayDecide now approval_id u a
            × (db'.approvals
                ≡ update_where
                    (is_decidable now approval_id)
                    (decided (decision_of (str_eq action "approve")) u.id now)
                    db.approvals))
  unfolding approval_decide
  approval_decide-MayDecide user_id action db db' page unique h =
      elim (Result-cases (decide_approval now approval_id user_id (str_eq action "approve") db)) [
        | inr (e, k) ↦ inl (e.code, ground arith, ground arith)
        | inl ((out, db₁), k) ↦
            let (a, u, found, known, may, said, rows) =
              decide_approval-MayDecide now approval_id user_id (str_eq action "approve") db db₁ out
                unique k in
            let same : db' ≡ db₁ = ground arith in
            inr (a, u, ground arith, found, known, may, ap (λ (d : Db J). d.approvals) same ∙ rows)
      ]
