-- ===== src/ControlPlane/Approvals/Routes.antt =====
-- apps/api/src/phulax_api/routers/approvals.py: the routes over decide_approval, and the lookup.
use mathlib.Core.List.{reverse}
use phulax.Prelude.{
  ℕ, zero, suc, Bool, true, false, ◌&&◌, Option, none, some, List, [], ◌∷◌, ◌==◌, keep, Result, ok,
  err,
}
use phulax.ControlPlane.Tables.{find}
use phulax.ControlPlane.Db.{ApprovalState, same_state, Approval, Db, HttpError}
use phulax.ControlPlane.Approvals.{decide_approval}

module _ {J : Type 0} where
  unfoldable pub approve : ℕ → ℕ → ℕ → Db J → Result HttpError (Approval J × Db J)
  approve now approval_id user_id db = decide_approval now approval_id user_id true db

  unfoldable pub reject : ℕ → ℕ → ℕ → Db J → Result HttpError (Approval J × Db J)
  reject now approval_id user_id db = decide_approval now approval_id user_id false db

  unfoldable pub get_approval : ℕ → Db J → Result HttpError (Approval J)
  get_approval approval_id db = elim (find (λ a. a.id == approval_id) db.approvals) [
    | none ↦ err (record { status = 404; code = "approval not found" })
    | some a ↦ ok a
  ]

  -- `limit(n)`
  abbrev limit : ℕ → List (Approval J) → List (Approval J)
  limit zero rows = []
  limit (suc n) [] = []
  limit (suc n) (a ∷ rows) = a ∷ limit n rows

  abbrev in_org : Option ℕ → Approval J → Bool
  in_org none a = true
  in_org (some org_id) a = a.org_id == org_id

  abbrev in_state : Option ApprovalState → Approval J → Bool
  in_state none a = true
  in_state (some s) a = same_state a.state s

  -- The newest first, at most a hundred.
  unfoldable pub list_approvals : Option ℕ → Option ApprovalState → Db J → List (Approval J)
  list_approvals org_id state db =
      limit 100 (keep (λ a. in_org org_id a && in_state state a) (reverse db.approvals))
