-- ===== src/ControlPlane/Review.antt =====
-- apps/api/src/phulax_api/routers/ui.py: what the review pages show and do, without their HTML.
pub mod Decision
use phulax.Prelude.{
  ℕ, String, Bool, true, false, not, Option, none, some, List, [], ◌∷◌, ◌==◌, str_eq, keep, take,
  reverse, Result, ok, err,
}
use phulax.ControlPlane.Tables.{find}
use phulax.ControlPlane.Db.{pending, same_state, User, Agent, Approval, Db, HttpError}
use phulax.ControlPlane.Approvals.{decide_approval}
use phulax.ControlPlane.Events.{agent_of}

-- The answer to a form: the approval whose page is shown next, and the error that it shows, which
-- is the code of the refusal where the code shows its text.
pub record Redirect : Type 0 where
  pub approval_id : ℕ
  pub error : Option String

-- What the page of an approval is made of; its form is there if `decidable`.
pub record Detail (J : Type 0) : Type 0 where
  pub approval : Approval J
  pub agent : Option Agent
  pub users : List User
  pub decidable : Bool

module _ {J : Type 0} where
  abbrev pub is_waiting : Approval J → Bool
  is_waiting a = same_state a.state pending

  abbrev pub recent : Db J → List (Approval J)
  recent db = take 50 (reverse db.approvals)

  -- The two tables: the approvals that wait, and the others.
  unfoldable pub approvals_list : Db J → List (Approval J) × List (Approval J)
  approvals_list db = (keep is_waiting (recent db), keep (λ a. not (is_waiting a)) (recent db))

  -- `agent`, of the version of the session.
  unfoldable pub agent_for : Approval J → Db J → Option Agent
  unfolding agent_of
  agent_for a db = elim (find (λ s. s.id == a.session_id) db.sessions) [
    | none ↦ none
    | some s ↦ agent_of s db
  ]

  unfoldable pub approval_detail : ℕ → Db J → Result HttpError (Detail J)
  unfolding agent_for
  approval_detail approval_id db = elim (find (λ a. a.id == approval_id) db.approvals) [
    | none ↦ err (record { status = 404; code = "approval not found" })
    | some a ↦ ok (record {
      approval = a;
      agent = agent_for a db;
      users = keep (λ u. u.org_id == a.org_id) db.users;
      decidable = is_waiting a;
    })
  ]

  -- The decision of the form. The exception is caught, so the transaction is committed.
  unfoldable pub approval_decide : ℕ → ℕ → ℕ → String → Db J → Redirect × Db J
  approval_decide now approval_id user_id action db =
      elim (decide_approval now approval_id user_id (str_eq action "approve") db) [
        | err e ↦ (record { approval_id = approval_id; error = some e.code }, db)
        | ok (a, db') ↦ (record { approval_id = approval_id; error = none }, db')
      ]
