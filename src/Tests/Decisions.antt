-- ===== src/Tests/Decisions.antt =====
-- Approvals: the theorems on a small database.
use phulax.Prelude.{
  String, ◌⊎◌, ℕ, ◌≤◌, true, false, ◌≡◌, refl, none, some, List, [], ◌∷◌, ok, arith, ◌==◌,
}
use phulax.ControlPlane.Tables.{find, count_where, update_where}
use phulax.ControlPlane.Db.{approved, User, ActionRequest, empty_db, Approval, Db}
use phulax.ControlPlane.Approvals.{
  ApprovalResolve, ApprovalResolveOut, was_consumed, new_approval, decided, is_decidable,
  is_consumable, to_consumed, resolve_approval, decide_approval,
}
use phulax.ControlPlane.Approvals.Consumption.{Authorizes, resolve-consumed}
use phulax.ControlPlane.Approvals.Decisions.{MayDecide, decision_of, decide_approval-MayDecide}
use phulax.ControlPlane.Review.{Redirect, approval_decide}
use phulax.ControlPlane.Review.Decision.{approval_decide-MayDecide}
use phulax.ControlPlane.Approvals.Invariant.{IsExclusive, is_active_for}
use phulax.ControlPlane.Approvals.Final.{Keeps, serve_all-Keeps}
use phulax.ControlPlane.Approvals.History.{resolve, decide, Call, serve_all, serve_all-IsExclusive}

abbrev body : ApprovalResolve ℕ
body = record {
  org_id = 1;
  request_id = 7;
  trace_id = none;
  session_id = 4;
  canonical_hash = "h";
  tool_name = "refund";
  environment = "production";
  agent_version = "1";
  policy_version = "3";
  approver_role = "lead";
  requester_user_id = some 20;
  args_preview = 0;
  redacted_fields = [];
  reason_codes = [];
  matched_rules = [];
  risk_score = none;
}

abbrev asked : Approval ℕ
asked = new_approval 30 2 100 body

abbrev lead : User
lead = record { id = 21; org_id = 1; email = "l@demo"; name = "L"; role = some "lead" }

abbrev asking : ActionRequest ℕ
asking = record {
  id = 2;
  request_id = 7;
  trace_id = none;
  idempotency_key = none;
  session_id = 4;
  tool_id = none;
  tool_name = "refund";
  environment = "production";
  acting_user_id = some 20;
  canonical_hash = "h";
  args_meta = 0;
  redacted_fields = [];
  requested_at = 5;
}

abbrev waiting : Db ℕ
waiting = record empty_db {
  organizations = record { id = 1; name = "demo" } ∷ [];
  users = lead ∷ record { id = 20; org_id = 1; email = "r@demo"; name = "R"; role = none } ∷ [];
  sessions =
      record { id = 4; agent_version_id = 3; environment = "production"; started_at = 1 } ∷ [];
  action_requests = asking ∷ [];
  approvals = asked ∷ [];
}

decide_approval_runs :
    (db' : Db ℕ) × (decide_approval 50 30 21 true waiting ≡ ok (decided approved 21 50 asked, db'))
unfolding decide_approval find phulax.ControlPlane.Approvals.decide_row count_where update_where
decide_approval_runs = (_, refl)

decide_approval-MayDecide_example :
    (a : Approval ℕ) × (u : User) × (find (λ x. x.id == 30) waiting.approvals ≡ some a)
    × (find (λ v. v.id == 21) waiting.users ≡ some u)
    × MayDecide 50 30 u a
    × (decided approved 21 50 asked ≡ decided (decision_of true) u.id 50 a)
    × ((decide_approval_runs.0).approvals
        ≡ update_where (is_decidable 50 30) (decided (decision_of true) u.id 50) waiting.approvals)
unfolding count_where
decide_approval-MayDecide_example =
    decide_approval-MayDecide 50 30 21 true waiting (decide_approval_runs.0)
      (decided approved 21 50 asked) (omega arith) (decide_approval_runs.1)

abbrev next_page : Redirect
next_page = record { approval_id = 30; error = none }

approval_decide_runs :
    approval_decide 50 30 21 "approve" waiting ≡ (next_page, decide_approval_runs.0)
unfolding approval_decide decide_approval_runs decide_approval find
    phulax.ControlPlane.Approvals.decide_row count_where update_where
approval_decide_runs = refl

approval_decide-MayDecide_example :
    ((e : String) × (next_page.error ≡ some e) × (decide_approval_runs.0 ≡ waiting))
    ⊎ ((a : Approval ℕ) × (u : User) × (next_page.error ≡ none)
        × (find (λ (x : Approval ℕ). x.id == 30) waiting.approvals ≡ some a)
        × (find (λ (v : User). v.id == 21) waiting.users ≡ some u)
        × MayDecide 50 30 u a
        × ((decide_approval_runs.0).approvals
            ≡ update_where
                (is_decidable 50 30)
                (decided (decision_of true) u.id 50)
                waiting.approvals))
unfolding count_where
approval_decide-MayDecide_example =
    approval_decide-MayDecide 50 30 21 "approve" waiting (decide_approval_runs.0) next_page
      (omega arith) approval_decide_runs

abbrev granted : Db ℕ
granted = record waiting { approvals = decided approved 21 50 asked ∷ [] }

abbrev consumption : ApprovalResolveOut ℕ
consumption = record {
  mode = was_consumed;
  created = false;
  approval = to_consumed 60 (decided approved 21 50 asked);
}

resolve_approval_runs :
    (db' : Db ℕ) × (resolve_approval 60 900 31 body granted ≡ ok (consumption, db'))
unfolding resolve_approval find
resolve_approval_runs = (_, refl)

resolve-consumed_example :
    (a : Approval ℕ) × (find (is_consumable 60 body) granted.approvals ≡ some a)
    × Authorizes 60 900 31 body granted a
    × (consumption.approval ≡ to_consumed 60 a)
    × (count_where (is_consumable 70 body) (resolve_approval_runs.0).approvals ≡ 0)
resolve-consumed_example =
    resolve-consumed 60 900 31 body granted consumption (resolve_approval_runs.0) 70
      (resolve_approval_runs.1) refl (omega arith)

waiting-IsExclusive : IsExclusive waiting.approvals
unfolding IsExclusive count_where
waiting-IsExclusive key = ground arith

-- It is asked for again, decided, consumed, and asked for once more.
abbrev calls : List (Call ℕ)
calls =
    resolve 40 900 31 body
    ∷ decide 50 30 21 true
    ∷ resolve 60 900 32 body
    ∷ resolve 70 900 33 body
    ∷ []

serve_all_runs : count_where (is_active_for body) (serve_all calls waiting).approvals ≡ 1
unfolding serve_all count_where phulax.ControlPlane.Approvals.History.serve resolve_approval find
    decide_approval phulax.ControlPlane.Approvals.resolve_open
    phulax.ControlPlane.Approvals.void_and_expire update_where
    phulax.ControlPlane.Approvals.decide_row phulax.ControlPlane.Tables.find_last
serve_all_runs = refl

serve_all-IsExclusive_example :
    count_where (is_active_for body) (serve_all calls waiting).approvals ≤ 1
serve_all-IsExclusive_example = serve_all-IsExclusive calls waiting body waiting-IsExclusive

abbrev used : Approval ℕ
used = to_consumed 60 (decided approved 21 50 asked)

abbrev spent : Db ℕ
spent = record waiting { approvals = used ∷ [] }

serve_all-Keeps_example : Keeps used (serve_all calls spent).approvals
unfolding find
serve_all-Keeps_example = serve_all-Keeps used refl calls spent refl
