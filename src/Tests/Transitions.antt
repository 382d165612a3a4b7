-- ===== src/Tests/Transitions.antt =====
-- A decision by form, as a transition of the control plane.
use phulax.Prelude.{◌≡◌, refl, none, some, [], ◌∷◌}
use phulax.Value.{end, dict}
use phulax.ControlPlane.Tables.{count_where}
use phulax.ControlPlane.Db.{approved, User, Approval, Db, empty_db}
use phulax.ControlPlane.Approvals.{ApprovalResolve, new_approval, decided}
use phulax.ControlPlane.Service.{Request, post_form, handle}
use phulax.Tests.Samples.{char_ops}
use phulax.Tests.Service.{J, env}

abbrev body : ApprovalResolve J
body = record {
  org_id = 1;
  request_id = 7;
  trace_id = none;
  session_id = 4;
  canonical_hash = "h";
  tool_name = "refund";
  environment = "production";
  agent_version = "1";
  policy_version = "3";
  approver_role = "lead";
  requester_user_id = some 20;
  args_preview = dict end;
  redacted_fields = [];
  reason_codes = [];
  matched_rules = [];
  risk_score = none;
}

abbrev asked : Approval J
asked = new_approval 30 2 100 body

abbrev lead : User
lead = record { id = 21; org_id = 1; email = "l@demo"; name = "L"; role = some "lead" }

abbrev waiting : Db J
waiting = record empty_db { users = lead ∷ []; approvals = asked ∷ [] }

abbrev form : Request J
form = post_form 50 30 21 "approve"

form_runs : (handle env form waiting).approvals ≡ decided approved 21 50 asked ∷ []
unfolding handle phulax.ControlPlane.Review.approval_decide
    phulax.ControlPlane.Approvals.decide_approval phulax.ControlPlane.Approvals.decide_row
    phulax.ControlPlane.Tables.find phulax.ControlPlane.Tables.update_where count_where
form_runs = refl
