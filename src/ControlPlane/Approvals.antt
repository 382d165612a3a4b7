-- ===== src/ControlPlane/Approvals.antt =====
-- apps/api/src/phulax_api/routers/approvals.py: an approval is a decision about one request, once.
-- `now` is the time of the transaction, `ttl` the setting `approval_ttl_seconds`.
pub mod Opened
pub mod Consumption
pub mod Decisions
pub mod History
pub mod Final
pub mod Routes
pub mod Invariant
use phulax.Prelude.{
  ℕ, ◌+◌, String, Bool, true, false, not, ◌&&◌, ◌||◌, Option, none, some, List, [], ◌∷◌, ◌++◌,
  str_eq, ◌==◌, ltb, leb, if◌then◌else◌, Result, ok, err,
}
use phulax.ControlPlane.Tables.{find, find_last, update_where, count_where}
use phulax.ControlPlane.Db.{
  ApprovalState, pending, approved, rejected, expired, consumed, voided, same_state, User,
  ActionRequest, Approval, Event, approval_event, Db, HttpError, has_organization, has_session,
  has_user,
}

-- schemas.ApprovalResolve
pub record ApprovalResolve (J : Type 0) : Type 0 where
  pub org_id : ℕ
  pub request_id : ℕ
  pub trace_id : Option ℕ
  pub session_id : ℕ
  pub canonical_hash : String
  pub tool_name : String
  pub environment : String
  pub agent_version : String
  pub policy_version : String
  pub approver_role : String
  pub requester_user_id : Option ℕ
  pub args_preview : J
  pub redacted_fields : List String
  pub reason_codes : List String
  pub matched_rules : List String
  pub risk_score : Option ℕ

pub data Mode : Type 0 where
  was_consumed was_pending was_rejected : Mode

-- schemas.ApprovalResolveOut
pub record ApprovalResolveOut (J : Type 0) : Type 0 where
  pub mode : Mode
  pub created : Bool
  pub approval : Approval J

abbrev pub event_rule : ApprovalState → String
event_rule pending = "approval.requested"
event_rule approved = "approval.approved"
event_rule rejected = "approval.rejected"
event_rule expired = "approval.expired"
event_rule consumed = "approval.consumed"
event_rule voided = "approval.voided"

abbrev pub role_is : Option String → String → Bool
role_is none role = false
role_is (some r) role = str_eq r role

abbrev pub is_requester : Option ℕ → ℕ → Bool
is_requester none id = false
is_requester (some requester) id = id == requester

module _ {J : Type 0} where
  -- `binding`: the organization, the canonical hash and the session.
  abbrev pub is_bound : ApprovalResolve J → Approval J → Bool
  is_bound body a =
      (a.org_id == body.org_id)
      && (str_eq a.canonical_hash body.canonical_hash && (a.session_id == body.session_id))

  -- `state == s AND expires_at > now()`
  abbrev pub is_live : ApprovalState → ℕ → Approval J → Bool
  is_live s now a = same_state a.state s && ltb now a.expires_at

  abbrev pub is_consumable : ℕ → ApprovalResolve J → Approval J → Bool
  is_consumable now body a =
      is_bound body a && (is_live approved now a && str_eq a.policy_version body.policy_version)

  abbrev pub is_voidable : ℕ → ApprovalResolve J → Approval J → Bool
  is_voidable now body a =
      is_bound body a
      && (is_live approved now a && not (str_eq a.policy_version body.policy_version))

  -- `state IN ('PENDING', 'APPROVED')`
  abbrev pub is_active : Approval J → Bool
  is_active a = same_state a.state pending || same_state a.state approved

  abbrev pub is_expirable : ℕ → ApprovalResolve J → Approval J → Bool
  is_expirable now body a = is_bound body a && (is_active a && leb a.expires_at now)

  abbrev pub is_rejection : ℕ → ApprovalResolve J → Approval J → Bool
  is_rejection now body a = is_bound body a && is_live rejected now a

  abbrev pub is_pending : ApprovalResolve J → Approval J → Bool
  is_pending body a = is_bound body a && same_state a.state pending

  abbrev pub to_consumed : ℕ → Approval J → Approval J
  to_consumed now a = record a { state = consumed; consumed_at = some now }

  abbrev pub to_state : ApprovalState → Approval J → Approval J
  to_state s a = record a { state = s }

  -- `_record`: an event on the timeline of the request.
  unfoldable pub record_event : Approval J → Option ℕ → List (Event J) → List (Event J)
  record_event a decided_by events =
      events
      ++ (approval_event a.action_request_id (event_rule a.state) a.id a.state decided_by ∷ [])

  unfoldable pub record_first :
      (Approval J → Approval J) → Option (Approval J) → List (Event J) → List (Event J)
  unfolding record_event
  record_first change none events = events
  record_first change (some a) events = record_event (change a) none events

  -- The events of the rows that expire, one for each.
  unfoldable pub record_expired :
      (Approval J → Bool) → List (Approval J) → List (Event J) → List (Event J)
  unfolding record_event
  record_expired p [] events = events
  record_expired p (a ∷ rows) events =
      record_expired p rows (if p a then record_event (to_state expired a) none events else events)

  abbrev pub new_approval : ℕ → ℕ → ℕ → ApprovalResolve J → Approval J
  new_approval new_id action_request_id expires_at body = record {
    id = new_id;
    org_id = body.org_id;
    action_request_id = action_request_id;
    request_id = body.request_id;
    trace_id = body.trace_id;
    session_id = body.session_id;
    canonical_hash = body.canonical_hash;
    tool_name = body.tool_name;
    environment = body.environment;
    agent_version = body.agent_version;
    policy_version = body.policy_version;
    approver_role = body.approver_role;
    requester_user_id = body.requester_user_id;
    args_preview = body.args_preview;
    redacted_fields = body.redacted_fields;
    reason_codes = body.reason_codes;
    matched_rules = body.matched_rules;
    risk_score = body.risk_score;
    state = pending;
    expires_at = expires_at;
    decided_by = none;
    decided_at = none;
    consumed_at = none;
  }

  -- The foreign keys of the new row.
  abbrev pub has_references : ApprovalResolve J → Db J → Bool
  has_references body db =
      has_organization body.org_id db
      && (has_session body.session_id db && has_user body.requester_user_id db)

  -- The insertion raised an IntegrityError: the transaction is rolled back to the tables `before`
  -- it, and a PENDING row that they hold is served.
  unfoldable pub existing_pending : ApprovalResolve J → Db J → Result HttpError (Approval J × Db J)
  existing_pending body before = elim (find (is_pending body) before.approvals) [
    | none ↦ err (record { status = 409; code = "approval state changed; retry" })
    | some existing ↦ ok (existing, before)
  ]

  -- Record first: no decision event, no approval.
  unfoldable pub create_pending :
      ℕ → ℕ → ℕ → ApprovalResolve J → Db J → Db J → Result HttpError (Approval J × Db J)
  unfolding record_event existing_pending
  create_pending now ttl new_id body before db =
      elim (find_last (λ r. r.request_id == body.request_id) db.action_requests) [
        | none ↦ err (record { status = 404; code = "no recorded request to approve" })
        | some r ↦
            let a = new_approval new_id r.id (now + ttl) body in
            if has_references body db
            then ok (
              a,
              record db {
                approvals = db.approvals ++ (a ∷ []);
                events = record_event a none db.events;
              },
            )
            else existing_pending body before
      ]

  -- The two housekeeping updates: VOIDED, then EXPIRED.
  unfoldable pub void_and_expire : ℕ → ApprovalResolve J → Db J → Db J
  unfolding record_first record_expired
  void_and_expire now body db =
      let rows = update_where (is_voidable now body) (to_state voided) db.approvals in
      let events =
        record_first (to_state voided) (find (is_voidable now body) db.approvals) db.events in
      record db {
        approvals = update_where (is_expirable now body) (to_state expired) rows;
        events = record_expired (is_expirable now body) rows events;
      }

  -- What follows the housekeeping of the transaction that began with the tables `before`.
  unfoldable pub resolve_open :
      ℕ → ℕ → ℕ → ApprovalResolve J → Db J → Db J → Result HttpError (ApprovalResolveOut J × Db J)
  unfolding create_pending
  resolve_open now ttl new_id body before db = elim (find (is_rejection now body) db.approvals) [
    | some a ↦ ok (record { mode = was_rejected; created = false; approval = a }, db)
    | none ↦ elim (find (is_pending body) db.approvals) [
      | some a ↦ ok (record { mode = was_pending; created = false; approval = a }, db)
      | none ↦ elim (create_pending now ttl new_id body before db) [
        | err e ↦ err e
        | ok (a, db') ↦ ok (record { mode = was_pending; created = true; approval = a }, db')
      ]
    ]
  ]

  unfoldable pub resolve_approval :
      ℕ → ℕ → ℕ → ApprovalResolve J → Db J → Result HttpError (ApprovalResolveOut J × Db J)
  unfolding record_event
  resolve_approval now ttl new_id body db = elim (find (is_consumable now body) db.approvals) [
    | some a ↦ ok (
      record { mode = was_consumed; created = false; approval = to_consumed now a },
      record db {
        approvals = update_where (is_consumable now body) (to_consumed now) db.approvals;
        events = record_event (to_consumed now a) none db.events;
      },
    )
    | none ↦ resolve_open now ttl new_id body db (void_and_expire now body db)
  ]

  -- The `WHERE` of the decision.
  abbrev pub is_decidable : ℕ → ℕ → Approval J → Bool
  is_decidable now id a = (a.id == id) && is_live pending now a

  abbrev pub decided : ApprovalState → ℕ → ℕ → Approval J → Approval J
  decided s user_id now a = record a { state = s; decided_by = some user_id; decided_at = some now }

  -- The compare-and-set of the decision, and its event.
  unfoldable pub decide_row :
      ℕ → ApprovalState → ℕ → ℕ → Db J → Result HttpError (Approval J × Db J)
  unfolding record_event
  decide_row now new_state approval_id user_id db =
      if count_where (is_decidable now approval_id) db.approvals == 1
      then (let rows =
            update_where (is_decidable now approval_id) (decided new_state user_id now)
              db.approvals in
          elim (find (λ a. a.id == approval_id) rows) [
            | none ↦ err (record { status = 500; code = "InvalidRequestError" })
            | some a ↦ ok (
              a,
              record db { approvals = rows; events = record_event a (some user_id) db.events },
            )
          ])
      else err (record { status = 409; code = "approval.not-pending" })

  unfoldable pub decide_approval : ℕ → ℕ → ℕ → Bool → Db J → Result HttpError (Approval J × Db J)
  decide_approval now approval_id user_id approve db =
      elim (find (λ a. a.id == approval_id) db.approvals) [
        | none ↦ err (record { status = 404; code = "approval not found" })
        | some a ↦ elim (find (λ u. u.id == user_id) db.users) [
          | none ↦ err (record { status = 404; code = "approver not found in this org" })
          | some u ↦
              if not (u.org_id == a.org_id)
              then err (record { status = 404; code = "approver not found in this org" })
              else if not (role_is u.role a.approver_role)
              then err (record { status = 403; code = "approval.role-mismatch" })
              else if is_requester a.requester_user_id u.id
              then err (record { status = 403; code = "approval.self-approval" })
              else decide_row now (if approve then approved else rejected) approval_id u.id db
        ]
      ]
