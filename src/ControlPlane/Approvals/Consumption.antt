-- ===== src/ControlPlane/Approvals/Consumption.antt =====
-- When the gateway may act on an approval: exactly when one is consumed.
use mathlib.Core.Path.{subst}
use phulax.Prelude.{ℕ, ◌≤◌, ◌<◌, true, some, List, ◌≡◌, inl, inr, arith, Option-cases, ok, eq_iff}
use phulax.ControlPlane.Tables.{find, update_where, count_where}
use phulax.ControlPlane.Tables.Laws.{count-update_none, find-some}
use phulax.ControlPlane.Db.{approved, Approval, Db}
use phulax.ControlPlane.Approvals.Opened.{resolve_open-mode}
use phulax.ControlPlane.Approvals.{
  ApprovalResolve, ApprovalResolveOut, was_consumed, is_consumable, to_consumed, resolve_approval,
  void_and_expire,
}

module _ {J : Type 0} (now ttl new_id : ℕ) (body : ApprovalResolve J) (db : Db J) where
  -- The approval authorizes exactly this request, now.
  pub record Authorizes (a : Approval J) : Type 0 where
    pub org : a.org_id ≡ body.org_id
    pub hash : a.canonical_hash ≡ body.canonical_hash
    pub session : a.session_id ≡ body.session_id
    pub state : a.state ≡ approved
    pub unexpired : now < a.expires_at
    pub policy : a.policy_version ≡ body.policy_version

  consumable-Authorizes : (a : Approval J) → is_consumable now body a ≡ true → Authorizes a
  consumable-Authorizes a h = record {
    org = ground arith;
    hash = ground (arith, eq_iff a.canonical_hash body.canonical_hash);
    session = ground arith;
    state = ground arith;
    unexpired = ground arith;
    policy = ground (arith, eq_iff a.policy_version body.policy_version);
  }

  -- Nothing that the update left is consumable, then or later.
  consumed_all :
      (later : ℕ) (rows : List (Approval J))
      → now ≤ later
      → count_where
          (is_consumable later body)
          (update_where (is_consumable now body) (to_consumed now) rows)
        ≡ 0
  consumed_all later rows h =
      count-update_none (is_consumable now body) (is_consumable later body) (to_consumed now) rows
        (λ x. ground arith)

  -- The answer is `consumed` only if an approval of this organization, canonical hash and session
  -- was APPROVED, not expired, and granted under this policy version. It is the one returned, now
  -- CONSUMED, and neither then nor later is any approval left that the same request could consume.
  pub resolve-consumed :
      (out : ApprovalResolveOut J) (db' : Db J) (later : ℕ)
      → resolve_approval now ttl new_id body db ≡ ok (out, db')
      → out.mode ≡ was_consumed
      → now ≤ later
      → (a : Approval J) × (find (is_consumable now body) db.approvals ≡ some a)
        × Authorizes a
        × (out.approval ≡ to_consumed now a)
        × (count_where (is_consumable later body) db'.approvals ≡ 0)
  unfolding resolve_approval
  resolve-consumed out db' later h m le =
      elim (Option-cases (find (is_consumable now body) db.approvals)) [
        | inl nothing ↦ absurd (
            resolve_open-mode now ttl new_id body db (void_and_expire now body db) out db'
              (ground arith) m)
        | inr (a, found) ↦ (
          a,
          found,
          consumable-Authorizes a (find-some (is_consumable now body) db.approvals a found),
          ground arith,
          subst (λ rows. count_where (is_consumable later body) rows ≡ 0) (ground arith)
              (consumed_all later db.approvals le),
        )
      ]
