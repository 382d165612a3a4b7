-- ===== src/ControlPlane/Approvals/Invariant.antt =====
-- The partial unique index of `approvals`: at most one live approval for each organization,
-- canonical hash and session.
use phulax.Prelude.{
  sym, ℕ, ◌+◌, ◌≤◌, Bool, true, false, ◌&&◌, ◌||◌, none, List, [], ◌∷◌, ◌++◌, ◌≡◌, refl, inl, inr,
  arith, ◌==◌, Bool-cases, Option-cases, ok, eq_iff,
}
use mathlib.Core.Path.{subst}
use phulax.ControlPlane.Tables.{find, update_where, count_where}
use phulax.ControlPlane.Tables.Laws.{
  count-append, count-update_le, count-update_from, count-both_zero, find-none_count,
}
use phulax.ControlPlane.Db.{
  ApprovalState, pending, approved, expired, voided, same_state, Approval, Db,
}
use phulax.ControlPlane.Approvals.Opened.{IsOpened, resolve_open-IsOpened}
use phulax.ControlPlane.Approvals.{
  ApprovalResolve, ApprovalResolveOut, is_bound, is_live, is_active, is_consumable, is_voidable,
  is_expirable, is_pending, to_consumed, to_state, new_approval, decided, is_decidable, decide_row,
  resolve_approval, void_and_expire,
}

module _ {J : Type 0} where
  abbrev pub is_active_for : ApprovalResolve J → Approval J → Bool
  is_active_for key a = is_bound key a && is_active a

  -- Whatever the request, at most one row is PENDING or APPROVED for it.
  unfoldable pub IsExclusive : List (Approval J) → Type 0
  IsExclusive rows = (key : ApprovalResolve J) → count_where (is_active_for key) rows ≤ 1

  consumed-IsExclusive :
      (now : ℕ) (body : ApprovalResolve J) (rows : List (Approval J))
      → IsExclusive rows
      → IsExclusive (update_where (is_consumable now body) (to_consumed now) rows)
  unfolding IsExclusive
  consumed-IsExclusive now body rows u key = omega (
    arith,
    u key,
    count-update_le (is_consumable now body) (is_active_for key) (to_consumed now) rows
        (λ x h. ground arith),
  )

  closed-IsExclusive :
      (p : Approval J → Bool) (s : ApprovalState) (rows : List (Approval J))
      → (same_state s pending || same_state s approved) ≡ false
      → IsExclusive rows
      → IsExclusive (update_where p (to_state s) rows)
  unfolding IsExclusive
  closed-IsExclusive p s rows e u key =
      omega (
        arith,
        u key,
        count-update_le p (is_active_for key) (to_state s) rows (λ x h. ground arith),
      )

  decided-IsExclusive :
      (now id user_id : ℕ) (s : ApprovalState) (rows : List (Approval J))
      → IsExclusive rows
      → IsExclusive (update_where (is_decidable now id) (decided s user_id now) rows)
  unfolding IsExclusive
  decided-IsExclusive now id user_id s rows u key = omega (
    arith,
    u key,
    count-update_le (is_decidable now id) (is_active_for key) (decided s user_id now) rows
        (λ x h. ground arith),
  )

  module _ (now : ℕ) (body : ApprovalResolve J) where
    void_and_expire-IsExclusive :
        (db : Db J) → IsExclusive db.approvals → IsExclusive (void_and_expire now body db).approvals
    unfolding void_and_expire
    void_and_expire-IsExclusive db u =
        closed-IsExclusive (is_expirable now body) expired
          (update_where (is_voidable now body) (to_state voided) db.approvals) refl
          (closed-IsExclusive (is_voidable now body) voided db.approvals refl u)

    abbrev is_granted : Approval J → Bool
    is_granted a = is_bound body a && same_state a.state approved

    abbrev is_granted_now : Approval J → Bool
    is_granted_now a = is_bound body a && is_live approved now a

    -- Where nothing was consumable, the housekeeping leaves no approval APPROVED.
    none_granted :
        (db : Db J)
        → find (is_consumable now body) db.approvals ≡ none
        → count_where is_granted (void_and_expire now body db).approvals ≡ 0
    unfolding void_and_expire
    none_granted db h =
        count-update_from (is_expirable now body) is_granted_now is_granted (to_state expired)
          (update_where (is_voidable now body) (to_state voided) db.approvals) (λ x n. ground arith)
          (count-update_from (is_voidable now body) (is_consumable now body) is_granted_now
            (to_state voided) db.approvals (λ x n. ground arith)
            (find-none_count (is_consumable now body) db.approvals h))

    none_active :
        (rows : List (Approval J))
        → count_where is_granted rows ≡ 0
        → find (is_pending body) rows ≡ none
        → count_where (is_active_for body) rows ≡ 0
    none_active rows g n =
        count-both_zero is_granted (is_pending body) (is_active_for body) rows
          (λ x a b. ground arith) g (find-none_count (is_pending body) rows n)

    -- A key that the new row meets is the key of the request.
    same_key :
        (new_id r e : ℕ) (key : ApprovalResolve J) (x : Approval J)
        → is_bound key (new_approval new_id r e body) ≡ true
        → is_active_for body x ≡ false
        → is_active_for key x ≡ false
    same_key new_id r e key x b n = ground (arith, eq_iff body.canonical_hash key.canonical_hash)

    insert-IsExclusive :
        (new_id r e : ℕ) (rows : List (Approval J))
        → IsExclusive rows
        → count_where (is_active_for body) rows ≡ 0
        → IsExclusive (rows ++ (new_approval new_id r e body ∷ []))
    unfolding IsExclusive count_where
    insert-IsExclusive new_id r e rows u z key =
        let counted = count-append (is_active_for key) rows (new_approval new_id r e body ∷ []) in
        elim (Bool-cases (is_bound key (new_approval new_id r e body))) [
          | inl t ↦
              let none_left =
                count-both_zero (is_active_for body) (is_active_for body) (is_active_for key) rows
                  (λ x a b. same_key new_id r e key x t a) z z in
              ground arith
          | inr n ↦ ground (arith, u key)
        ]

  module _ (now ttl new_id : ℕ) (body : ApprovalResolve J) where
    opened-IsExclusive :
        (before db db' : Db J)
        → IsExclusive before.approvals
        → IsExclusive db.approvals
        → count_where (is_granted now body) db.approvals ≡ 0
        → IsOpened now ttl new_id body before db db'
        → IsExclusive db'.approvals
    opened-IsExclusive before db db' v u g (IsOpened.left e) = subst IsExclusive (sym e) u
    opened-IsExclusive before db db' v u g (IsOpened.rolled_back e) = subst IsExclusive (sym e) v
    opened-IsExclusive before db db' v u g (IsOpened.inserted id n e) = subst IsExclusive (sym e) (
        insert-IsExclusive now body new_id id (now + ttl) db.approvals u
          (none_active now body db.approvals g n))

    -- An answer leaves at most one PENDING or APPROVED row for each organization, canonical hash
    -- and session, where there was at most one before.
    pub resolve_approval-IsExclusive :
        (out : ApprovalResolveOut J) (db db' : Db J)
        → IsExclusive db.approvals
        → resolve_approval now ttl new_id body db ≡ ok (out, db')
        → IsExclusive db'.approvals
    unfolding resolve_approval
    resolve_approval-IsExclusive out db db' u h =
        elim (Option-cases (find (is_consumable now body) db.approvals)) [
          | inr (a, e) ↦
              subst IsExclusive (ground arith) (consumed-IsExclusive now body db.approvals u)
          | inl e ↦
              opened-IsExclusive db (void_and_expire now body db) db' u
                (void_and_expire-IsExclusive now body db u) (none_granted now body db e)
                (resolve_open-IsOpened now ttl new_id body db (void_and_expire now body db) out db'
                  (ground arith))
        ]

  pub decide_row-IsExclusive :
      (now id user_id : ℕ) (s : ApprovalState) (out : Approval J) (db db' : Db J)
      → IsExclusive db.approvals
      → decide_row now s id user_id db ≡ ok (out, db')
      → IsExclusive db'.approvals
  unfolding decide_row
  decide_row-IsExclusive now id user_id s out db db' u h =
      elim (Bool-cases (count_where (is_decidable now id) db.approvals == 1)) [
        | inr n ↦ absurd (ground arith)
        | inl y ↦
            subst IsExclusive (ground arith) (decided-IsExclusive now id user_id s db.approvals u)
      ]
