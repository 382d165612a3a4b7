-- ===== src/ControlPlane/Service/Moved.antt =====
-- The routes move the rows of approvals and executions as their state machines say.
use mathlib.Core.Path.{subst}
use phulax.Prelude.{
  ℕ, ◌+◌, ◌≤◌, Bool, true, some, List, [], ◌∷◌, ◌++◌, ◌≡◌, refl, sym, inl, inr, arith, All,
  All-append, ◌==◌, ok, if◌then◌else◌, Option-cases, Bool-cases, Result-cases,
}
use phulax.Prelude.Perms.{All-map}
use phulax.ControlPlane.Tables.{find, update_where, count_where, find_last}
use phulax.ControlPlane.Tables.Laws.{find-some}
use phulax.ControlPlane.Db.{expired, voided, ActionRequest, Approval, Db}
use phulax.ControlPlane.Approvals.{
  ApprovalResolve, ApprovalResolveOut, is_bound, is_consumable, is_voidable, is_expirable,
  is_rejection, is_pending, is_decidable, to_consumed, to_state, decided, new_approval,
  has_references, existing_pending, create_pending, void_and_expire, resolve_open, resolve_approval,
  decide_approval,
}
use phulax.ControlPlane.Approvals.Decisions.{MayDecide, decision_of, decide_approval-MayDecide}
use phulax.ControlPlane.Service.{Request, post_resolve}
use phulax.ControlPlane.Service.Moves.{
  Rows, added, moved, Binds, Decides, IsApprovalMove, same, consumes, voids, expires, decides,
  IsRequested, requested, ApprovalRows,
}

module _ {A : Type 0} (Move : A → A → Type 0) (New : A → Type 0) where
  pub Rows-refl : ((x : A) → Move x x) → (xs : List A) → Rows Move New xs xs
  Rows-refl stays [] = added tt
  Rows-refl stays (x ∷ xs) = moved (stays x) (Rows-refl stays xs)

  -- An update, where each row that it changes makes a move.
  pub Rows-update :
      (p : A → Bool) (f : A → A) (xs : List A)
      → ((x : A) → Move x x)
      → All (λ x. p x ≡ true → Move x (f x)) xs
      → Rows Move New xs (update_where p f xs)
  unfolding update_where
  Rows-update p f [] stays h = added tt
  Rows-update p f (x ∷ xs) stays (m, h) =
      moved (elim (Bool-cases (p x)) [ inl y ↦ rw y (m y) | inr n ↦ rw n (stays x) ])
        (Rows-update p f xs stays h)

  pub Rows-append :
      (ys : List A) {xs zs : List A}
      → All New ys
      → Rows Move New xs zs
      → ((ws : List A) → All New ws → All New (ws ++ ys))
      → Rows Move New xs (zs ++ ys)
  Rows-append ys new (added h) more = added (more _ h)
  Rows-append ys new (moved m h) more = moved m (Rows-append ys new h more)

pub All-of {ℓ κ} : {A : Type ℓ} (P : A → Type κ) (xs : List A) → ((x : A) → P x) → All P xs
All-of P [] h = tt
All-of P (x ∷ xs) h = (h x, All-of P xs h)

zero-All {ℓ} :
    {A : Type ℓ} (p : A → Bool) (xs : List A) (a : A)
    → count_where p xs ≡ 0
    → All (λ x. p x ≡ true → a ≡ x) xs
unfolding count_where
zero-All p [] a u = tt
zero-All p (x ∷ xs) a u = (λ y. absurd (ground arith), zero-All p xs a (ground arith))

-- With at most one row of an id, every row of it is the one that is found.
pub unique-All {ℓ} :
    {A : Type ℓ} (p : A → Bool) (xs : List A) (a : A)
    → count_where p xs ≤ 1
    → find p xs ≡ some a
    → All (λ x. p x ≡ true → a ≡ x) xs
unfolding count_where find
unique-All p [] a u h = tt
unique-All p (x ∷ xs) a u h = elim (Bool-cases (p x)) [
  | inr n ↦ (λ y. absurd (ground arith), unique-All p xs a (ground arith) (ground arith))
  | inl y ↦ (λ k. ground arith, zero-All p xs a (ground arith))
]

module _ {J : Type 0} where
  Binds-bound : (body : ApprovalResolve J) (a : Approval J) → is_bound body a ≡ true → Binds body a
  Binds-bound body a h = record { org = ground arith; hash = ground arith; session = ground arith }

  module _ (ttl now new_id : ℕ) (body : ApprovalResolve J) (db : Db J) where
    abbrev request : Request J
    request = post_resolve now new_id body

    consume-Rows :
        ApprovalRows ttl db request
          (update_where (is_consumable now body) (to_consumed now) db.approvals)
    consume-Rows = Rows-update _ _ (is_consumable now body) (to_consumed now) db.approvals same (
        All-of _ db.approvals (λ a y.
          consumes now new_id body a refl (Binds-bound body a (ground arith)) (ground arith)
            (ground arith) (ground arith)))

    sweep-move :
        (a : Approval J)
        → let b = if is_voidable now body a then to_state voided a else a in
          IsApprovalMove db request a (if is_expirable now body b then to_state expired b else b)
    sweep-move a = elim (Bool-cases (is_voidable now body a)) [
      | inl v ↦ subst (IsApprovalMove db request a) (ground arith) (
          voids now new_id body a refl (Binds-bound body a (ground arith)) (ground arith)
            (ground arith) (ground arith))
      | inr n ↦ elim (Bool-cases (is_expirable now body a)) [
        | inr m ↦ subst (IsApprovalMove db request a) (ground arith) (same a)
        | inl y ↦ subst (IsApprovalMove db request a) (ground arith) (
            expires now new_id body a refl (Binds-bound body a (ground arith)) (ground arith)
              (ground arith))
      ]
    ]

    sweep-Rows :
        (rows : List (Approval J))
        → Rows (IsApprovalMove db request) (IsRequested ttl db request) rows (
            update_where
              (is_expirable now body)
              (to_state expired)
              (update_where (is_voidable now body) (to_state voided) rows))
    unfolding update_where
    sweep-Rows [] = added tt
    sweep-Rows (a ∷ rows) = moved (sweep-move a) (sweep-Rows rows)

    swept-Rows : ApprovalRows ttl db request (void_and_expire now body db).approvals
    unfolding void_and_expire
    swept-Rows = sweep-Rows db.approvals

    create_pending-Rows :
        (a : Approval J) (db' : Db J)
        → create_pending now ttl new_id body db (void_and_expire now body db) ≡ ok (a, db')
        → ApprovalRows ttl db request db'.approvals
    unfolding create_pending existing_pending void_and_expire
    create_pending-Rows a db' h =
        elim (Option-cases (
          find_last (λ (q : ActionRequest J). q.request_id == body.request_id)
            db.action_requests)) [
              | inl e ↦ absurd (ground arith)
              | inr (q, e) ↦
                  let row = new_approval new_id q.id (now + ttl) body in
                  elim (Bool-cases (has_references body (void_and_expire now body db))) [
                    | inl y ↦ subst (ApprovalRows ttl db request) (ground arith) (
                        Rows-append _ _ (row ∷ []) (requested now new_id body q refl e, tt)
                          swept-Rows
                          (λ ws k.
                            All-append _ ws (row ∷ []) k (requested now new_id body q refl e, tt)))
                    | inr n ↦ elim (Option-cases (find (is_pending body) db.approvals)) [
                      | inl k ↦ absurd (ground arith)
                      | inr (b, k) ↦
                          subst (ApprovalRows ttl db request) (ground arith)
                            (Rows-refl _ _ same db.approvals)
                    ]
                  ]
            ]

    pub resolve_approval-Rows :
        (out : ApprovalResolveOut J) (db' : Db J)
        → resolve_approval now ttl new_id body db ≡ ok (out, db')
        → ApprovalRows ttl db request db'.approvals
    unfolding resolve_approval resolve_open
    resolve_approval-Rows out db' h =
        let swept = void_and_expire now body db in
        elim (Option-cases (find (is_consumable now body) db.approvals)) [
          | inr (a, e) ↦ subst (ApprovalRows ttl db request) (ground arith) consume-Rows
          | inl e ↦ elim (Option-cases (find (is_rejection now body) swept.approvals)) [
            | inr (a, k) ↦ subst (ApprovalRows ttl db request) (ground arith) swept-Rows
            | inl k ↦ elim (Option-cases (find (is_pending body) swept.approvals)) [
              | inr (a, m) ↦ subst (ApprovalRows ttl db request) (ground arith) swept-Rows
              | inl m ↦ elim (Result-cases (create_pending now ttl new_id body db swept)) [
                | inl ((a, db₁), c) ↦
                    subst (ApprovalRows ttl db request) (ground arith) (create_pending-Rows a db₁ c)
                | inr (x, c) ↦ absurd (ground arith)
              ]
            ]
          ]
        ]

  pub decide_approval-Rows :
      (ttl now id user_id : ℕ) (approve : Bool) (r : Request J) (out : Approval J) (db db' : Db J)
      → count_where (λ (a : Approval J). a.id == id) db.approvals ≤ 1
      → Decides now id user_id approve r
      → decide_approval now id user_id approve db ≡ ok (out, db')
      → ApprovalRows ttl db r db'.approvals
  decide_approval-Rows ttl now id user_id approve r out db db' unique d h =
      let (a, u, found, known, may, said, rows) =
        decide_approval-MayDecide now id user_id approve db db' out unique h in
      let own = find-some (λ (x : Approval J). x.id == id) db.approvals a found in
      let here : id ≡ a.id = ground arith in
      let one = unique-All (λ (x : Approval J). x.id == id) db.approvals a unique found in
      let decision : IsApprovalMove db r a (decided (decision_of approve) u.id now a) =
        decides now user_id approve u a (subst (λ (i : ℕ). Decides now i user_id approve r) here d)
          known (subst (λ (i : ℕ). MayDecide now i u a) here may) in
      subst (ApprovalRows ttl db r) (sym rows) (
        Rows-update _ _ (is_decidable now id) (decided (decision_of approve) u.id now) db.approvals
          same
          (All-map
            (λ x e y.
              subst (λ b. IsApprovalMove db r b (decided (decision_of approve) u.id now b))
                (e (ground arith)) decision)
            db.approvals one))
