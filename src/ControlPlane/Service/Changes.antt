-- ===== src/ControlPlane/Service/Changes.antt =====
-- What the statements of the approval routes do to the approvals and the events.
use mathlib.Core.Path.{subst}
use mathlib.Core.List.{append_assoc, append-nil}
use mathlib.Core.Option.{some-injective}
use phulax.Prelude.{
  ℕ, Bool, true, Option, none, some, List, [], ◌∷◌, ◌++◌, ◌≡◌, refl, sym, ◌∙◌, ap, inl, inr, arith,
  All, All-append, Option-cases, Bool-cases,
}
use phulax.ControlPlane.Tables.{find, update_where}
use phulax.ControlPlane.Db.{ApprovalState, expired, voided, ActionRequest, Approval, Event, Db}
use phulax.ControlPlane.Events.Timeline.{refers}
use phulax.ControlPlane.Approvals.{
  ApprovalResolve, is_voidable, is_expirable, to_state, record_event, record_first, record_expired,
  void_and_expire,
}
use phulax.ControlPlane.Service.Steps.{IsStep, approvals_changed, has_request}

module _ {ℓ κ} {A : Type ℓ} where
  pub update-All :
      (P : A → Type κ) (p : A → Bool) (f : A → A) (xs : List A)
      → ((x : A) → P x → P (f x))
      → All P xs
      → All P (update_where p f xs)
  unfolding update_where
  update-All P p f [] keeps h = tt
  update-All P p f (x ∷ xs) keeps (h, hs) = (
    elim (Bool-cases (p x)) [ inl y ↦ rw y (keeps x h) | inr n ↦ rw n h ],
    update-All P p f xs keeps hs,
  )

  pub find-All :
      (P : A → Type κ) (p : A → Bool) (xs : List A) (a : A) → All P xs → find p xs ≡ some a → P a
  unfolding find
  find-All P p [] a h e = cc
  find-All P p (x ∷ xs) a (h, hs) e = elim (Bool-cases (p x)) [
    | inl y ↦ subst P (some-injective x a (ground arith)) h
    | inr n ↦ find-All P p xs a hs (ground arith)
  ]

module _ {J : Type 0} where
  record_first-append :
      (change : Approval J → Approval J) (o : Option (Approval J)) (events : List (Event J))
      → record_first change o events ≡ events ++ record_first change o []
  unfolding record_first record_event
  record_first-append change none events = sym (append-nil events)
  record_first-append change (some a) events = refl

  record_expired-append :
      (p : Approval J → Bool) (rows : List (Approval J)) (events : List (Event J))
      → record_expired p rows events ≡ events ++ record_expired p rows []
  unfolding record_expired record_event
  record_expired-append p [] events = sym (append-nil events)
  record_expired-append p (a ∷ rows) events = elim (Bool-cases (p a)) [
    | inr n ↦ rw (n, record_expired) (record_expired-append p rows events)
    | inl y ↦
        let new = record_event (to_state expired a) none [] in
        rw (y, record_expired)
          (record_expired-append p rows (events ++ new)
            ∙ (append_assoc events new (record_expired p rows [])
                ∙ ap (λ rest. events ++ rest) (sym (record_expired-append p rows new))))
  ]

module _ {J : Type 0} (requests : List (ActionRequest J)) where
  abbrev pub AllLinked : List (Approval J) → Type 0
  AllLinked rows = All (λ a. has_request requests a ≡ true) rows

  abbrev pub AllRecorded : List (Event J) → Type 0
  AllRecorded events = All (λ e. refers requests e ≡ true) events

  pub record_event-AllRecorded :
      (a : Approval J) (d : Option ℕ)
      → has_request requests a ≡ true
      → AllRecorded (record_event a d [])
  unfolding record_event
  record_event-AllRecorded a d h = (h, tt)

  record_first-AllRecorded :
      (s : ApprovalState) (p : Approval J → Bool) (rows : List (Approval J))
      → AllLinked rows
      → AllRecorded (record_first (to_state s) (find p rows) [])
  unfolding record_first
  record_first-AllRecorded s p rows h = elim (Option-cases (find p rows)) [
    | inl n ↦ rw n tt
    | inr (a, e) ↦ rw e (find-All (λ x. has_request requests x ≡ true) p rows a h e, tt)
  ]

  record_expired-AllRecorded :
      (p : Approval J → Bool) (rows : List (Approval J))
      → AllLinked rows
      → AllRecorded (record_expired p rows [])
  unfolding record_expired
  record_expired-AllRecorded p [] h = tt
  record_expired-AllRecorded p (a ∷ rows) (h, hs) = elim (Bool-cases (p a)) [
    | inl y ↦
        let new = record_event (to_state expired a) none [] in
        rw (y, record_expired-append p rows new)
          (All-append (λ e. refers requests e ≡ true) new (record_expired p rows []) (h, tt)
            (record_expired-AllRecorded p rows hs))
    | inr n ↦ rw n (record_expired-AllRecorded p rows hs)
  ]

module _ {J : Type 0} where
  -- The approvals change, and events are added.
  abbrev pub IsChange : Db J → Db J → Type 0
  IsChange db db' =
      (rows : List (Approval J)) × (new : List (Event J)) × (db'
        ≡ record db { approvals = rows; events = db.events ++ new })
      × (AllLinked db.action_requests db.approvals
          → AllLinked db.action_requests rows × AllRecorded db.action_requests new)

  pub change-IsStep : (db db' : Db J) → IsChange db db' → IsStep db db'
  change-IsStep db db' (rows, new, e, h) = subst (IsStep db) (sym e) (approvals_changed rows new h)

  pub IsChange-trans : (db db₁ db₂ : Db J) → IsChange db db₁ → IsChange db₁ db₂ → IsChange db db₂
  IsChange-trans db db₁ db₂ (rows, new, e, h) (rows', new', e', h') = (
    rows',
    new ++ new',
    e'
        ∙ (ap (λ (d : Db J). record d { approvals = rows'; events = d.events ++ new' }) e
            ∙ ap (λ events. record db { approvals = rows'; events = events })
                (append_assoc db.events new new')),
    (let later =
          subst
            (λ (d : Db J).
              AllLinked d.action_requests d.approvals
              → AllLinked d.action_requests rows' × AllRecorded d.action_requests new')
            e h' in
        λ k.
          let (linked, recorded) = h k in
          let (linked', recorded') = later linked in
          (
            linked',
            All-append (λ x. refers db.action_requests x ≡ true) new new' recorded recorded',
          )),
  )

  pub void_and_expire-IsChange :
      (now : ℕ) (body : ApprovalResolve J) (db : Db J) → IsChange db (void_and_expire now body db)
  unfolding void_and_expire
  void_and_expire-IsChange now body db =
      let requests = db.action_requests in
      let rows = update_where (is_voidable now body) (to_state voided) db.approvals in
      let first = record_first (to_state voided) (find (is_voidable now body) db.approvals) [] in
      let rest = record_expired (is_expirable now body) rows [] in
      let voiding : AllLinked requests db.approvals → AllLinked requests rows =
        update-All (λ a. has_request requests a ≡ true) (is_voidable now body) (to_state voided)
          db.approvals (λ x h. h) in
      (
        update_where (is_expirable now body) (to_state expired) rows,
        first ++ rest,
        ap
            (λ events. record db {
              approvals = update_where (is_expirable now body) (to_state expired) rows;
              events = events;
            })
            (record_expired-append (is_expirable now body) rows _
              ∙ (ap (λ events. events ++ rest)
                    (record_first-append (to_state voided)
                      (find (is_voidable now body) db.approvals) db.events)
                  ∙ append_assoc db.events first rest)),
        λ h. (
          update-All (λ a. has_request requests a ≡ true) (is_expirable now body) (to_state expired)
              rows (λ x k. k) (voiding h),
          All-append (λ e. refers requests e ≡ true) first rest
              (record_first-AllRecorded requests voided (is_voidable now body) db.approvals h)
              (record_expired-AllRecorded requests (is_expirable now body) rows (voiding h)),
        ),
      )
