-- ===== src/ControlPlane/Service/Links.antt =====
-- Referential integrity: the keys that the rows refer to are there.
use phulax.Prelude.{
  ℕ, suc, Bool, true, List, [], ◌∷◌, ◌++◌, ◌≡◌, ◌≢◌, refl, ◌∙◌, ap, inl, inr, arith, All,
  All-append, any, any-append, length, ◌==◌, Option-cases, err, String,
}
use phulax.Value.{Value}
use phulax.Policy.Schema.Conditions.{CharOps}
use phulax.ControlPlane.Tables.{find, update_where}
use phulax.ControlPlane.Tables.Laws.{any-find, any-update, find-any}
use phulax.ControlPlane.Db.{
  Organization, Agent, AgentVersion, AgentSession, ActionRequest, Approval, Event, Db, empty_db,
}
use phulax.ControlPlane.Registry.Agents.{is_agent, revoked}
use phulax.ControlPlane.Registry.Sessions.{Settings, TokenClaims, issue_dev_token}
use phulax.ControlPlane.Events.{request_of, join}
use phulax.ControlPlane.Service.{Environment, Request, handle_all}
use phulax.ControlPlane.Service.Changes.{find-All, update-All}
use phulax.ControlPlane.Service.Steps.{
  IsStep, unchanged, organization_added, user_added, agent_registered, version_added, agent_revoked,
  tool_added, session_started, bundle_published, evidence_recorded, executions_changed,
  approvals_changed,
}
use phulax.ControlPlane.Service.Refinement.{handle_all-keeps}

module _ {ℓ κ} {A : Type ℓ} {B : Type κ} (key : B → A → Bool) where
  -- Each row of one table refers to a row of the other.
  abbrev pub Refer : List B → List A → Type 0
  Refer ys xs = All (λ y. any (key y) xs ≡ true) ys

  -- The other table grows.
  Refer-grown : (ys : List B) (xs zs : List A) → Refer ys xs → Refer ys (xs ++ zs)
  Refer-grown [] xs zs h = tt
  Refer-grown (y ∷ ys) xs zs (h, hs) =
      (rw (any-append (key y) xs zs, h) refl, Refer-grown ys xs zs hs)

  -- A row is added that refers to one.
  Refer-added :
      (ys : List B) (y : B) (xs : List A)
      → Refer ys xs
      → any (key y) xs ≡ true
      → Refer (ys ++ (y ∷ [])) xs
  Refer-added ys y xs h k = All-append (λ z. any (key z) xs ≡ true) ys (y ∷ []) h (k, tt)

  -- The other table is updated, and keeps its keys.
  Refer-updated :
      (ys : List B) (p : A → Bool) (f : A → A) (xs : List A)
      → ((y : B) (x : A) → key y (f x) ≡ key y x)
      → Refer ys xs
      → Refer ys (update_where p f xs)
  Refer-updated [] p f xs same h = tt
  Refer-updated (y ∷ ys) p f xs same (h, hs) =
      (any-update (key y) p f xs (same y) ∙ h, Refer-updated ys p f xs same hs)

any_last {ℓ} :
    {A : Type ℓ} (p : A → Bool) (xs : List A) (x : A) → p x ≡ true → any p (xs ++ (x ∷ [])) ≡ true
any_last p [] x h = ground arith
any_last p (y ∷ xs) x h = ground (arith, any_last p xs x h)

abbrev in_organization : Agent → Organization → Bool
in_organization a o = o.id == a.org_id

module _ {J : Type 0} where
  abbrev of_request : Event J → ActionRequest J → Bool
  of_request e r = r.id == request_of e

  abbrev for_request : Approval J → ActionRequest J → Bool
  for_request a r = r.id == a.action_request_id

  abbrev in_session : ActionRequest J → AgentSession → Bool
  in_session r s = s.id == r.session_id

  abbrev runs_version : AgentSession → AgentVersion J → Bool
  runs_version s v = v.id == s.agent_version_id

  abbrev of_agent : AgentVersion J → Agent → Bool
  of_agent v a = a.id == v.agent_id

  -- From each event and each approval to an organization.
  abbrev pub IsLinked : Db J → Type 0
  IsLinked db =
      Refer of_request db.events db.action_requests
      × Refer for_request db.approvals db.action_requests
      × Refer in_session db.action_requests db.sessions
      × Refer runs_version db.sessions db.agent_versions
      × Refer of_agent db.agent_versions db.agents
      × Refer in_organization db.agents db.organizations

  step-IsLinked : (db db' : Db J) → IsLinked db → IsStep db db' → IsLinked db'
  step-IsLinked db db' (e, a, r, s, v, o) unchanged = (e, a, r, s, v, o)
  step-IsLinked db db' (e, a, r, s, v, o) (organization_added org h) =
      (e, a, r, s, v, Refer-grown in_organization _ _ _ o)
  step-IsLinked db db' (e, a, r, s, v, o) (user_added u h k) = (e, a, r, s, v, o)
  step-IsLinked db db' (e, a, r, s, v, o) (agent_registered ag ver h k n t same) = (
    e,
    a,
    r,
    Refer-grown runs_version _ _ _ s,
    Refer-added of_agent _ ver _ (Refer-grown of_agent _ _ _ v)
        (any_last (of_agent ver) db.agents ag (ground arith)),
    Refer-added in_organization _ ag _ o h,
  )
  step-IsLinked db db' (e, a, r, s, v, o) (version_added ag ver h k) = (
    e,
    a,
    r,
    Refer-grown runs_version _ _ _ s,
    Refer-added of_agent _ ver _ v (any-find _ db.agents ag h),
    o,
  )
  step-IsLinked db db' (e, a, r, s, v, o) (agent_revoked now id ag h k) = (
    e,
    a,
    r,
    s,
    Refer-updated of_agent _ (is_agent id) (revoked now) _ (λ y x. refl) v,
    update-All (λ x. any (in_organization x) db.organizations ≡ true) (is_agent id) (revoked now)
        db.agents (λ x h. h) o,
  )
  step-IsLinked db db' (e, a, r, s, v, o) (tool_added t h k) = (e, a, r, s, v, o)
  step-IsLinked db db' (e, a, r, s, v, o) (session_started ses ver h k) = (
    e,
    a,
    Refer-grown in_session _ _ _ r,
    Refer-added runs_version _ ses _ s (any-find _ db.agent_versions ver h),
    v,
    o,
  )
  step-IsLinked db db' (e, a, r, s, v, o) (bundle_published b h k) = (e, a, r, s, v, o)
  step-IsLinked db db' (e, a, r, s, v, o) (evidence_recorded req ev h k same) = (
    Refer-added of_request _ ev _ (Refer-grown of_request _ _ _ e)
        (any_last (of_request ev) db.action_requests req (ground arith)),
    Refer-grown for_request _ _ _ a,
    Refer-added in_session _ req _ r h,
    s,
    v,
    o,
  )
  step-IsLinked db db' (e, a, r, s, v, o) (executions_changed rows new h) = (
    All-append (λ x. any (of_request x) db.action_requests ≡ true) db.events new e h,
    a,
    r,
    s,
    v,
    o,
  )
  step-IsLinked db db' (e, a, r, s, v, o) (approvals_changed rows new h) =
      let (linked, recorded) = h a in
      (
        All-append (λ x. any (of_request x) db.action_requests ≡ true) db.events new e recorded,
        linked,
        r,
        s,
        v,
        o,
      )

  -- No event is lost where it is joined to its request.
  length-join :
      (requests : List (ActionRequest J)) (events : List (Event J))
      → Refer of_request events requests
      → length (join requests events) ≡ length events
  unfolding join
  length-join requests [] h = refl
  length-join requests (e ∷ events) (h, hs) =
      let (r, found) = find-any (of_request e) requests h in
      rw (found, join) (ap suc (length-join requests events hs))

  issue_dev_token-IsLinked :
      (show_id : ℕ → String) (encode : TokenClaims → String → String) (settings : Settings)
      (now session_id : ℕ) (db : Db J)
      → IsLinked db
      → issue_dev_token show_id encode settings now session_id db
        ≢ err (record { status = 500; code = "AssertionError" })
  unfolding issue_dev_token
  issue_dev_token-IsLinked show_id encode settings now session_id db (e, a, r, s, v, o) k =
      elim (Option-cases (find (λ (x : AgentSession). x.id == session_id) db.sessions)) [
        | inl n ↦ ground arith
        | inr (x, n) ↦
            let (y, n') = find-any (runs_version x) db.agent_versions (
              find-All (λ t. any (runs_version t) db.agent_versions ≡ true)
                (λ (t : AgentSession). t.id == session_id) db.sessions x s n) in
            let (z, n'') = find-any (of_agent y) db.agents (
              find-All (λ t. any (of_agent t) db.agents ≡ true) (runs_version x) db.agent_versions y
                v n') in
            ground arith
      ]

module _ {F : Type 0} ⦃chars : CharOps⦄ (env : Environment (Value F)) where
  -- Whatever requests the control plane has served from empty tables, every event and every
  -- approval refers to a recorded request, that request to a session, that session to a version
  -- of an agent, and the agent to an organization; so the reads join every event to its request.
  pub handle_all-IsLinked :
      (requests : List (Request (Value F)))
      → let db = handle_all env requests empty_db in
        IsLinked db × (length (join db.action_requests db.events) ≡ length db.events)
  handle_all-IsLinked requests =
      let db = handle_all env requests empty_db in
      let linked =
        handle_all-keeps env IsLinked requests empty_db step-IsLinked (tt, tt, tt, tt, tt, tt) in
      (linked, length-join db.action_requests db.events linked.0)

  -- Whatever requests the control plane has served from empty tables, the assertions of
  -- `issue_dev_token` hold.
  pub issue_dev_token-never_asserts :
      (requests : List (Request (Value F))) (show_id : ℕ → String)
      (encode : TokenClaims → String → String) (settings : Settings) (now session_id : ℕ)
      → issue_dev_token show_id encode settings now session_id (handle_all env requests empty_db)
        ≢ err (record { status = 500; code = "AssertionError" })
  issue_dev_token-never_asserts requests show_id encode settings now session_id =
      issue_dev_token-IsLinked show_id encode settings now session_id
        (handle_all env requests empty_db) (handle_all-IsLinked requests).0
