-- ===== src/ControlPlane/Service/Evidence.antt =====
-- What is recorded stays: the tables of which no row ever changes.
use mathlib.Core.List.{append_assoc, append-nil}
use phulax.Prelude.{List, [], ◌∷◌, ◌++◌, ◌≡◌, refl, sym, ◌∙◌, ap}
use phulax.Value.{Value}
use phulax.Policy.Schema.Conditions.{CharOps}
use phulax.ControlPlane.Db.{Db}
use phulax.ControlPlane.Service.{Environment, Request, handle_all}
use phulax.ControlPlane.Service.Steps.{
  IsStep, unchanged, organization_added, user_added, agent_registered, version_added, agent_revoked,
  tool_added, session_started, bundle_published, evidence_recorded, executions_changed,
  approvals_changed,
}
use phulax.ControlPlane.Service.Refinement.{handle_all-keeps}

module _ {ℓ} {A : Type ℓ} where
  -- The rows are there, in their order, before the rows that were added.
  abbrev pub Extends : List A → List A → Type ℓ
  Extends xs ys = (zs : List A) × (ys ≡ xs ++ zs)

  Extends-refl : (xs : List A) → Extends xs xs
  Extends-refl xs = ([], sym (append-nil xs))

  Extends-one : (xs : List A) (x : A) → Extends xs (xs ++ (x ∷ []))
  Extends-one xs x = (x ∷ [], refl)

  Extends-trans : (xs ys zs : List A) → Extends xs ys → Extends ys zs → Extends xs zs
  Extends-trans xs ys zs (us, e) (vs, e') =
      (us ++ vs, e' ∙ (ap (λ ws. ws ++ vs) e ∙ append_assoc xs us vs))

module _ {J : Type 0} where
  -- The evidence, and what it is attributed to: requests and events, the bundles, the versions of
  -- agents and the sessions.
  abbrev pub IsHistory : Db J → Db J → Type 0
  IsHistory db db' =
      Extends db.action_requests db'.action_requests
      × Extends db.events db'.events
      × Extends db.policy_bundles db'.policy_bundles
      × Extends db.agent_versions db'.agent_versions
      × Extends db.sessions db'.sessions

  IsHistory-refl : (db : Db J) → IsHistory db db
  IsHistory-refl db =
      (Extends-refl _, Extends-refl _, Extends-refl _, Extends-refl _, Extends-refl _)

  IsHistory-trans : (db db₁ db₂ : Db J) → IsHistory db db₁ → IsHistory db₁ db₂ → IsHistory db db₂
  IsHistory-trans db db₁ db₂ (r, e, b, v, s) (r', e', b', v', s') = (
    Extends-trans _ _ _ r r',
    Extends-trans _ _ _ e e',
    Extends-trans _ _ _ b b',
    Extends-trans _ _ _ v v',
    Extends-trans _ _ _ s s',
  )

  step-IsHistory : {db db' : Db J} → IsStep db db' → IsHistory db db'
  step-IsHistory {db} unchanged = IsHistory-refl db
  step-IsHistory {db} (organization_added o e) = IsHistory-refl db
  step-IsHistory {db} (user_added u h e) = IsHistory-refl db
  step-IsHistory {db} (agent_registered a v h k e r same) =
      (Extends-refl _, Extends-refl _, Extends-refl _, Extends-one _ v, Extends-refl _)
  step-IsHistory {db} (version_added a v h e) =
      (Extends-refl _, Extends-refl _, Extends-refl _, Extends-one _ v, Extends-refl _)
  step-IsHistory {db} (agent_revoked now id a h e) = IsHistory-refl db
  step-IsHistory {db} (tool_added t h e) = IsHistory-refl db
  step-IsHistory {db} (session_started s v h e) =
      (Extends-refl _, Extends-refl _, Extends-refl _, Extends-refl _, Extends-one _ s)
  step-IsHistory {db} (bundle_published b h e) =
      (Extends-refl _, Extends-refl _, Extends-one _ b, Extends-refl _, Extends-refl _)
  step-IsHistory {db} (evidence_recorded r e h k same) =
      (Extends-one _ r, Extends-one _ e, Extends-refl _, Extends-refl _, Extends-refl _)
  step-IsHistory {db} (executions_changed rows new h) =
      (Extends-refl _, (new, refl), Extends-refl _, Extends-refl _, Extends-refl _)
  step-IsHistory {db} (approvals_changed rows new h) =
      (Extends-refl _, (new, refl), Extends-refl _, Extends-refl _, Extends-refl _)

-- No requests, in whatever order and at whatever times, remove, change or reorder a recorded
-- action request, an event, a published bundle, a version of an agent or a session: rows are only
-- added after those that are there.
pub handle_all-IsHistory :
    {F : Type 0} ⦃chars : CharOps⦄ (env : Environment (Value F))
    (requests : List (Request (Value F))) (db : Db (Value F))
    → IsHistory db (handle_all env requests db)
handle_all-IsHistory env requests db =
    handle_all-keeps env (IsHistory db) requests db
      (λ d d' h step. IsHistory-trans db d d' h (step-IsHistory step)) (IsHistory-refl db)
