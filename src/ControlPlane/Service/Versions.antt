-- ===== src/ControlPlane/Service/Versions.antt =====
-- The versions of the published bundles.
use mathlib.Core.Path.{subst}
use phulax.Prelude.{
  ℕ, ◌+◌, Bool, true, false, ◌&&◌, List, [], ◌∷◌, ◌++◌, ◌≡◌, refl, inl, inr, arith, ◌==◌, ltb, leb,
  if◌then◌else◌, Bool-cases,
}
use phulax.Value.{Value}
use phulax.Policy.Schema.Conditions.{CharOps}
use phulax.ControlPlane.Tables.{count_where}
use phulax.ControlPlane.Tables.Laws.{count-append}
use phulax.ControlPlane.Db.{PolicyBundle, Db, empty_db}
use phulax.ControlPlane.Policies.{max_version}
use phulax.ControlPlane.Service.{Environment, Request, handle_all}
use phulax.ControlPlane.Service.Steps.{
  IsStep, unchanged, organization_added, user_added, agent_registered, version_added, agent_revoked,
  tool_added, session_started, bundle_published, evidence_recorded, executions_changed,
  approvals_changed,
}
use phulax.ControlPlane.Service.Refinement.{handle_all-keeps}

module _ {J : Type 0} where
  abbrev pub published_by : ℕ → PolicyBundle J → Bool
  published_by org_id b = b.org_id == org_id

  abbrev pub has_version : ℕ → ℕ → PolicyBundle J → Bool
  has_version org_id n b = (b.org_id == org_id) && (b.version == n)

  -- The versions of each organization are 1, 2, ... up to the number of its bundles, each once.
  abbrev pub IsNumbered : List (PolicyBundle J) → Type 0
  IsNumbered rows =
      (org_id : ℕ)
      → (max_version org_id rows ≡ count_where (published_by org_id) rows)
        × ((n : ℕ)
            → count_where (has_version org_id n) rows
              ≡ (if ltb 0 n && leb n (count_where (published_by org_id) rows) then 1 else 0))

  max_version-append :
      (org_id : ℕ) (rows : List (PolicyBundle J)) (b : PolicyBundle J)
      → ltb (max_version org_id rows) b.version ≡ true
      → max_version org_id (rows ++ (b ∷ []))
        ≡ (if b.org_id == org_id then b.version else max_version org_id rows)
  unfolding max_version
  max_version-append org_id [] b h = ground arith
  max_version-append org_id (c ∷ rows) b h = ground (arith, max_version-append org_id rows b)

  max_version-other :
      (org_id : ℕ) (rows : List (PolicyBundle J)) (b : PolicyBundle J)
      → (b.org_id == org_id) ≡ false
      → max_version org_id (rows ++ (b ∷ [])) ≡ max_version org_id rows
  unfolding max_version
  max_version-other org_id [] b h = ground arith
  max_version-other org_id (c ∷ rows) b h = ground (arith, max_version-other org_id rows b)

  publish-IsNumbered :
      (rows : List (PolicyBundle J)) (b : PolicyBundle J)
      → b.version ≡ max_version b.org_id rows + 1
      → IsNumbered rows
      → IsNumbered (rows ++ (b ∷ []))
  unfolding count_where
  publish-IsNumbered rows b e h org_id =
      let (highest, numbers) = h org_id in
      let counted = count-append (published_by org_id) rows (b ∷ []) in
      elim (Bool-cases (b.org_id == org_id)) [
        | inr n ↦
            let other = max_version-other org_id rows b n in
            (
              ground arith,
              λ k.
                  let each = numbers k in
                  let count = count-append (has_version org_id k) rows (b ∷ []) in ground arith,
            )
        | inl y ↦
            let next : b.version ≡ max_version org_id rows + 1 =
              subst (λ (o : ℕ). b.version ≡ max_version o rows + 1) (ground arith) e in
            let top = max_version-append org_id rows b (ground arith) in
            (
              ground arith,
              λ k.
                  let each = numbers k in
                  let count = count-append (has_version org_id k) rows (b ∷ []) in ground arith,
            )
      ]

  step-IsNumbered :
      (db db' : Db J) → IsNumbered db.policy_bundles → IsStep db db' → IsNumbered db'.policy_bundles
  step-IsNumbered db db' h unchanged = h
  step-IsNumbered db db' h (organization_added o e) = h
  step-IsNumbered db db' h (user_added u e k) = h
  step-IsNumbered db db' h (agent_registered a v e k n t same) = h
  step-IsNumbered db db' h (version_added a v e k) = h
  step-IsNumbered db db' h (agent_revoked now id a e k) = h
  step-IsNumbered db db' h (tool_added t e k) = h
  step-IsNumbered db db' h (session_started s v e k) = h
  step-IsNumbered db db' h (bundle_published b o e) = publish-IsNumbered db.policy_bundles b e h
  step-IsNumbered db db' h (evidence_recorded r e k u same) = h
  step-IsNumbered db db' h (executions_changed rows new e) = h
  step-IsNumbered db db' h (approvals_changed rows new e) = h

-- Whatever requests the control plane has served from empty tables, the versions of the bundles of
-- an organization are 1, 2, ... up to their number: none is used twice, and none is left out.
pub handle_all-IsNumbered :
    {F : Type 0} ⦃chars : CharOps⦄ (env : Environment (Value F))
    (requests : List (Request (Value F)))
    → IsNumbered (handle_all env requests empty_db).policy_bundles
unfolding max_version count_where
handle_all-IsNumbered env requests =
    handle_all-keeps env (λ db. IsNumbered db.policy_bundles) requests empty_db step-IsNumbered
      (λ org_id. (refl, λ n. ground arith))
