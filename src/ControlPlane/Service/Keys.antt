-- ===== src/ControlPlane/Service/Keys.antt =====
-- The unique keys of the registry.
use phulax.Prelude.{
  ℕ, ◌≤◌, Bool, true, none, List, [], ◌∷◌, ◌++◌, ◌≡◌, inl, inr, arith, str_eq, String, eq_iff,
  Bool-cases,
}
use phulax.Value.{Value}
use phulax.Policy.Schema.Conditions.{CharOps}
use phulax.ControlPlane.Tables.{find, count_where}
use phulax.ControlPlane.Tables.Laws.{count-append, count-le, count-update_same, find-none_count}
use phulax.ControlPlane.Db.{Db, empty_db}
use phulax.ControlPlane.Registry.Orgs.{is_named, has_email}
use phulax.ControlPlane.Registry.Agents.{has_name, is_agent, revoked}
use phulax.ControlPlane.Registry.Tools.{is_tool}
use phulax.ControlPlane.Service.{Environment, Request, handle_all}
use phulax.ControlPlane.Service.Steps.{
  IsStep, unchanged, organization_added, user_added, agent_registered, version_added, agent_revoked,
  tool_added, session_started, bundle_published, evidence_recorded, executions_changed,
  approvals_changed,
}
use phulax.ControlPlane.Service.Refinement.{handle_all-keeps}

pub same_text : (a b c : String) → str_eq a c ≡ true → str_eq b c ≡ true → str_eq b a ≡ true
same_text a b c h k = ground (arith, eq_iff a c, eq_iff b c, eq_iff b a)

-- A row is added whose own key no row has.
pub insert_unique {ℓ} :
    {A : Type ℓ} (q own : A → Bool) (rows : List A) (x : A)
    → (q x ≡ true → (y : A) → q y ≡ true → own y ≡ true)
    → find own rows ≡ none
    → count_where q rows ≤ 1
    → count_where q (rows ++ (x ∷ [])) ≤ 1
unfolding count_where
insert_unique q own rows x same absent u =
    let counted = count-append q rows (x ∷ []) in
    let zero_own = find-none_count own rows absent in
    elim (Bool-cases (q x)) [
      | inl y ↦ ground (arith, count-le q own rows (same y))
      | inr n ↦ ground arith
    ]

module _ {J : Type 0} where
  -- No two organizations have one name, and no two users, agents or tools of one organization one
  -- address or name.
  abbrev pub IsKeyed : Db J → Type 0
  IsKeyed db =
      ((name : String) → count_where (is_named name) db.organizations ≤ 1)
      × ((org_id : ℕ) (email : String) → count_where (has_email org_id email) db.users ≤ 1)
      × ((org_id : ℕ) (name : String) → count_where (has_name org_id name) db.agents ≤ 1)
      × ((org_id : ℕ) (name : String) → count_where (is_tool org_id name) db.tools ≤ 1)

  step-IsKeyed : (db db' : Db J) → IsKeyed db → IsStep db db' → IsKeyed db'
  step-IsKeyed db db' (o, u, a, t) unchanged = (o, u, a, t)
  step-IsKeyed db db' (o, u, a, t) (organization_added org e) = (
    λ name.
        insert_unique (is_named name) (is_named org.name) db.organizations org
          (λ y x h. ground (arith, same_text org.name x.name name)) e (o name),
    u,
    a,
    t,
  )
  step-IsKeyed db db' (o, u, a, t) (user_added user h e) = (
    o,
    λ org_id email.
        insert_unique (has_email org_id email) (has_email user.org_id user.email) db.users user
          (λ y x k. ground (arith, same_text user.email x.email email)) e (u org_id email),
    a,
    t,
  )
  step-IsKeyed db db' (o, u, a, t) (agent_registered ag v h k e r same) = (
    o,
    u,
    λ org_id name.
        insert_unique (has_name org_id name) (has_name ag.org_id ag.name) db.agents ag
          (λ y x k. ground (arith, same_text ag.name x.name name)) e (a org_id name),
    t,
  )
  step-IsKeyed db db' (o, u, a, t) (version_added ag v h e) = (o, u, a, t)
  step-IsKeyed db db' (o, u, a, t) (agent_revoked now id ag h e) = (
    o,
    u,
    λ org_id name. omega (
      arith,
      a org_id name,
      count-update_same (is_agent id) (has_name org_id name) (revoked now) db.agents
          (λ x. ground arith),
    ),
    t,
  )
  step-IsKeyed db db' (o, u, a, t) (tool_added tool h e) = (
    o,
    u,
    a,
    λ org_id name.
        insert_unique (is_tool org_id name) (is_tool tool.org_id tool.name) db.tools tool
          (λ y x k. ground (arith, same_text tool.name x.name name)) e (t org_id name),
  )
  step-IsKeyed db db' (o, u, a, t) (session_started s v h e) = (o, u, a, t)
  step-IsKeyed db db' (o, u, a, t) (bundle_published b h e) = (o, u, a, t)
  step-IsKeyed db db' (o, u, a, t) (evidence_recorded r e h k same) = (o, u, a, t)
  step-IsKeyed db db' (o, u, a, t) (executions_changed rows new h) = (o, u, a, t)
  step-IsKeyed db db' (o, u, a, t) (approvals_changed rows new h) = (o, u, a, t)

-- Whatever requests the control plane has served from empty tables, no two organizations have one
-- name, no two users of an organization one address, and no two agents and no two tools of an
-- organization one name.
pub handle_all-IsKeyed :
    {F : Type 0} ⦃chars : CharOps⦄ (env : Environment (Value F))
    (requests : List (Request (Value F)))
    → IsKeyed (handle_all env requests empty_db)
unfolding count_where
handle_all-IsKeyed env requests =
    handle_all-keeps env IsKeyed requests empty_db step-IsKeyed
      (λ name. ground arith, λ o e. ground arith, λ o n. ground arith, λ o n. ground arith)
