-- ===== src/Policy/Engine/Asymmetry.antt =====
-- When a rule fires: the scope of its match, and what an unknown condition does to each class.
use phulax.Prelude.{
  Bool, true, false, not, ◌&&◌, String, Option, none, some, List, [], ◌∷◌, ◌≡◌, refl, ◌∙◌,
  if◌then◌else◌, ◌≢◌, ◌⊎◌, inl, inr, ◌↔◌, arith, contains, str_eq, All, ok, Result-cases,
}
use phulax.Value.{FloatOps, Value}
use phulax.Policy.Rules.{is_permissive, Condition, Match, Rule}
use phulax.Policy.Engine.Conditions.{resolve_condition}
use phulax.Policy.Engine.{
  PolicyRequest, refuted, passed, excludes, match_mismatch, check_conditions, apply_rule,
}
use phulax.Policy.Engine.Fired.{fires}

-- An absent field covers everything; a present one covers the names that it lists.
abbrev pub covers : Option (List String) → String → Bool
covers none name = true
covers (some names) name = contains names name

abbrev pub in_scope : {F : Type 0} → Match → PolicyRequest F → Bool
in_scope m request =
    covers m.tools request.tool_name
    && (covers m.environments request.environment && covers m.agent_ids request.agent_id)

covers_lem :
    (names : Option (List String)) (name : String) → excludes names name ≡ not (covers names name)
covers_lem none name = refl
covers_lem (some names) name = refl

-- Every mismatch has a text that is not empty.
mismatch_text :
    (a b c : Bool)
    → str_eq
        (if a
          then "tool mismatch"
          else if b
          then "environment mismatch"
          else if c
          then "agent mismatch"
          else "")
        ""
      ≡ (not a && (not b && not c))
mismatch_text true b c = refl
mismatch_text false true c = refl
mismatch_text false false true = refl
mismatch_text false false false = refl

mismatch-eq-in_scope :
    {F : Type 0} (m : Match) (request : PolicyRequest F)
    → str_eq (match_mismatch m request) "" ≡ in_scope m request
unfolding match_mismatch
mismatch-eq-in_scope m request =
    mismatch_text _ _ _
    ∙ ground (
      arith,
      covers_lem m.tools request.tool_name,
      covers_lem m.environments request.environment,
      covers_lem m.agent_ids request.agent_id,
    )

and_right : {a b : Bool} → (a && b) ≡ false → a ≡ true → b ≡ false
and_right p h = ground arith

module _ {F : Type 0} ⦃ops : FloatOps F⦄ (context : Value F) where
  abbrev pub IsTrue : Condition F → Type 0
  IsTrue c = resolve_condition c context ≡ ok (some true)

  abbrev pub IsUnknown : Condition F → Type 0
  IsUnknown c = resolve_condition c context ≡ ok none

  abbrev pub NotRefuted : Condition F → Type 0
  NotRefuted c = IsTrue c ⊎ IsUnknown c

  check_conditions-true :
      (cs : List (Condition F))
      → All IsTrue cs
      → check_conditions cs context false ≡ ok (passed false)
  unfolding check_conditions
  check_conditions-true [] h = refl
  check_conditions-true (c ∷ cs) h = ground (arith, check_conditions-true cs h.1)

  check_conditions-passed :
      (cs : List (Condition F)) (saw u : Bool)
      → check_conditions cs context saw ≡ ok (passed u)
      → All NotRefuted cs
  unfolding check_conditions
  check_conditions-passed [] saw u h = tt
  check_conditions-passed (c ∷ cs) saw u h = elim (Result-cases (resolve_condition c context)) [
    | inl (some true, e) ↦ (inl e, check_conditions-passed cs saw u (ground arith))
    | inl (some false, e) ↦ ground arith
    | inl (none, e) ↦ (inr e, check_conditions-passed cs true u (ground arith))
    | inr (x, e) ↦ ground arith
  ]

  -- An unknown condition, once seen, is reported.
  check_conditions-saw :
      (cs : List (Condition F)) → check_conditions cs context true ≢ ok (passed false)
  unfolding check_conditions
  check_conditions-saw [] h = cc
  check_conditions-saw (c ∷ cs) h = ground (arith, check_conditions-saw cs)

  check_conditions-passed_false :
      (cs : List (Condition F))
      → check_conditions cs context false ≡ ok (passed false)
      → All IsTrue cs
  unfolding check_conditions
  check_conditions-passed_false [] h = tt
  check_conditions-passed_false (c ∷ cs) h = elim (Result-cases (resolve_condition c context)) [
    | inl (some true, e) ↦ (e, check_conditions-passed_false cs (ground arith))
    | inl (some false, e) ↦ ground arith
    | inl (none, e) ↦ absurd (check_conditions-saw cs (ground arith))
    | inr (x, e) ↦ ground arith
  ]

  check_conditions-NotRefuted :
      (cs : List (Condition F)) (saw : Bool)
      → All NotRefuted cs
      → (u : Bool) × (check_conditions cs context saw ≡ ok (passed u))
  unfolding check_conditions
  check_conditions-NotRefuted [] saw h = (saw, refl)
  check_conditions-NotRefuted (c ∷ cs) saw (inl e, h) =
      let (u, p) = check_conditions-NotRefuted cs saw h in (u, ground arith)
  check_conditions-NotRefuted (c ∷ cs) saw (inr e, h) =
      let (u, p) = check_conditions-NotRefuted cs true h in (u, ground arith)

module _ {F : Type 0} ⦃ops : FloatOps F⦄ (request : PolicyRequest F) (context : Value F) where
  -- A rule fires only if its match covers the request and its conditions were checked.
  fires-checked :
      (r : Rule F)
      → fires request context r ≡ true
      → (in_scope r.match request ≡ true)
        × (u : Bool) × (check_conditions r.conditions context false ≡ ok (passed u))
        × ((is_permissive r.effect && u) ≡ false)
  unfolding apply_rule
  fires-checked r h = elim (Result-cases (check_conditions r.conditions context false)) [
    | inl (refuted d, e) ↦ ground (arith, mismatch-eq-in_scope r.match request)
    | inl (passed u, e) ↦ (
      ground (arith, mismatch-eq-in_scope r.match request),
      u,
      e,
      ground (arith, mismatch-eq-in_scope r.match request),
    )
    | inr (x, e) ↦ ground (arith, mismatch-eq-in_scope r.match request)
  ]

  checked-fires :
      (r : Rule F) (u : Bool)
      → in_scope r.match request ≡ true
      → check_conditions r.conditions context false ≡ ok (passed u)
      → (is_permissive r.effect && u) ≡ false
      → fires request context r ≡ true
  unfolding apply_rule
  checked-fires r u s c p = ground (arith, mismatch-eq-in_scope r.match request)

  -- A permissive rule fires exactly when its match covers the request and every one of its
  -- conditions is provably true.
  pub permissive-fires :
      (r : Rule F)
      → is_permissive r.effect ≡ true
      → (fires request context r ≡ true)
        ↔ ((in_scope r.match request ≡ true) × All (IsTrue context) r.conditions)
  permissive-fires r h = (
    λ f.
        let (s, u, c, p) = fires-checked r f in
        (s, check_conditions-passed_false context r.conditions (rw (and_right p h) at c)),
    λ (s, t). checked-fires r false s (check_conditions-true context r.conditions t) (ground arith),
  )

  -- A restrictive rule fires exactly when its match covers the request and none of its
  -- conditions is provably false: each is true or unknown.
  pub restrictive-fires :
      (r : Rule F)
      → is_permissive r.effect ≡ false
      → (fires request context r ≡ true)
        ↔ ((in_scope r.match request ≡ true) × All (NotRefuted context) r.conditions)
  restrictive-fires r h = (
    λ f.
        let (s, u, c, p) = fires-checked r f in
        (s, check_conditions-passed context r.conditions false u c),
    λ (s, t).
        let (u, c) = check_conditions-NotRefuted context r.conditions false t in
        checked-fires r u s c (ground arith),
  )
