-- ===== src/Policy/Schema/Document.antt =====
-- A whole document: the rules that are accepted, one for one and under distinct ids.
use mathlib.Core.Path.{subst}
use phulax.Prelude.{
  ℕ, suc, ◌+◌, String, false, Option, none, some, List, [], ◌∷◌, ◌++◌, ◌≡◌, ◌≢◌, inl, inr, refl, ap,
  arith, All, contains, ok, err, Option-cases, length,
}
use phulax.Value.{ℤ, Value, scalar, list, dict, Fields, get, items}
use phulax.Policy.Rules.{Match, Rule, Condition}
use phulax.Prelude.Perms.{All-map}
use phulax.Value.{FloatOps}
use phulax.Policy.Engine.{PolicyRequest, AgentState, evaluate}
use phulax.Policy.Engine.Conditions.{assertion_error}
use phulax.Policy.Engine.Typed.{HasTypedConditions}
use phulax.Policy.Engine.Totality.{evaluate-never_asserts}
use phulax.Policy.Schema.Conditions.{
  CharOps, Where, Issue, issue, Problem, parse_conditions, unknown_keys,
}
use phulax.Policy.Schema.{
  complain, raise_errors, rule_fields, nonempty_text, parse_match, parse_rule_fields, parse_rule,
  parse_rules, parse_rules_data, effect_of,
}
use phulax.Policy.Schema.Sound.{
  IsWellFormed, parse_rule-IsWellFormed, complain-eq-nil, append-eq-nil,
}

-- The ids are distinct, and none of them is among `seen`.
abbrev pub HasFreshIds : {F : Type 0} → List String → List (Rule F) → Type 0
HasFreshIds seen [] = Unit
HasFreshIds seen (r ∷ rules) = (contains seen r.id ≡ false) × HasFreshIds (r.id ∷ seen) rules

-- What is left out is reported.
parse_match-none :
    {F : Type 0} (v : Option (Value F)) (w : Where)
    → (parse_match v w).0 ≡ none
    → (parse_match v w).1 ≢ []
unfolding parse_match
parse_match-none none w h = λ k. cc
parse_match-none (some (dict fs)) w h = ground arith
parse_match-none (some v) w h = λ k. cc

ends_nonempty {ℓ} : {A : Type ℓ} (xs : List A) (x : A) → xs ++ (x ∷ []) ≢ []
ends_nonempty [] x h = cc
ends_nonempty (y ∷ xs) x h = cc

middle_nil {ℓ} : {A : Type ℓ} (a b c : List A) → a ++ (b ++ c) ≡ [] → (b ≡ []) × (c ≡ [])
middle_nil a b c h = append-eq-nil b c (append-eq-nil a (b ++ c) h).1

pub raise_errors-ok :
    {A : Type 0} (es : List Issue) (a b : A) → raise_errors es a ≡ ok b → (es ≡ []) × (a ≡ b)
raise_errors-ok es a b h = ground arith

module _ {F : Type 0} ⦃chars : CharOps⦄ where
  parse_conditions-none :
      (v : Option (Value F)) (w : Where)
      → (parse_conditions v w).0 ≡ none
      → (parse_conditions v w).1 ≢ []
  unfolding parse_conditions
  parse_conditions-none none w h = cc
  parse_conditions-none (some (list vs)) w h = cc
  parse_conditions-none (some v) w h = λ k. cc

  parse_rule_fields-none :
      (fs : Fields F) (id : String)
      → (parse_rule_fields fs id).0 ≡ none
      → (parse_rule_fields fs id).1 ≢ []
  unfolding parse_rule_fields
  parse_rule_fields-none fs id h k =
      let w = Where.rule id in
      let e0 : List Issue = complain (unknown_keys fs rule_fields) w Problem.unknown_fields in
      let m : Option Match × List Issue = parse_match (get fs "match") w in
      let c : Option (List (Condition F)) × List Issue = parse_conditions (get fs "conditions") w in
      elim (Option-cases (effect_of (get fs "effect"))) [
        | inl e ↦ ends_nonempty e0 (issue w Problem.unknown_effect) (ground arith)
        | inr (effect, e) ↦ elim (Option-cases m.0) [
          | inl e' ↦ parse_match-none (get fs "match") w e' (middle_nil e0 m.1 c.1 (ground arith)).0
          | inr (_, e') ↦ elim (Option-cases c.0) [
            | inl e'' ↦
                parse_conditions-none (get fs "conditions") w e''
                  (middle_nil e0 m.1 c.1 (ground arith)).1
            | inr (_, e'') ↦ ground arith
          ]
        ]
      ]

  parse_rule-some :
      (v : Value F) (i : ℕ) → (parse_rule v i).1 ≡ [] → (r : Rule F) × ((parse_rule v i).0 ≡ some r)
  unfolding parse_rule
  parse_rule-some (dict fs) i k = elim (Option-cases (get fs "id")) [
    | inl e ↦ ground arith
    | inr (v, e) ↦ elim (Option-cases (nonempty_text v)) [
      | inl e' ↦ ground arith
      | inr (id, e') ↦ elim (Option-cases (parse_rule_fields fs id).0) [
        | inl e'' ↦ absurd (parse_rule_fields-none fs id e'' (ground arith))
        | inr (r, e'') ↦ (r, ground arith)
      ]
    ]
  ]
  parse_rule-some v i k = cc

  -- Of a list of rules that is accepted, every rule is well formed, the ids are fresh, and none
  -- is left out.
  parse_rules-accepted :
      (vs : List (Value F)) (i : ℕ) (seen : List String)
      → (parse_rules vs i seen).1 ≡ []
      → All IsWellFormed (parse_rules vs i seen).0
        × HasFreshIds seen (parse_rules vs i seen).0
        × (length (parse_rules vs i seen).0 ≡ length vs)
  unfolding parse_rules
  parse_rules-accepted [] i seen k = (tt, tt, refl)
  parse_rules-accepted (v ∷ vs) i seen k = elim (Option-cases (parse_rule v i).0) [
    | inl e ↦
        let quiet : (parse_rule v i).1 ≡ [] =
          (append-eq-nil (parse_rule v i).1 (parse_rules vs (i + 1) seen).1 (ground arith)).0 in
        absurd (cc (e, (parse_rule-some v i quiet).1))
    | inr (r, e) ↦
        let rest : List (Rule F) × List Issue = parse_rules vs (i + 1) (r.id ∷ seen) in
        let split : ((parse_rule v i).1 ≡ [])
            × (complain (contains seen r.id) (Where.rule r.id) Problem.duplicate_id ++ rest.1
                ≡ []) =
          append-eq-nil _ _ (rw (e, parse_rules) at k) in
        let (fresh, quiet) =
          append-eq-nil (complain (contains seen r.id) (Where.rule r.id) Problem.duplicate_id)
            rest.1 split.1 in
        let (good, ids, count) = parse_rules-accepted vs (i + 1) (r.id ∷ seen) quiet in
        rw (e, parse_rules)
          (
            (parse_rule-IsWellFormed v i r e split.0, good),
            (complain-eq-nil _ _ _ fresh, ids),
            ap suc count,
          )
  ]

  -- The list under the key `rules` of a document.
  abbrev pub rules_of : Value F → List (Value F)
  rules_of (dict fs) = elim (get fs "rules") [
    | none ↦ []
    | some v ↦ elim v [ list vs ↦ items vs | _ ↦ [] ]
  ]
  rules_of v = []

  -- A document that is accepted gives one rule for each entry of its list. Each has an id, a
  -- scope if it is permissive, an approver role exactly if it requires approval, and conditions
  -- with a valid path and a typed operand; and no two rules have one id.
  pub parse_rules_data-accepted :
      (document : Value F) (rules : List (Rule F))
      → parse_rules_data document ≡ ok rules
      → All IsWellFormed rules × HasFreshIds [] rules × (length rules ≡ length (rules_of document))
  unfolding parse_rules_data
  parse_rules_data-accepted (dict fs) rules h = elim (Option-cases (get fs "rules")) [
    | inl e ↦ ground arith
    | inr (scalar s, e) ↦ ground arith
    | inr (dict gs, e) ↦ ground arith
    | inr (list vs, e) ↦
        let (quiet, same) =
          raise_errors-ok
            (complain (unknown_keys fs ("rules" ∷ [])) Where.document Problem.unknown_fields
              ++ (parse_rules (items vs) 0 []).1)
            (parse_rules (items vs) 0 []).0 rules (ground arith) in
        rw (e, rules_of)
          (subst (λ rs. All IsWellFormed rs × HasFreshIds [] rs × (length rs ≡ length (items vs)))
            same (parse_rules-accepted (items vs) 0 [] (append-eq-nil _ _ quiet).1))
  ]
  parse_rules_data-accepted v rules h = cc

  HasTypedConditions-All :
      (rules : List (Rule F)) → All IsWellFormed rules → All HasTypedConditions rules
  HasTypedConditions-All [] h = tt
  HasTypedConditions-All (r ∷ rules) (w, ws) =
      (All-map (λ c a. a.1) r.conditions w.conditions, HasTypedConditions-All rules ws)

  -- A bundle whose rules the parser accepted, at any version, never makes the evaluation fail an
  -- `assert`, whatever the request and the state.
  pub parsed-never_asserts :
      ⦃ops : FloatOps F⦄ (document : Value F) (rules : List (Rule F)) (version : ℤ)
      (request : PolicyRequest F) (state : AgentState)
      → parse_rules_data document ≡ ok rules
      → evaluate request (record { version = version; rules = rules }) state ≢ err assertion_error
  parsed-never_asserts document rules version request state h =
      evaluate-never_asserts request (record { version = version; rules = rules }) state
        (HasTypedConditions-All rules (parse_rules_data-accepted document rules h).0)
