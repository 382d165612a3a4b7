-- ===== src/Policy/Schema/Sound.antt =====
-- What the parser guarantees of the rules that it accepts.
use mathlib.Core.Path.{subst}
use mathlib.Core.Option.{some-injective}
use phulax.Prelude.{
  ℕ, ◌+◌, String, Bool, true, false, ◌&&◌, Option, none, some, List, [], ◌∷◌, ◌++◌, ◌≡◌, ◌≢◌, inl,
  inr, refl, arith, All, Option-cases, eq_iff,
}
use phulax.Value.{str, Value, scalar, list, dict, Items, nil, cons, Fields, get}
use phulax.Policy.Rules.{
  Effect, require_approval, is_permissive, is_unconstrained, Rule, Condition, Op, eq, Operand,
}
use phulax.Policy.Engine.Typed.{IsTyped}
use phulax.Policy.Schema.Conditions.{
  CharOps, Where, Issue, Problem, parse_conditions, unknown_keys, operand_of, condition_of, or_null,
  parse_condition, parse_condition_items, prepend, valid_field_path,
}
use phulax.Policy.Schema.{
  rule_fields, complain, nonempty_text, get_present, parse_match, parse_role, parse_rule_fields,
  parse_rule, effect_of,
}

operand_of-IsTyped :
    {F : Type 0} (o : Op) (v : Value F) (t : Operand F) → operand_of o v ≡ some t → IsTyped o t
unfolding operand_of
operand_of-IsTyped eq v t h = ground arith
operand_of-IsTyped o v t h = ground arith

module _ {F : Type 0} ⦃chars : CharOps⦄ where
  abbrev pub IsAdmitted : Condition F → Type 0
  IsAdmitted c = (valid_field_path c.path ≡ true) × IsTyped c.op c.value

  condition_of-IsAdmitted :
      (path op value : Value F) (w : Where) (c : Condition F)
      → (condition_of path op value w).0 ≡ some c
      → IsAdmitted c
  unfolding condition_of
  condition_of-IsAdmitted path op value w c h = ground (arith)

  parse_condition-IsAdmitted :
      (v : Value F) (w : Where) (c : Condition F) → (parse_condition v w).0 ≡ some c → IsAdmitted c
  unfolding parse_condition
  parse_condition-IsAdmitted (dict fs) w c h = elim (Option-cases (get fs "field")) [
    | inl e ↦ ground arith
    | inr (path, e) ↦ elim (Option-cases (get fs "op")) [
      | inl e' ↦ ground arith
      | inr (op, e') ↦ condition_of-IsAdmitted path op (or_null (get fs "value")) w c (ground arith)
    ]
  ]
  parse_condition-IsAdmitted v w c h = cc

  prepend-IsAdmitted :
      (o : Option (Condition F)) (cs : List (Condition F))
      → ((c : Condition F) → o ≡ some c → IsAdmitted c)
      → All IsAdmitted cs
      → All IsAdmitted (prepend o cs)
  prepend-IsAdmitted none cs h t = t
  prepend-IsAdmitted (some c) cs h t = (h c refl, t)

  parse_condition_items-IsAdmitted :
      (vs : Items F) (w : Where) (i : ℕ) → All IsAdmitted (parse_condition_items vs w i).0
  unfolding parse_condition_items
  parse_condition_items-IsAdmitted nil w i = tt
  parse_condition_items-IsAdmitted (cons v vs) w i =
      prepend-IsAdmitted (parse_condition v (Where.condition w i)).0 _
        (parse_condition-IsAdmitted v (Where.condition w i))
        (parse_condition_items-IsAdmitted vs w (i + 1))

  parse_conditions-IsAdmitted :
      (o : Option (Value F)) (w : Where) (cs : List (Condition F))
      → (parse_conditions o w).0 ≡ some cs
      → All IsAdmitted cs
  unfolding parse_conditions
  parse_conditions-IsAdmitted none w cs h = subst (All IsAdmitted) (some-injective [] cs h) tt
  parse_conditions-IsAdmitted (some (list vs)) w cs h =
      subst (All IsAdmitted) (some-injective _ cs h) (parse_condition_items-IsAdmitted vs w 0)
  parse_conditions-IsAdmitted (some v) w cs h = cc

abbrev pub HasRole : Effect → Option String → Type 0
HasRole require_approval role = (s : String) × (role ≡ some s) × (s ≢ "")
HasRole e role = role ≡ none

nonempty_text-ne : {F : Type 0} (v : Value F) (s : String) → nonempty_text v ≡ some s → s ≢ ""
unfolding nonempty_text
nonempty_text-ne (scalar (str t)) s h = ground (arith, eq_iff s "", eq_iff t "")
nonempty_text-ne v s h = cc

parse_role-HasRole :
    {F : Type 0} (e : Effect) (v : Option (Value F)) (w : Where)
    → (parse_role e v w).1 ≡ []
    → HasRole e (parse_role e v w).0
unfolding parse_role
parse_role-HasRole require_approval none w h = cc
parse_role-HasRole require_approval (some v) w h = elim (Option-cases (nonempty_text v)) [
  | inl e ↦ ground arith
  | inr (s, e) ↦ (s, ground arith, nonempty_text-ne v s e)
]
parse_role-HasRole e none w h = refl
parse_role-HasRole e (some v) w h = cc

-- What the parser checks of a rule: an id, a scope if it is permissive, a role exactly if it asks
-- for approval, and admitted conditions.
pub record IsWellFormed {F : Type 0} ⦃chars : CharOps⦄ (r : Rule F) : Type 0 where
  pub named : r.id ≢ ""
  pub scoped : (is_permissive r.effect && is_unconstrained r.match) ≡ false
  pub role : HasRole r.effect r.approver_role
  pub conditions : All IsAdmitted r.conditions

pub append-eq-nil {ℓ} : {A : Type ℓ} (xs ys : List A) → xs ++ ys ≡ [] → (xs ≡ []) × (ys ≡ [])
append-eq-nil [] ys h = (refl, h)
append-eq-nil (x ∷ xs) ys h = cc

last_two_nil {ℓ} :
    {A : Type ℓ} (a b c d e : List A) → a ++ (b ++ (c ++ (d ++ e))) ≡ [] → (d ≡ []) × (e ≡ [])
last_two_nil a b c d e h =
    append-eq-nil d e (append-eq-nil c _ (append-eq-nil b _ (append-eq-nil a _ h).1).1).1

pub complain-eq-nil : (b : Bool) (w : Where) (p : Problem) → complain b w p ≡ [] → b ≡ false
complain-eq-nil b w p h = ground arith

module _ {F : Type 0} ⦃chars : CharOps⦄ where
  parse_rule_fields-IsWellFormed :
      (fs : Fields F) (id : String) (r : Rule F)
      → id ≢ ""
      → (parse_rule_fields fs id).0 ≡ some r
      → (parse_rule_fields fs id).1 ≡ []
      → IsWellFormed r
  unfolding parse_rule_fields
  parse_rule_fields-IsWellFormed fs id r named h k =
      elim (Option-cases (effect_of (get fs "effect"))) [
        | inl e ↦ ground arith
        | inr (effect, e) ↦ elim (Option-cases (parse_match (get fs "match") (Where.rule id)).0) [
          | inl e' ↦ ground arith
          | inr (m, e') ↦
              elim (Option-cases (parse_conditions (get fs "conditions") (Where.rule id)).0) [
                | inl e'' ↦ ground arith
                | inr (cs, e'') ↦
                    let w = Where.rule id in
                    let p : Option String × List Issue =
                      parse_role effect (get_present fs "approver_role") w in
                    let built : record {
                      id = id;
                      effect = effect;
                      match = m;
                      conditions = cs;
                      approver_role = p.0;
                    }
                        ≡ r =
                      some-injective _ r (ground arith) in
                    let silent : (complain (is_permissive effect && is_unconstrained m) w
                            Problem.permissive_unconstrained
                          ≡ [])
                        × (p.1 ≡ []) =
                      last_two_nil (complain (unknown_keys fs rule_fields) w Problem.unknown_fields)
                        (parse_match (get fs "match") w).1
                        (parse_conditions (get fs "conditions") w).1 _ p.1 (ground arith) in
                    subst IsWellFormed built (record {
                      named = named;
                      scoped = complain-eq-nil _ _ _ silent.0;
                      role = parse_role-HasRole effect _ w silent.1;
                      conditions = parse_conditions-IsAdmitted (get fs "conditions") w cs e'';
                    })
              ]
        ]
      ]

  pub parse_rule-IsWellFormed :
      (v : Value F) (i : ℕ) (r : Rule F)
      → (parse_rule v i).0 ≡ some r
      → (parse_rule v i).1 ≡ []
      → IsWellFormed r
  unfolding parse_rule
  parse_rule-IsWellFormed (dict fs) i r h k = elim (Option-cases (get fs "id")) [
    | inl e ↦ ground arith
    | inr (v, e) ↦ elim (Option-cases (nonempty_text v)) [
      | inl e' ↦ ground arith
      | inr (id, e') ↦
          parse_rule_fields-IsWellFormed fs id r (nonempty_text-ne v id e') (ground arith)
            (ground arith)
    ]
  ]
  parse_rule-IsWellFormed v i r h k = cc
