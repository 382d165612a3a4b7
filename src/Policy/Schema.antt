-- ===== src/Policy/Schema.antt =====
-- The parser of packages/policy/src/phulax_policy/schema.py. The parameter `errors` that the
-- functions append to is the list that each returns beside its result; an error keeps its place
-- and its kind, and not the wording of the message.
pub mod Conditions
pub mod Sound
pub mod Document
use phulax.Prelude.{
  ℕ, ◌+◌, String, Bool, true, false, not, ◌&&◌, ◌||◌, Option, none, some, List, [], ◌∷◌, ◌++◌,
  str_eq, if◌then◌else◌, contains, is_empty, any, Result, ok, err,
}
use phulax.Value.{
  Scalar, null, str, Value, scalar, list, dict, Items, nil, cons, Fields, get, keys, items,
}
use phulax.Policy.Rules.{
  Effect, allow, deny, require_approval, freeze, is_permissive, Match, is_unconstrained, Rule,
  Condition,
}
use Conditions.{CharOps, Where, Issue, issue, Problem, parse_conditions, unknown_keys}

-- RULE_FIELDS, MATCH_FIELDS
abbrev pub rule_fields : List String
rule_fields = "id" ∷ "effect" ∷ "match" ∷ "conditions" ∷ "approver_role" ∷ []

abbrev match_fields : List String
match_fields = "tool" ∷ "environment" ∷ "agent_id" ∷ []

-- `if errors.items: raise PolicyError(errors.items)`
abbrev pub raise_errors : {A : Type 0} → List Issue → A → Result (List Issue) A
raise_errors [] a = ok a
raise_errors (e ∷ es) a = err (e ∷ es)

-- One error if the test holds.
abbrev pub complain : Bool → Where → Problem → List Issue
complain b w p = if b then issue w p ∷ [] else []

module _ {F : Type 0} where
  -- A text that is not empty.
  unfoldable pub nonempty_text : Value F → Option String
  nonempty_text (scalar (str s)) = if str_eq s "" then none else some s
  nonempty_text _ = none

  -- `data.get(key)`, where an explicit `null` is `None` too.
  abbrev pub drop_null : Option (Value F) → Option (Value F)
  drop_null (some (scalar null)) = none
  drop_null v = v

  abbrev pub get_present : Fields F → String → Option (Value F)
  get_present fs k = drop_null (get fs k)

  -- `effect in EFFECTS`, and which one.
  unfoldable pub effect_of : Option (Value F) → Option Effect
  effect_of (some (scalar (str s))) =
      if str_eq s "allow"
      then some allow
      else if str_eq s "deny"
      then some deny
      else if str_eq s "require_approval"
      then some require_approval
      else if str_eq s "freeze"
      then some freeze
      else none
  effect_of _ = none

  -- `all(isinstance(item, str) and item for item in items)`, with the texts.
  unfoldable pub nonempty_texts : List (Value F) → Option (List String)
  nonempty_texts [] = some []
  nonempty_texts (v ∷ vs) = elim (nonempty_text v) [
    | none ↦ none
    | some s ↦ elim (nonempty_texts vs) [ none ↦ none | some ss ↦ some (s ∷ ss) ]
  ]

  -- `raw if isinstance(raw, list) else [raw]`
  abbrev as_list : Value F → List (Value F)
  as_list (list vs) = items vs
  as_list v = v ∷ []

  -- The local function `values` of `_parse_match`.
  unfoldable pub match_values : Where → Option (Value F) → Option (List String) × List Issue
  unfolding nonempty_texts
  match_values w none = (none, [])
  match_values w (some raw) = elim (nonempty_texts (as_list raw)) [
    | none ↦ (none, issue w Problem.bad_match_values ∷ [])
    | some ss ↦ elim ss [
      | [] ↦ (none, issue w Problem.bad_match_values ∷ [])
      | s ∷ rest ↦ (some (s ∷ rest), [])
    ]
  ]

  unfoldable pub parse_match : Option (Value F) → Where → Option Match × List Issue
  unfolding match_values
  parse_match (some (dict fs)) w =
      if unknown_keys fs match_fields
      then (none, issue w Problem.unknown_match_fields ∷ [])
      else let (tools, e1) = match_values w (get_present fs "tool") in
        let (environments, e2) = match_values w (get_present fs "environment") in
        let (agent_ids, e3) = match_values w (get_present fs "agent_id") in
        (
          some (record { tools = tools; environments = environments; agent_ids = agent_ids }),
          e1 ++ (e2 ++ e3),
        )
  parse_match _ w = (none, issue w Problem.match_not_mapping ∷ [])

  -- The checks of `approver_role`.
  unfoldable pub parse_role : Effect → Option (Value F) → Where → Option String × List Issue
  unfolding nonempty_text
  parse_role require_approval none w = (none, issue w Problem.role_required ∷ [])
  parse_role require_approval (some v) w = elim (nonempty_text v) [
    | none ↦ (none, issue w Problem.role_required ∷ [])
    | some s ↦ (some s, [])
  ]
  parse_role _ none w = (none, [])
  parse_role _ (some v) w = (none, issue w Problem.role_not_allowed ∷ [])

module _ {F : Type 0} ⦃chars : CharOps⦄ where
  -- `_parse_rule` once the id is known.
  unfoldable pub parse_rule_fields : Fields F → String → Option (Rule F) × List Issue
  unfolding effect_of parse_match parse_role is_unconstrained
  parse_rule_fields fs id =
      let w = Where.rule id in
      let e0 = complain (unknown_keys fs rule_fields) w Problem.unknown_fields in
      elim (effect_of (get fs "effect")) [
        | none ↦ (none, e0 ++ (issue w Problem.unknown_effect ∷ []))
        | some effect ↦
            let (match, e1) = parse_match (get fs "match") w in
            let (conditions, e2) = parse_conditions (get fs "conditions") w in
            elim match [
              | none ↦ (none, e0 ++ (e1 ++ e2))
              | some m ↦ elim conditions [
                | none ↦ (none, e0 ++ (e1 ++ e2))
                | some cs ↦
                    let e3 =
                      complain (is_permissive effect && is_unconstrained m) w
                        Problem.permissive_unconstrained in
                    let (role, e4) = parse_role effect (get_present fs "approver_role") w in
                    (
                      some (record {
                        id = id;
                        effect = effect;
                        match = m;
                        conditions = cs;
                        approver_role = role;
                      }),
                      e0 ++ (e1 ++ (e2 ++ (e3 ++ e4))),
                    )
              ]
            ]
      ]

  unfoldable pub parse_rule : Value F → ℕ → Option (Rule F) × List Issue
  unfolding parse_rule_fields nonempty_text
  parse_rule (dict fs) index = elim (get fs "id") [
    | none ↦ (none, issue (Where.index index) Problem.bad_id ∷ [])
    | some v ↦ elim (nonempty_text v) [
      | none ↦ (none, issue (Where.index index) Problem.bad_id ∷ [])
      | some id ↦ parse_rule_fields fs id
    ]
  ]
  parse_rule _ index = (none, issue (Where.index index) Problem.not_mapping ∷ [])

  -- The loop over the rules: what is appended to `rules` and to `errors` from here on.
  unfoldable pub parse_rules : List (Value F) → ℕ → List String → List (Rule F) × List Issue
  parse_rules [] index seen_ids = ([], [])
  parse_rules (v ∷ vs) index seen_ids =
      let (parsed, es) = parse_rule v index in
      elim parsed [
        | none ↦ let (rules, rest) = parse_rules vs (index + 1) seen_ids in (rules, es ++ rest)
        | some r ↦
            let (rules, rest) = parse_rules vs (index + 1) (r.id ∷ seen_ids) in
            (
              r ∷ rules,
              es
                  ++ (complain (contains seen_ids r.id) (Where.rule r.id) Problem.duplicate_id
                      ++ rest),
            )
      ]

  unfoldable pub parse_rules_data : Value F → Result (List Issue) (List (Rule F))
  parse_rules_data (dict fs) =
      let e0 = complain (unknown_keys fs ("rules" ∷ [])) Where.document Problem.unknown_fields in
      elim (get fs "rules") [
        | none ↦ err (e0 ++ (issue Where.document Problem.rules_not_list ∷ []))
        | some v ↦ elim v [
          | list vs ↦ let (rules, es) = parse_rules (items vs) 0 [] in raise_errors (e0 ++ es) rules
          | _ ↦ err (e0 ++ (issue Where.document Problem.rules_not_list ∷ []))
        ]
      ]
  parse_rules_data _ = err (issue Where.document Problem.not_mapping ∷ [])
