-- ===== src/Policy/Schema/Conditions.antt =====
-- packages/policy/src/phulax_policy/schema.py: the errors, `_parse_conditions` and what it calls.
use Prim.Native.Char.{Char, code}
use Prim.Native.String.{String}
use phulax.Prelude.{
  ℕ, ◌+◌, Bool, true, false, not, ◌&&◌, ◌||◌, Option, none, some, List, [], ◌∷◌, ◌++◌, str_eq,
  if◌then◌else◌, contains, any, all, ltb, leb, ◌==◌,
}
use phulax.Value.{
  Scalar, null, int, float, str, Value, scalar, list, dict, Items, nil, cons, Fields, get, keys,
}
use phulax.Value.Texts.{split_dots}
use phulax.Policy.Rules.{
  Op, eq, neq, gt, gte, lt, lte, is_in, not_in, ends_with, not_ends_with, Operand, one, many,
  Condition,
}

-- Where an error stands: `document`, `rule #i`, `rule 'id'`, or `... condition #i`.
pub data Where : Type 0 where
  document : Where
  index : ℕ → Where
  rule : String → Where
  condition : Where → ℕ → Where

-- What is wrong there.
pub data Problem : Type 0 where
  not_yaml not_mapping unknown_fields rules_not_list duplicate_id bad_id unknown_effect : Problem
  permissive_unconstrained role_required role_not_allowed : Problem
  match_not_mapping unknown_match_fields bad_match_values : Problem
  conditions_not_list bad_condition_fields bad_field_path unknown_op : Problem
  bad_value : Op → Problem

-- One call of `errors.add`.
pub data Issue : Type 0 where
  issue : Where → Problem → Issue

-- `str.isalnum` on a character outside of ASCII: Python's Unicode tables.
pub record CharOps : Type 0 where
  pub unicode_alnum : Char → Bool

-- `set(data) - set(fields)` is not empty.
unfoldable pub unknown_keys : {F : Type 0} → Fields F → List String → Bool
unknown_keys fs known = any (λ k. not (contains known k)) (keys fs)

-- CONDITION_FIELDS, CONDITION_ROOTS
abbrev condition_fields : List String
condition_fields = "field" ∷ "op" ∷ "value" ∷ []

abbrev pub condition_roots : List String
condition_roots = "arguments" ∷ "agent" ∷ []

abbrev ascii_alnum : ℕ → Bool
ascii_alnum c =
    (leb b'0' c && leb c b'9') || ((leb b'a' c && leb c b'z') || (leb b'A' c && leb c b'Z'))

module _ ⦃chars : CharOps⦄ where
  abbrev is_alnum : Char → Bool
  is_alnum c = if ltb (code c) 128 then ascii_alnum (code c) else chars.unicode_alnum c

  -- Every character of `part.replace("_", "a")` is alphanumeric.
  abbrev all_word : String → Bool
  all_word String.[] = true
  all_word (String.◌∷◌ c s) = (code c == b'_' || is_alnum c) && all_word s

  -- `part and part.replace("_", "a").isalnum()`
  abbrev is_word : String → Bool
  is_word part = not (str_eq part "") && all_word part

  -- At least two parts, of which the first is a root.
  abbrev rooted : List String → Bool
  rooted (root ∷ part ∷ parts) = contains condition_roots root
  rooted _ = false

  unfoldable pub valid_field_path : String → Bool
  valid_field_path path = let parts = split_dots path in rooted parts && all is_word parts

-- `if x is not None: xs.append(x)`, seen from the end of the list.
abbrev pub prepend : {A : Type 0} → Option A → List A → List A
prepend none xs = xs
prepend (some x) xs = x ∷ xs

-- `op in OPS`, and which one.
unfoldable pub op_of : String → Option Op
op_of s =
    if str_eq s "eq"
    then some eq
    else if str_eq s "neq"
    then some neq
    else if str_eq s "gt"
    then some gt
    else if str_eq s "gte"
    then some gte
    else if str_eq s "lt"
    then some lt
    else if str_eq s "lte"
    then some lte
    else if str_eq s "in"
    then some is_in
    else if str_eq s "not_in"
    then some not_in
    else if str_eq s "ends_with"
    then some ends_with
    else if str_eq s "not_ends_with"
    then some not_ends_with
    else none

module _ {F : Type 0} where
  -- `all(_is_scalar(item) for item in value)`, with the scalars.
  unfoldable pub scalars : Items F → Option (List (Scalar F))
  scalars nil = some []
  scalars (cons (scalar s) vs) = elim (scalars vs) [ none ↦ none | some ss ↦ some (s ∷ ss) ]
  scalars (cons v vs) = none

  -- A number that is no `bool`.
  abbrev number_operand : Value F → Option (Operand F)
  number_operand (scalar (int n)) = some (one (int n))
  number_operand (scalar (float x)) = some (one (float x))
  number_operand _ = none

  abbrev list_operand : Value F → Option (Operand F)
  list_operand (list (cons v vs)) = elim (scalars (cons v vs)) [
    | none ↦ none
    | some ss ↦ some (many ss)
  ]
  list_operand _ = none

  abbrev text_operand : Value F → Option (Operand F)
  text_operand (scalar (str s)) = if str_eq s "" then none else some (one (str s))
  text_operand _ = none

  abbrev scalar_operand : Value F → Option (Operand F)
  scalar_operand (scalar s) = some (one s)
  scalar_operand _ = none

  -- The checks of the value, by the class of the operator.
  unfoldable pub operand_of : Op → Value F → Option (Operand F)
  unfolding scalars
  operand_of eq v = scalar_operand v
  operand_of neq v = scalar_operand v
  operand_of gt v = number_operand v
  operand_of gte v = number_operand v
  operand_of lt v = number_operand v
  operand_of lte v = number_operand v
  operand_of is_in v = list_operand v
  operand_of not_in v = list_operand v
  operand_of ends_with v = text_operand v
  operand_of not_ends_with v = text_operand v

  abbrev text_of : Value F → Option String
  text_of (scalar (str s)) = some s
  text_of _ = none

  -- `data.get("value")`
  abbrev pub or_null : Option (Value F) → Value F
  or_null none = scalar null
  or_null (some v) = v

module _ {F : Type 0} ⦃chars : CharOps⦄ where
  -- `_parse_condition` once the mapping has the right fields.
  unfoldable pub condition_of :
      Value F → Value F → Value F → Where → Option (Condition F) × List Issue
  unfolding operand_of
  condition_of path op value w = elim (text_of path) [
    | none ↦ (none, issue w Problem.bad_field_path ∷ [])
    | some p ↦ elim (valid_field_path p) [
      | false ↦ (none, issue w Problem.bad_field_path ∷ [])
      | true ↦ elim (text_of op) [
        | none ↦ (none, issue w Problem.unknown_op ∷ [])
        | some name ↦ elim (op_of name) [
          | none ↦ (none, issue w Problem.unknown_op ∷ [])
          | some o ↦ elim (operand_of o value) [
            | none ↦ (none, issue w (Problem.bad_value o) ∷ [])
            | some v ↦ (some (record { path = p; op = o; value = v }), [])
          ]
        ]
      ]
    ]
  ]

  unfoldable pub parse_condition : Value F → Where → Option (Condition F) × List Issue
  unfolding condition_of
  parse_condition (dict fs) w = elim (get fs "field") [
    | none ↦ (none, issue w Problem.bad_condition_fields ∷ [])
    | some path ↦ elim (get fs "op") [
      | none ↦ (none, issue w Problem.bad_condition_fields ∷ [])
      | some op ↦
          if unknown_keys fs condition_fields
          then (none, issue w Problem.bad_condition_fields ∷ [])
          else condition_of path op (or_null (get fs "value")) w
    ]
  ]
  parse_condition _ w = (none, issue w Problem.not_mapping ∷ [])

  -- The loop of `_parse_conditions`: a condition that is refused is left out.
  unfoldable pub parse_condition_items : Items F → Where → ℕ → List (Condition F) × List Issue
  parse_condition_items nil w i = ([], [])
  parse_condition_items (cons v vs) w i =
      let (parsed, es) = parse_condition v (Where.condition w i) in
      let (rest, es') = parse_condition_items vs w (i + 1) in (prepend parsed rest, es ++ es')

  -- `_parse_conditions(data.get("conditions", []), ...)`
  unfoldable pub parse_conditions :
      Option (Value F) → Where → Option (List (Condition F)) × List Issue
  unfolding parse_condition_items
  parse_conditions none w = (some [], [])
  parse_conditions (some (list vs)) w = let (cs, es) = parse_condition_items vs w 0 in (some cs, es)
  parse_conditions (some v) w = (none, issue w Problem.conditions_not_list ∷ [])
