-- ===== src/Policy/Rules.antt =====
-- The records of packages/policy/src/phulax_policy/schema.py: conditions, matches, rules, bundles.
-- The parser admits four effects and ten operators, so they are enumerations here.
use phulax.Prelude.{String, Bool, true, false, Option, none, some, List, ◌&&◌}
use phulax.Value.{ℤ, Scalar}

-- EFFECTS
pub data Effect : Type 0 where
  allow deny require_approval freeze : Effect

-- OPS
pub data Op : Type 0 where
  eq neq gt gte lt lte is_in not_in ends_with not_ends_with : Op

-- The spelling of an effect in a document.
abbrev pub effect_name : Effect → String
effect_name allow = "allow"
effect_name deny = "deny"
effect_name require_approval = "require_approval"
effect_name freeze = "freeze"

-- The spelling of an operator in a document.
abbrev pub op_name : Op → String
op_name eq = "eq"
op_name neq = "neq"
op_name gt = "gt"
op_name gte = "gte"
op_name lt = "lt"
op_name lte = "lte"
op_name is_in = "in"
op_name not_in = "not_in"
op_name ends_with = "ends_with"
op_name not_ends_with = "not_ends_with"

-- `effect in PERMISSIVE_EFFECTS`
abbrev pub is_permissive : Effect → Bool
is_permissive allow = true
is_permissive require_approval = true
is_permissive deny = false
is_permissive freeze = false

-- `==` on effects.
abbrev pub same_effect : Effect → Effect → Bool
same_effect allow allow = true
same_effect deny deny = true
same_effect require_approval require_approval = true
same_effect freeze freeze = true
same_effect _ _ = false

-- `Scalar | tuple[Scalar, ...]`
pub data Operand (F : Type 0) : Type 0 where
  one : Scalar F → Operand F
  many : List (Scalar F) → Operand F

pub record Condition (F : Type 0) : Type 0 where
  pub path : String
  pub op : Op
  pub value : Operand F

-- Every present field must match; an absent field matches anything.
pub record Match : Type 0 where
  pub tools : Option (List String)
  pub environments : Option (List String)
  pub agent_ids : Option (List String)

abbrev pub is_none {ℓ} : {A : Type ℓ} → Option A → Bool
is_none none = true
is_none (some a) = false

unfoldable pub is_unconstrained : Match → Bool
is_unconstrained m = is_none m.tools && is_none m.environments && is_none m.agent_ids

pub record Rule (F : Type 0) : Type 0 where
  pub id : String
  pub effect : Effect
  pub match : Match
  pub conditions : List (Condition F)
  pub approver_role : Option String

pub record Bundle (F : Type 0) : Type 0 where
  pub version : ℤ
  pub rules : List (Rule F)
