-- ===== src/Policy/Engine.antt =====
-- packages/policy/src/phulax_policy/engine.py: `evaluate` and what it calls. A Python exception
-- is an `Exn`.
pub mod Conditions
pub mod Fired
pub mod Asymmetry
pub mod Precedence
pub mod Strictness
pub mod Explained
pub mod Typed
pub mod Safety
pub mod Totality
use Prim.Native.String.{◌++◌ as ◌<>◌}
use phulax.Prelude.{
  ℕ, String, Bool, true, false, not, ◌&&◌, ◌||◌, Option, none, some, List, [], ◌∷◌, ◌++◌, map,
  str_eq, if◌then◌else◌, contains, is_empty, any, Result, ok, err, ◌>>=◌,
}
use phulax.Value.{ℤ, FloatOps, Scalar, bool, str, Value, scalar, dict, Fields, end, field}
use phulax.Policy.Rules.{
  Effect, allow, deny, require_approval, freeze, op_name, is_permissive, same_effect, Condition,
  Match, Rule, Bundle,
}
use Conditions.{Exn, resolve_condition}

pub record PolicyRequest (F : Type 0) : Type 0 where
  pub tool_name : String
  pub environment : String
  pub agent_id : String
  pub arguments : Fields F

pub record AgentState : Type 0 where
  pub revoked : Bool

-- _MATCHED, _MATCHED_UNKNOWN, _NOT_MATCHED
pub data Outcome : Type 0 where
  matched matched_unknown not_matched : Outcome

pub record RuleTrace : Type 0 where
  pub rule_id : String
  pub effect : Effect
  pub outcome : Outcome
  pub detail : String

pub record Decision : Type 0 where
  pub effect : Effect
  pub reason_codes : List String
  pub matched_rules : List String
  pub winning_rules : List String
  pub policy_version : ℤ
  pub approver_role : Option String
  pub trace : List RuleTrace

-- `names is not None and name not in names`
abbrev excludes : Option (List String) → String → Bool
excludes none name = false
excludes (some names) name = not (contains names name)

module _ {F : Type 0} where
  unfoldable pub match_mismatch : Match → PolicyRequest F → String
  match_mismatch m request =
      if excludes m.tools request.tool_name
      then "tool mismatch"
      else if excludes m.environments request.environment
      then "environment mismatch"
      else if excludes m.agent_ids request.agent_id
      then "agent mismatch"
      else ""

  -- `{"arguments": request.arguments, "agent": {"revoked": state.revoked}}`
  abbrev pub context_of : PolicyRequest F → AgentState → Value F
  context_of request state = dict (
      field "arguments" (dict request.arguments)
        (field "agent" (dict (field "revoked" (scalar (bool state.revoked)) end)) end))

-- What the loop over the conditions of a rule returns: the detail of the condition that is
-- false, or else whether one was unknown.
pub data Checked : Type 0 where
  refuted : String → Checked
  passed : Bool → Checked

-- How a rule whose match fits is classified.
unfoldable pub classify : Effect → Checked → Outcome × String
classify effect (refuted detail) = (not_matched, detail)
classify effect (passed false) = (matched, "matched")
classify effect (passed true) =
    if is_permissive effect
    then (not_matched, "condition unresolvable; permissive rule does not fire")
    else (matched_unknown, "condition unresolvable; restrictive rule fires")

module _ {F : Type 0} ⦃ops : FloatOps F⦄ where
  unfoldable pub check_conditions : List (Condition F) → Value F → Bool → Result Exn Checked
  check_conditions [] context saw_unknown = ok (passed saw_unknown)
  check_conditions (c ∷ cs) context saw_unknown = resolve_condition c context >>= λ result.
      elim result [
        | none ↦ check_conditions cs context true
        | some true ↦ check_conditions cs context saw_unknown
        | some false ↦ ok (refuted ("condition " <> c.path <> " " <> op_name c.op <> " is false"))
      ]

  unfoldable pub apply_rule : Rule F → PolicyRequest F → Value F → Result Exn (Outcome × String)
  unfolding classify
  apply_rule rule request context =
      let mismatch = match_mismatch rule.match request in
      if str_eq mismatch ""
      then (check_conditions rule.conditions context false >>= λ checked.
          ok (classify rule.effect checked))
      else ok (not_matched, mismatch)

-- `outcome in (_MATCHED, _MATCHED_UNKNOWN)`
abbrev pub is_match : Outcome → Bool
is_match matched = true
is_match matched_unknown = true
is_match not_matched = false

abbrev pub is_unknown : Outcome → Bool
is_unknown matched_unknown = true
is_unknown _ = false

-- The local variables of the loop over the rules; `matched` is the dictionary by effect.
pub record Progress (F : Type 0) : Type 0 where
  pub trace : List RuleTrace
  pub matched : Effect → List (Rule F)
  pub matched_on_unknown : List String

abbrev pub reason_by_effect : Effect → String
reason_by_effect freeze = "RULE_FREEZE"
reason_by_effect deny = "RULE_DENY"
reason_by_effect require_approval = "RULE_APPROVAL"
reason_by_effect allow = "RULE_ALLOW"

-- _PRECEDENCE
abbrev pub precedence : List Effect
precedence = freeze ∷ deny ∷ require_approval ∷ allow ∷ []

module _ {F : Type 0} where
  abbrev pub start : Progress F
  start = record { trace = []; matched = λ e. []; matched_on_unknown = [] }

  -- The body of the loop, once the rule is classified.
  unfoldable pub note : Rule F → Outcome → String → Progress F → Progress F
  note rule outcome detail p = record {
    trace =
        p.trace
        ++ (record { rule_id = rule.id; effect = rule.effect; outcome = outcome; detail = detail }
            ∷ []);
    matched = λ e.
        if is_match outcome && same_effect e rule.effect
        then p.matched e ++ (rule ∷ [])
        else p.matched e;
    matched_on_unknown =
        if is_unknown outcome then rule.id ∷ p.matched_on_unknown else p.matched_on_unknown;
  }

  -- `rule.id for rules in matched.values() for rule in rules`
  unfoldable pub matched_ids : Progress F → List String
  matched_ids p =
      map (λ r. r.id) (p.matched freeze)
      ++ (map (λ r. r.id) (p.matched deny)
          ++ (map (λ r. r.id) (p.matched require_approval) ++ map (λ r. r.id) (p.matched allow)))

  -- `matched[effect][0].approver_role if effect == "require_approval" else None`
  abbrev role_of : Effect → Rule F → Option String
  role_of require_approval r = r.approver_role
  role_of _ r = none

  abbrev codes_of : Effect → Progress F → List (Rule F) → List String
  codes_of effect p winners =
      reason_by_effect effect
      ∷ ((if same_effect effect deny
              && (not (is_empty (p.matched require_approval)) || not (is_empty (p.matched allow)))
            then "DENY_OVERRIDES" ∷ []
            else [])
          ++ (if any (λ r. contains p.matched_on_unknown r.id) winners
              then "MISSING_CONTEXT" ∷ []
              else []))

  -- The decision of an effect class whose matches are `r ∷ rs`.
  unfoldable pub decision_for : ℤ → Progress F → Effect → Rule F → List (Rule F) → Decision
  decision_for version p effect r rs = record {
    effect = effect;
    reason_codes = codes_of effect p (r ∷ rs);
    matched_rules = matched_ids p;
    winning_rules = map (λ w. w.id) (r ∷ rs);
    policy_version = version;
    approver_role = role_of effect r;
    trace = p.trace;
  }

  unfoldable pub default_deny : ℤ → Progress F → Decision
  default_deny version p = record {
    effect = deny;
    reason_codes = "DEFAULT_DENY" ∷ [];
    matched_rules = [];
    winning_rules = [];
    policy_version = version;
    approver_role = none;
    trace = p.trace;
  }

  -- Steps 3 to 7: the first effect class with a match wins.
  unfoldable pub decide : ℤ → Progress F → List Effect → Decision
  decide version p [] = default_deny version p
  decide version p (effect ∷ effects) = elim (p.matched effect) [
    | [] ↦ decide version p effects
    | r ∷ rs ↦ decision_for version p effect r rs
  ]

-- Step 2: the decision about a revoked agent.
unfoldable pub revoked_decision : ℤ → Decision
revoked_decision version = record {
  effect = freeze;
  reason_codes = "AGENT_REVOKED" ∷ [];
  matched_rules = [];
  winning_rules = [];
  policy_version = version;
  approver_role = none;
  trace = [];
}

module _ {F : Type 0} ⦃ops : FloatOps F⦄ where
  unfoldable pub apply_rules :
      PolicyRequest F → Value F → List (Rule F) → Progress F → Result Exn (Progress F)
  apply_rules request context [] p = ok p
  apply_rules request context (rule ∷ rules) p =
      apply_rule rule request context >>= λ (outcome, detail).
      apply_rules request context rules (note rule outcome detail p)

  unfoldable pub evaluate : PolicyRequest F → Bundle F → AgentState → Result Exn Decision
  evaluate request bundle state =
      if state.revoked
      then ok (revoked_decision bundle.version)
      else (apply_rules request (context_of request state) bundle.rules start >>= λ p.
          ok (decide bundle.version p precedence))
