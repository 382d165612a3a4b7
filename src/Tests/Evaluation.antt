-- ===== src/Tests/Evaluation.antt =====
-- Runs of the engine, and its theorems at them.
use mathlib.Core.List.{Permᴰ}
use phulax.Prelude.{
  ◌≤◌, true, false, ◌≡◌, ◌≢◌, refl, none, [], ◌∷◌, ◌++◌, map, ◌↔◌, All, Any, ok, err, contains,
}
use phulax.Value.{ℤ, FloatOps, Fields, Value}
use phulax.Policy.Rules.{allow, deny, require_approval}
use phulax.Policy.Engine.Conditions.{Exn, assertion_error}
use phulax.Policy.Engine.{
  AgentState, Decision, RuleTrace, context_of, evaluate, apply_rule, matched_unknown, not_matched,
  matched,
}
use phulax.Policy.Engine.Fired.{fires, trace_of, fired}
use phulax.Policy.Engine.Asymmetry.{
  in_scope, IsTrue, NotRefuted, permissive-fires, restrictive-fires,
}
use phulax.Policy.Engine.Precedence.{required_effect, evaluate-effect}
use phulax.Policy.Engine.Strictness.{
  strictness, Grants, Permits, evaluate-allow, evaluate-Perm, evaluate_mono,
}
use phulax.Policy.Engine.Explained.{evaluate-explained}
use phulax.Policy.Engine.Totality.{evaluate-never_asserts, evaluate-total}
use phulax.Tests.Samples.{
  float_ops, char_ops, allow_rule, approval_rule, deny_rule, bundle, allow_bundle, inside, outside,
  unaddressed, live,
}

-- The decision of `allow_bundle` on `inside`.
abbrev allowed : Decision
allowed = record {
  effect = allow;
  reason_codes = "RULE_ALLOW" ∷ [];
  matched_rules = "allow-small" ∷ [];
  winning_rules = "allow-small" ∷ [];
  policy_version = ℤ.pos 4;
  approver_role = none;
  trace =
      record { rule_id = "allow-small"; effect = allow; outcome = matched; detail = "matched" }
      ∷ record {
        rule_id = "deny-external";
        effect = deny;
        outcome = not_matched;
        detail = "condition arguments.recipient not_ends_with is false";
      }
      ∷ [];
}

evaluate_allows : evaluate inside allow_bundle live ≡ ok allowed
unfolding evaluate phulax.Policy.Engine.apply_rules apply_rule phulax.Policy.Engine.match_mismatch
    contains phulax.Policy.Engine.check_conditions phulax.Policy.Engine.Conditions.resolve_condition
    phulax.Policy.Engine.Conditions.lookup phulax.Policy.Engine.Conditions.walk
    phulax.Value.Texts.split_dots phulax.Value.get phulax.Value.Texts.ends_with
    phulax.Policy.Engine.decide phulax.Policy.Engine.note phulax.Policy.Engine.decision_for
    phulax.Policy.Engine.matched_ids
evaluate_allows = refl

-- The decision of `bundle` on `unaddressed`: the deny rule fires on the unknown recipient.
abbrev denied : Decision
denied = record {
  effect = deny;
  reason_codes = "RULE_DENY" ∷ "DENY_OVERRIDES" ∷ "MISSING_CONTEXT" ∷ [];
  matched_rules = "deny-external" ∷ "ask" ∷ "allow-small" ∷ [];
  winning_rules = "deny-external" ∷ [];
  policy_version = ℤ.pos 3;
  approver_role = none;
  trace =
      record { rule_id = "allow-small"; effect = allow; outcome = matched; detail = "matched" }
      ∷ record {
        rule_id = "deny-external";
        effect = deny;
        outcome = matched_unknown;
        detail = "condition unresolvable; restrictive rule fires";
      }
      ∷ record { rule_id = "ask"; effect = require_approval; outcome = matched; detail = "matched" }
      ∷ [];
}

evaluate_denies : evaluate unaddressed bundle live ≡ ok denied
unfolding evaluate phulax.Policy.Engine.apply_rules apply_rule phulax.Policy.Engine.match_mismatch
    contains phulax.Policy.Engine.check_conditions phulax.Policy.Engine.Conditions.resolve_condition
    phulax.Policy.Engine.Conditions.lookup phulax.Policy.Engine.Conditions.walk
    phulax.Value.Texts.split_dots phulax.Value.get phulax.Policy.Engine.decide
    phulax.Policy.Engine.note phulax.Policy.Engine.decision_for phulax.Policy.Engine.matched_ids
evaluate_denies = refl

evaluate-outside : (d : Decision) × (evaluate outside bundle live ≡ ok d) × (d.effect ≡ deny)
unfolding evaluate phulax.Policy.Engine.apply_rules apply_rule phulax.Policy.Engine.match_mismatch
    contains phulax.Policy.Engine.check_conditions phulax.Policy.Engine.Conditions.resolve_condition
    phulax.Policy.Engine.Conditions.lookup phulax.Policy.Engine.Conditions.walk
    phulax.Value.Texts.split_dots phulax.Value.get phulax.Value.Texts.ends_with
    phulax.Policy.Engine.decide phulax.Policy.Engine.note phulax.Policy.Engine.decision_for
evaluate-outside = (_, refl, refl)

permissive-fires_example : (fires inside (context_of inside live) allow_rule ≡ true) ↔ (
    (in_scope allow_rule.match inside ≡ true)
    × All (IsTrue (context_of inside live)) allow_rule.conditions)
permissive-fires_example = permissive-fires inside (context_of inside live) allow_rule refl

restrictive-fires_example : (fires unaddressed (context_of unaddressed live) deny_rule ≡ true) ↔ (
    (in_scope deny_rule.match unaddressed ≡ true)
    × All (NotRefuted (context_of unaddressed live)) deny_rule.conditions)
restrictive-fires_example =
    restrictive-fires unaddressed (context_of unaddressed live) deny_rule refl

evaluate-effect_example : deny ≡ required_effect unaddressed bundle.rules live
evaluate-effect_example = evaluate-effect unaddressed bundle live denied evaluate_denies

evaluate-allow_example :
    (live.revoked ≡ false)
    × Any (Grants inside live) allow_bundle.rules
    × All (Permits inside live) allow_bundle.rules
evaluate-allow_example = evaluate-allow inside live allow_bundle allowed evaluate_allows refl

evaluate_swapped :
    (d : Decision) × (evaluate inside
        (record { version = ℤ.pos 5; rules = deny_rule ∷ allow_rule ∷ [] })
        live
      ≡ ok d)
unfolding evaluate phulax.Policy.Engine.apply_rules apply_rule phulax.Policy.Engine.match_mismatch
    contains phulax.Policy.Engine.check_conditions phulax.Policy.Engine.Conditions.resolve_condition
    phulax.Policy.Engine.Conditions.lookup phulax.Policy.Engine.Conditions.walk
    phulax.Value.Texts.split_dots phulax.Value.get phulax.Value.Texts.ends_with
evaluate_swapped = (_, refl)

evaluate-Perm_example : allow ≡ (evaluate_swapped.0).effect
evaluate-Perm_example =
    evaluate-Perm inside live (ℤ.pos 4) (ℤ.pos 5) (allow_rule ∷ deny_rule ∷ [])
      (deny_rule ∷ allow_rule ∷ []) allowed (evaluate_swapped.0) ∣ Permᴰ.swap refl refl ∣₁
      evaluate_allows (evaluate_swapped.1)

evaluate_without_deny :
    (d : Decision) × (evaluate unaddressed
        (record { version = ℤ.pos 2; rules = (allow_rule ∷ []) ++ (approval_rule ∷ []) })
        live
      ≡ ok d)
unfolding evaluate phulax.Policy.Engine.apply_rules apply_rule phulax.Policy.Engine.match_mismatch
    contains phulax.Policy.Engine.check_conditions phulax.Policy.Engine.Conditions.resolve_condition
    phulax.Policy.Engine.Conditions.lookup phulax.Policy.Engine.Conditions.walk
    phulax.Value.Texts.split_dots phulax.Value.get
evaluate_without_deny = (_, refl)

evaluate_mono_example : strictness (evaluate_without_deny.0).effect ≤ strictness deny
evaluate_mono_example =
    evaluate_mono unaddressed live (ℤ.pos 2) (ℤ.pos 3) (allow_rule ∷ []) (approval_rule ∷ [])
      deny_rule (evaluate_without_deny.0) denied refl (evaluate_without_deny.1) evaluate_denies

evaluate-explained_example :
    (denied.trace ≡ map (trace_of unaddressed (context_of unaddressed live)) bundle.rules)
    × (denied.matched_rules ≡ "deny-external" ∷ "ask" ∷ "allow-small" ∷ [])
    × (denied.winning_rules ≡ "deny-external" ∷ [])
    × (denied.policy_version ≡ ℤ.pos 3)
unfolding fired apply_rule phulax.Policy.Engine.match_mismatch contains
    phulax.Policy.Engine.check_conditions phulax.Policy.Engine.Conditions.resolve_condition
    phulax.Policy.Engine.Conditions.lookup phulax.Policy.Engine.Conditions.walk
    phulax.Value.Texts.split_dots phulax.Value.get
evaluate-explained_example = evaluate-explained unaddressed bundle live denied evaluate_denies refl

evaluate-never_asserts_example : evaluate unaddressed bundle live ≢ err assertion_error
evaluate-never_asserts_example =
    evaluate-never_asserts unaddressed bundle live ((tt, tt), ((tt, tt), (tt, tt)))

evaluate-total_example : (d : Decision) × (evaluate unaddressed bundle live ≡ ok d)
evaluate-total_example =
    evaluate-total unaddressed bundle live ((tt, tt), ((tt, tt), (tt, tt)))
      (((λ h. cc), tt), ((tt, tt), (tt, tt))) ((λ h. cc), tt)
