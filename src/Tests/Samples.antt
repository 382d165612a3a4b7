-- ===== src/Tests/Samples.antt =====
-- A float that is an integer of at most six digits, a bundle, requests, and a document.
use phulax.Prelude.{ℕ, String, Bool, false, Option, none, some, List, [], ◌∷◌, ltb, if◌then◌else◌}
use phulax.Value.{
  ℤ, int_lt, int_le, FloatOps, int, str, Value, scalar, list, dict, nil, cons, end, field,
}
use phulax.Policy.Rules.{allow, deny, require_approval, lt, not_ends_with, one, Match, Rule, Bundle}
use phulax.Policy.Schema.Conditions.{CharOps}
use phulax.Policy.Engine.{PolicyRequest, AgentState}

-- `float(n)`, which overflows from a million on.
abbrev small : ℤ → Option ℤ
small (ℤ.pos n) = if ltb n 1000000 then some (ℤ.pos n) else none
small (ℤ.negsuc n) = if ltb n 1000000 then some (ℤ.negsuc n) else none

abbrev int_eq : ℤ → ℤ → Bool
int_eq a b = if int_le a b then int_le b a else false

instance abbrev pub float_ops : FloatOps ℤ
float_ops = record {
  of_int = small;
  float_eq = int_eq;
  float_lt = int_lt;
  float_le = int_le;
  int_lt_float = int_lt;
  int_le_float = int_le;
  float_lt_int = int_lt;
  float_le_int = int_le;
}

instance abbrev pub char_ops : CharOps
char_ops = record { unicode_alnum = λ c. false }

abbrev pub tools_only : List String → Match
tools_only names = record { tools = some names; environments = none; agent_ids = none }

abbrev pub allow_rule : Rule ℤ
allow_rule = record {
  id = "allow-small";
  effect = allow;
  match = tools_only ("refund" ∷ []);
  conditions = record { path = "arguments.amount"; op = lt; value = one (int (ℤ.pos 50)) } ∷ [];
  approver_role = none;
}

abbrev pub approval_rule : Rule ℤ
approval_rule = record {
  id = "ask";
  effect = require_approval;
  match = tools_only ("refund" ∷ []);
  conditions = [];
  approver_role = some "support-lead";
}

abbrev pub deny_rule : Rule ℤ
deny_rule = record {
  id = "deny-external";
  effect = deny;
  match = tools_only ("refund" ∷ "email" ∷ []);
  conditions =
      record { path = "arguments.recipient"; op = not_ends_with; value = one (str "@demo-org.dev") }
      ∷ [];
  approver_role = none;
}

abbrev pub bundle : Bundle ℤ
bundle = record { version = ℤ.pos 3; rules = allow_rule ∷ deny_rule ∷ approval_rule ∷ [] }

abbrev pub allow_bundle : Bundle ℤ
allow_bundle = record { version = ℤ.pos 4; rules = allow_rule ∷ deny_rule ∷ [] }

abbrev request_to : ℕ → String → PolicyRequest ℤ
request_to amount recipient = record {
  tool_name = "refund";
  environment = "production";
  agent_id = "a1";
  arguments =
      field "amount" (scalar (int (ℤ.pos amount))) (field "recipient" (scalar (str recipient)) end);
}

-- It is allowed by `allow_bundle`, and needs an approval under `bundle`.
abbrev pub inside : PolicyRequest ℤ
inside = request_to 30 "x@demo-org.dev"

abbrev pub outside : PolicyRequest ℤ
outside = request_to 30 "x@other.dev"

-- The recipient is missing, so the condition of `deny_rule` is unknown.
abbrev pub unaddressed : PolicyRequest ℤ
unaddressed = record {
  tool_name = "refund";
  environment = "production";
  agent_id = "a1";
  arguments = field "amount" (scalar (int (ℤ.pos 30))) end;
}

abbrev pub live : AgentState
live = record { revoked = false }

-- A document of one rule.
abbrev pub document : Value ℤ
document = dict (
    field "rules"
      (list (
        cons
          (dict (
            field "id" (scalar (str "ask")) (
              field "effect" (scalar (str "require_approval")) (
                field "match" (dict (field "tool" (scalar (str "refund")) end)) (
                  field "conditions"
                    (list (
                      cons
                        (dict (
                          field "field" (scalar (str "arguments.amount")) (
                            field "op" (scalar (str "lt"))
                              (field "value" (scalar (int (ℤ.pos 50))) end))))
                        nil))
                    (field "approver_role" (scalar (str "support-lead")) end))))))
          nil))
      end)

abbrev pub parsed : List (Rule ℤ)
parsed =
    record {
      id = "ask";
      effect = require_approval;
      match = tools_only ("refund" ∷ []);
      conditions = record { path = "arguments.amount"; op = lt; value = one (int (ℤ.pos 50)) } ∷ [];
      approver_role = some "support-lead";
    }
    ∷ []
