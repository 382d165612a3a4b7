-- ===== src/Gateway/Executor.antt =====
-- apps/gateway/src/phulax_gateway/executor.py: the simulated tools. `order` is the entry of
-- _FAKE_ORDERS for ORD-1001; `message_id` and `refund_id` format a number.
use phulax.Prelude.{
  ℕ, ◌+◌, String, Bool, true, false, Option, none, some, List, [], ◌∷◌, ◌++◌, str_eq, length,
  if◌then◌else◌,
}
use phulax.Value.{null, bool, str, Value, scalar, list, dict, Fields, end, field, get}

-- SENT_EMAILS, ISSUED_REFUNDS, and the next number of _refund_ids.
pub record Ledgers (F : Type 0) : Type 0 where
  pub sent_emails : List (Fields F)
  pub issued_refunds : List (Fields F)
  pub next_refund : ℕ

-- SENT_EMAILS and ISSUED_REFUNDS are empty, and the count begins with 1.
abbrev pub no_effects : {F : Type 0} → Ledgers F
no_effects = record { sent_emails = []; issued_refunds = []; next_refund = 1 }

module _ {F : Type 0} where
  -- `arguments.get(key)`, where `None` is the value for a missing key.
  abbrev pub get_or_null : Fields F → String → Value F
  get_or_null arguments key = elim (get arguments key) [ none ↦ scalar null | some v ↦ v ]

  -- `arguments.get("order_id", "")`
  abbrev pub order_id_of : Fields F → Value F
  order_id_of arguments = elim (get arguments "order_id") [ none ↦ scalar (str "") | some v ↦ v ]

  module _ (order : Value F) where
    abbrev pub found_order : Bool → Value F → Fields F
    found_order true v = field "found" (scalar (bool true)) (field "order" order end)
    found_order false v = field "found" (scalar (bool false)) (field "order_id" v end)

    -- `_FAKE_ORDERS.get(order_id)`; `none` is the TypeError of a key that cannot be hashed.
    abbrev pub look_up : Value F → Option (Fields F)
    look_up (list vs) = none
    look_up (dict fs) = none
    look_up (scalar (str id)) = some (found_order (str_eq id "ORD-1001") (scalar (str id)))
    look_up (scalar s) = some (found_order false (scalar s))

    unfoldable pub read_order : Fields F → Option (Fields F)
    read_order arguments = look_up (order_id_of arguments)

  unfoldable pub send_email : (ℕ → String) → Fields F → Ledgers F → Fields F × Ledgers F
  send_email message_id arguments ledgers =
      let sent = ledgers.sent_emails ++ (arguments ∷ []) in
      (
        field "sent" (scalar (bool true)) (
            field "to" (get_or_null arguments "to")
              (field "message_id" (scalar (str (message_id (length sent)))) end)),
        record ledgers { sent_emails = sent },
      )

  unfoldable pub issue_refund : (ℕ → String) → Fields F → Ledgers F → Fields F × Ledgers F
  issue_refund refund_id arguments ledgers =
      let refund = field "refund_id" (scalar (str (refund_id ledgers.next_refund))) (
        field "order_id" (get_or_null arguments "order_id") (
          field "amount" (get_or_null arguments "amount")
            (field "status" (scalar (str "succeeded")) end))) in
      (
        refund,
        record ledgers {
          issued_refunds = ledgers.issued_refunds ++ (refund ∷ []);
          next_refund = ledgers.next_refund + 1;
        },
      )

  -- `execute`: the result, or `none` where it raises, and the ledgers.
  unfoldable pub execute :
      Value F
      → (ℕ → String)
      → (ℕ → String)
      → String
      → Fields F
      → Ledgers F
      → Option (Fields F) × Ledgers F
  unfolding read_order send_email issue_refund
  execute order message_id refund_id tool_name arguments ledgers =
      if str_eq tool_name "read_order"
      then (read_order order arguments, ledgers)
      else if str_eq tool_name "send_email"
      then (let (result, ledgers') = send_email message_id arguments ledgers in
          (some result, ledgers'))
      else if str_eq tool_name "issue_refund"
      then (let (result, ledgers') = issue_refund refund_id arguments ledgers in
          (some result, ledgers'))
      else (
        some (
            field "simulated" (scalar (bool true))
              (field "note" (scalar (str "no executor for this tool yet")) end)),
        ledgers,
      )
