-- ===== src/OrderManager/Queries.antt =====
-- execution/order_manager.py: the queries of `OrderManager`.
use cto_test_ai_trading_bot.Prelude.{
  ℕ, String, Option, none, some, List, map, ◌&&◌, if◌then◌else◌, length, keep, str_eq,
}
use cto_test_ai_trading_bot.Prelude.Dict.{values}
use cto_test_ai_trading_bot.Prelude.Number.{Number, ◌⊗◌, total}
use cto_test_ai_trading_bot.Idempotency.{total_records}
use cto_test_ai_trading_bot.Order.{Order, is_active, is_filled}
use cto_test_ai_trading_bot.OrderManager.{OrderManager}

-- what `get_stats` returns
pub record Stats (A : Type 0) : Type 0 where
  pub total_orders : ℕ
  pub open_orders : ℕ
  pub filled_orders : ℕ
  pub total_fill_value : A
  pub total_fees : A
  pub idempotency_records : ℕ
  pub audit_log_size : ℕ

module _ {A : Type 0} ⦃num : Number A⦄ where
  -- The queries. An exchange that is not given, or is empty, means all of them.
  abbrev pub on_exchange : Option String → List (Order A) → List (Order A)
  on_exchange none os = os
  on_exchange (some e) os = if str_eq e "" then os else keep (λ o. str_eq o.venue e) os

  unfoldable pub get_orders_by_symbol : String → String → OrderManager A → List (Order A)
  get_orders_by_symbol exchange symbol m =
      keep (λ o. str_eq o.venue exchange && str_eq o.symbol symbol) (values m.orders)

  unfoldable pub get_open_orders : Option String → OrderManager A → List (Order A)
  get_open_orders exchange m =
      on_exchange exchange (keep (λ o. is_active o.status) (values m.orders))

  unfoldable pub get_filled_orders : Option String → OrderManager A → List (Order A)
  get_filled_orders exchange m =
      on_exchange exchange (keep (λ o. is_filled o.status) (values m.orders))

  unfoldable pub get_stats : OrderManager A → Stats A
  unfolding get_open_orders get_filled_orders total_records
  get_stats m =
      let done = get_filled_orders none m in
      record {
        total_orders = length m.orders;
        open_orders = length (get_open_orders none m);
        filled_orders = length done;
        total_fill_value = total (map (λ o. o.cumulative_quantity ⊗ o.average_fill_price) done);
        total_fees = total (map (λ o. o.total_fee) done);
        idempotency_records = total_records m.idempotency;
        audit_log_size = length m.audit_log;
      }
