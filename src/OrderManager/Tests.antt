-- ===== src/OrderManager/Tests.antt =====
-- execution/order_manager.py: runs of the order manager on numbers with eight decimals, and its
-- theorems at concrete inputs.
use cto_test_ai_trading_bot.Prelude.{
  ◌+◌, ◌≤◌, ◌≡◌, refl, true, false, none, some, [], ◌∷◌, arith, str_eq, if◌then◌else◌,
}
use cto_test_ai_trading_bot.Prelude.Int.{ℤ, ◌+ℤ◌, ◌-ℤ◌}
use cto_test_ai_trading_bot.Prelude.Fixed.{fixed, fixed_times, fixed_over, fixed-IsOrdered}
use cto_test_ai_trading_bot.Prelude.Dict.{lookup, insert, erase}
use cto_test_ai_trading_bot.Prelude.Text.{is_word}
use cto_test_ai_trading_bot.Prelude.Number.{ratio, absolute, larger, total, equal}
use cto_test_ai_trading_bot.CircuitBreaker.{is_opened}
use cto_test_ai_trading_bot.Idempotency
use cto_test_ai_trading_bot.Idempotency.{
  check_and_set, check_found, store, cleanup_expired, expired_keys, erase_all, enforce_size_limit,
  sort_by_age, insert_by_age, set_result,
}
use cto_test_ai_trading_bot.Idempotency.Invariant as Table
use cto_test_ai_trading_bot.Order.{
  Order, buy, sell, limit, cancelled, partially_filled, submitted, is_active, same_side, post_init,
}
use cto_test_ai_trading_bot.OrderManager
use cto_test_ai_trading_bot.OrderManager.{
  OrderManager, no_breaker, with_tripped, breaker_open, wants_routing, default_exchange,
  resolve_exchange, take_decision, get_order, find_opposing, check_self_trade, record_audit,
  created, idempotent_retry, order_not_active,
}
use cto_test_ai_trading_bot.OrderManager.Methods.{
  Request, choose_client_id, insert_pair, new_order, store_order, create_order, place_checked,
  place_order, update_order, confirm_order_submission, apply_fill, record_fill, cancel_order,
}
use cto_test_ai_trading_bot.OrderManager.Invariant.{IsValid}
use cto_test_ai_trading_bot.OrderManager.Books.{
  init-IsValid, placed, filled_by, cancelled_by, here, next, calls-IsValid,
}
use cto_test_ai_trading_bot.OrderManager.Placing.{place_order_no_self_trade}
use cto_test_ai_trading_bot.OrderManager.Retry.{place_order_retry}
use cto_test_ai_trading_bot.OrderManager.Lifecycle.{
  cancel_order_lem, record_fill_lem, record_fill_revives, confirm_revives, apply_fill_overfilled,
}

program : Unit {0}
unfolding ◌+ℤ◌ ◌-ℤ◌ fixed_times fixed_over lookup insert erase absolute larger total equal is_word
    is_opened Idempotency.init check_and_set check_found store cleanup_expired expired_keys
    erase_all enforce_size_limit sort_by_age insert_by_age set_result is_active same_side post_init
    OrderManager.init breaker_open wants_routing default_exchange resolve_exchange take_decision
    get_order find_opposing check_self_trade record_audit choose_client_id insert_pair new_order
    store_order create_order place_checked place_order update_order confirm_order_submission
    apply_fill record_fill cancel_order
program = tt

-- a bid for two units
abbrev bid : Request ℤ
bid = record {
  exchange = "auto";
  symbol = "BTC/USDT";
  side = buy;
  quantity = ratio 2 1;
  price = ratio 100 1;
  order_type = limit;
  client_order_id = some "c1";
  metadata = [];
  now = 1000;
  generated_client_id = "unused";
  generated_order_id = "ord_1";
  breaker = no_breaker;
  router = none;
  exchanges = ("kraken", false) ∷ ("bybit", true) ∷ [];
}

-- the same client id again, with other arguments
abbrev bid_again : Request ℤ
bid_again = record bid {
  quantity = ratio 5 1;
  now = 2000;
  generated_order_id = "ord_2";
  breaker = with_tripped false;
}

abbrev empty : OrderManager ℤ
empty = OrderManager.init

abbrev holding : OrderManager ℤ
holding = (place_order bid empty).0

abbrev held : Order ℤ
held =
    new_order bid (resolve_exchange bid.exchanges bid.router bid.exchange bid.metadata).0
      (resolve_exchange bid.exchanges bid.router bid.exchange bid.metadata).1

holding-found : get_order "c1" holding ≡ some held
unfolding program
holding-found = refl

holding-IsValid : IsValid holding
unfolding program
holding-IsValid = calls-IsValid init-IsValid (next here (placed bid refl))

-- the first enabled exchange is taken when no router is attached
routed_to_bybit : held.venue ≡ "bybit"
unfolding program
routed_to_bybit = refl

-- an order is placed, filled in part, and cancelled
calls-IsValid_example :
    IsValid (record_fill "c1" "f1" (ratio 1 1) (ratio 99 1) (ratio 1 10) 1500 holding).0
unfolding program
calls-IsValid_example = calls-IsValid init-IsValid (
    next (next here (placed bid refl))
      (filled_by "c1" "f1" (ratio 1 1) (ratio 99 1) (ratio 1 10) 1500))

-- the ask of another client, when the bid is older than the self-trade window
abbrev late_ask : Request ℤ
late_ask = record bid {
  side = sell;
  client_order_id = none;
  generated_client_id = "c2";
  generated_order_id = "ord_2";
  exchange = "bybit";
  now = 61_000;
}

place_order_no_self_trade_example : held.created_at + holding.self_trade_window_ms ≤ late_ask.now
unfolding program
place_order_no_self_trade_example =
    place_order_no_self_trade late_ask holding "ord_1" held refl refl refl refl refl refl
      (λ same. cc)

-- a minute earlier the ask is refused
early_ask : (place_order (record late_ask { now = 2000 }) holding).1.success ≡ false
unfolding program
early_ask = refl

empty_table-IsValid : Table.IsValid empty.idempotency
unfolding program
empty_table-IsValid = record { unique = tt; bounded = omega arith }

place_order_retry_example :
    let m' = (place_order bid empty).0 in
    let (m'', reply) = place_order bid_again m' in
    (reply.success ≡ true)
    × (reply.order ≡ (place_order bid empty).1.order)
    × (reply.reason ≡ idempotent_retry)
    × (m''.orders ≡ m'.orders)
    × (m''.client_order_map ≡ m'.client_order_map)
    × (m''.audit_log ≡ m'.audit_log)
unfolding program
place_order_retry_example =
    place_order_retry bid bid_again empty empty_table-IsValid (omega arith) tt refl refl refl refl
      refl (omega arith)

cancel_order_lem_case :
    let (m', reply) = cancel_order "c1" 3000 holding in
    (reply.success ≡ true)
    × (get_order "c1" m' ≡ some (record held { status = cancelled }))
    × (cancel_order "c1" 4000 m' ≡ (
      m',
      record { success = false; order = some held.order_id; reason = order_not_active cancelled },
    ))
unfolding program
cancel_order_lem_case =
    cancel_order_lem "c1" 3000 4000 held holding holding-IsValid holding-found refl

record_fill_lem_case :
    let m' = (record_fill "c1" "f1" (ratio 1 1) (ratio 99 1) (ratio 1 10) 3000 holding).0 in
    (get_order "c1" m' ≡ some (apply_fill "f1" (ratio 1 1) (ratio 99 1) (ratio 1 10) 3000 held))
    × (lookup "ord_1" m'.orders ≡ (
        if str_eq held.order_id "ord_1"
        then some (apply_fill "f1" (ratio 1 1) (ratio 99 1) (ratio 1 10) 3000 held)
        else lookup "ord_1" holding.orders))
record_fill_lem_case =
    record_fill_lem "c1" "f1" "ord_1" (ratio 1 1) (ratio 99 1) (ratio 1 10) 3000 held holding
      holding-IsValid holding-found

abbrev dropped : OrderManager ℤ
dropped = (cancel_order "c1" 3000 holding).0

abbrev dead : Order ℤ
dead = record held { status = cancelled }

dropped-found : get_order "c1" dropped ≡ some dead
unfolding program
dropped-found = refl

dropped-IsValid : IsValid dropped
unfolding program
dropped-IsValid =
    calls-IsValid init-IsValid (next (next here (placed bid refl)) (cancelled_by "c1" 3000))

record_fill_revives_case :
    (o' : Order ℤ) × (get_order "c1"
        (record_fill "c1" "f1" (ratio 1 1) (ratio 99 1) (ratio 1 10) 4000 dropped).0
      ≡ some o')
    × (o'.status ≡ partially_filled)
    × (is_active o'.status ≡ true)
unfolding program
record_fill_revives_case =
    record_fill_revives "c1" "f1" (ratio 1 1) (ratio 99 1) (ratio 1 10) 4000 dead dropped
      dropped-IsValid dropped-found refl refl refl

confirm_revives_case :
    (o' : Order ℤ) × (get_order "c1" (confirm_order_submission "c1" "ex_1" 4000 dropped).0
      ≡ some o')
    × (o'.status ≡ submitted)
    × (is_active o'.status ≡ true)
unfolding program
confirm_revives_case = confirm_revives "c1" "ex_1" 4000 dead dropped dropped-IsValid dropped-found

-- three units for an order of two
apply_fill_overfilled_case :
    ((apply_fill "f1" (ratio 3 1) (ratio 99 1) (ratio 1 10) 4000 held).status ≡ partially_filled)
    × (is_active (apply_fill "f1" (ratio 3 1) (ratio 99 1) (ratio 1 10) 4000 held).status ≡ true)
unfolding program
apply_fill_overfilled_case =
    apply_fill_overfilled fixed-IsOrdered "f1" (ratio 3 1) (ratio 99 1) (ratio 1 10) 4000 held refl
      refl refl
