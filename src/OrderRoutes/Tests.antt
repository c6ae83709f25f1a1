-- ===== src/OrderRoutes/Tests.antt =====
-- interface/routes/orders.py: runs of the handlers, and their theorems at concrete inputs.
use cto_test_ai_trading_bot.Prelude.{
  keep, ◌>>=◌, ℕ, ◌≡◌, refl, ap, Bool, true, false, none, some, List, [], ◌∷◌, map, take, length,
  arith, str_eq, if◌then◌else◌, eq_iff, String,
}
use mathlib.Core.List.{Perm}
use mathlib.Core.Path.{subst}
use cto_test_ai_trading_bot.Prelude.Int.{ℤ, pos, ◌+ℤ◌, ◌-ℤ◌}
use cto_test_ai_trading_bot.Prelude.Fixed.{fixed, fixed_times, fixed_over}
use cto_test_ai_trading_bot.Prelude.Dict.{values, lookup, insert, erase}
use cto_test_ai_trading_bot.Prelude.Text.{is_word, codes, lower, same_codes}
use cto_test_ai_trading_bot.Prelude.Sets.{string_eq, has}
use cto_test_ai_trading_bot.Prelude.Number.{ratio, absolute, larger, total}
use cto_test_ai_trading_bot.Idempotency
use cto_test_ai_trading_bot.Idempotency.{
  check_and_set, check_found, store, cleanup_expired, expired_keys, erase_all, enforce_size_limit,
  sort_by_age, insert_by_age, set_result,
}
use cto_test_ai_trading_bot.Order.{Order, pending, is_active, same_side, post_init}
use cto_test_ai_trading_bot.OrderManager
use cto_test_ai_trading_bot.OrderManager.{
  OrderManager, no_breaker, breaker_open, wants_routing, default_exchange, resolve_exchange,
  take_decision, find_opposing, check_self_trade, record_audit,
}
use cto_test_ai_trading_bot.OrderManager.Methods.{
  choose_client_id, insert_pair, new_order, store_order, create_order as create_in, place_checked,
  place_order, update_order, cancel_order as cancel_in,
}
use cto_test_ai_trading_bot.OrderManager.Queries.{get_open_orders as open_in}
use cto_test_ai_trading_bot.OrderManager.Invariant.{IsValid}
use cto_test_ai_trading_bot.OrderManager.Books.{init-IsValid, place_order-IsValid}
use cto_test_ai_trading_bot.Http.{internal_error, ok, as_internal, narrow, first_where, require}
use cto_test_ai_trading_bot.OrderRoutes.{
  OrderRequest, Outside, order_manager_unavailable, require_order_manager, map_order_type, map_side,
  response_side, response_type, status_text, same_lower, to_response, insert_newest, newest_first,
  slice, matching, get_orders, get_open_orders, open_matching, cancelled_response, buy, sell, limit,
  stop,
}
use cto_test_ai_trading_bot.OrderRoutes.Changes.{
  cancel_found, cancel_order, cancel_each, cancel_all_open_orders, is_accepted, to_call, order_of,
  answer, create_with, create_order, post_order, create_each, create_batch_orders,
}
use cto_test_ai_trading_bot.OrderRoutes.Listing.{get_orders_lem, IsNewestFirst}
use cto_test_ai_trading_bot.OrderRoutes.CancelAll.{IsReachable}
use cto_test_ai_trading_bot.OrderRoutes.Wanted.{
  is_wanted, after_request, cancel_all_open_orders_lem,
}
use cto_test_ai_trading_bot.OrderRoutes.Batch.{IsBatch, create_batch_orders_lem}

program : Unit {0}
unfolding ◌+ℤ◌ ◌-ℤ◌ fixed_times fixed_over lookup insert erase absolute larger total is_word codes
    lower same_codes has Idempotency.init check_and_set check_found store cleanup_expired
    expired_keys erase_all enforce_size_limit sort_by_age insert_by_age set_result is_active
    same_side post_init OrderManager.init breaker_open wants_routing default_exchange
    resolve_exchange take_decision find_opposing check_self_trade record_audit choose_client_id
    insert_pair new_order store_order create_in place_checked place_order update_order cancel_in
    open_in as_internal require_order_manager require map_order_type map_side response_side
    response_type status_text same_lower narrow to_response insert_newest newest_first slice
    matching get_orders get_open_orders open_matching first_where cancelled_response cancel_found
    cancel_order cancel_each cancel_all_open_orders is_accepted to_call order_of answer create_with
    create_order post_order create_each create_batch_orders
program = tt

abbrev ask : OrderRequest ℤ
ask = record {
  symbol = "BTC/USDT";
  side = sell;
  order_type = stop;
  quantity = ratio 2 1;
  price = some (ratio 90 1);
  time_in_force = "GTC";
  venue = "bybit";
  reduce_only = true;
  client_order_id = some "c1";
}

abbrev bid : OrderRequest ℤ
bid = record ask { side = buy; order_type = limit; client_order_id = some "c2" }

abbrev at : String → ℕ → Outside ℤ
at order_id now = record {
  now = now;
  generated_client_id = "unused";
  generated_order_id = order_id;
  breaker = no_breaker;
  router = none;
  exchanges = [];
}

abbrev empty : OrderManager ℤ
empty = OrderManager.init

-- a stop order is placed as a limit order
abbrev holding : OrderManager ℤ
holding = (place_order (to_call ask none (at "ord_1" 1000)) empty).0

stopped :
    (post_order ask none (at "ord_1" 1000) (some empty)).1
    ≡ ok (record {
      order_id = "ord_1";
      client_order_id = "c1";
      symbol = "BTC/USDT";
      side = sell;
      order_type = limit;
      quantity = ratio 2 1;
      price = ratio 90 1;
      filled_quantity = ratio 0 1;
      remaining_quantity = ratio 2 1;
      avg_fill_price = ratio 0 1;
      status = pending;
      venue = "bybit";
      created_at = 1000;
      updated_at = 1000;
    })
unfolding program
stopped = refl

get_orders_lem_case :
    ((sorted : List (Order ℤ)) × (get_orders
          (some "bybit")
          none
          (some "PENDING")
          (pos 10)
          (some holding)
        ≡ ok (map to_response (take 10 sorted)))
      × Perm sorted (matching (some "bybit") none (some "PENDING") holding)
      × IsNewestFirst sorted)
    × (get_orders {A = ℤ} (some "bybit") none (some "PENDING") (pos 10) none
        ≡ internal_error (503 ∷ []) order_manager_unavailable)
get_orders_lem_case = get_orders_lem (some "bybit") none (some "PENDING") 10 holding

-- the filter takes the status in any case
listed : length (matching (some "bybit") none (some "PENDING") holding) ≡ 1
unfolding program
listed = refl

holding-IsValid : IsValid holding
unfolding program
holding-IsValid = place_order-IsValid (to_call ask none (at "ord_1" 1000)) empty init-IsValid refl

only_entry :
    (b : Bool) (p o : Order ℤ) → (if b then some p else none) ≡ some o → (b ≡ true) × (p ≡ o)
only_entry true p o h = (refl, ground arith)
only_entry false p o h = ground arith

holding-IsReachable : IsReachable holding
unfolding program
holding-IsReachable id o found active =
    let (here, same) = only_entry (str_eq "ord_1" id) _ o found in
    subst
      (λ p.
        (str_eq p.client_order_id "" ≡ false)
        × (lookup p.client_order_id holding.client_order_map ≡ some id))
      same (refl, ap some ((eq_iff "ord_1" id).0 here))

cancel_all_open_orders_lem_example :
    (m' : OrderManager ℤ) × (cancel_all_open_orders 2000 (some "bybit") none (some holding)
      ≡ (some m', ok (length (keep (is_wanted (some "bybit") none) (values holding.orders)))))
    × ((id : String)
        → lookup id m'.orders
          ≡ (lookup id holding.orders >>= λ o. some (after_request (some "bybit") none o)))
unfolding program
cancel_all_open_orders_lem_example =
    cancel_all_open_orders_lem 2000 (some "bybit") none holding holding-IsValid (refl, tt)
      holding-IsReachable

-- the second order would trade against the first, which stays
abbrev batch : List (OrderRequest ℤ × Outside ℤ)
batch = (ask, at "ord_1" 1000) ∷ (bid, at "ord_2" 1001) ∷ []

kept :
    get_open_orders none none (create_batch_orders batch (some empty)).0
    ≡ ok (map to_response (open_matching none none holding))
unfolding program
kept = refl

create_batch_orders_lem_example :
    IsBatch batch (some empty) (create_batch_orders batch (some empty))
create_batch_orders_lem_example = create_batch_orders_lem batch (some empty)
