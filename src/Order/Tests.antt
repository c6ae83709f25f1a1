-- ===== src/Order/Tests.antt =====
-- execution/order_manager.py: fills of an order, on numbers with eight decimals.
use cto_test_ai_trading_bot.Prelude.{◌+◌, ◌≡◌, refl, none, [], length, if◌then◌else◌}
use cto_test_ai_trading_bot.Prelude.Int.{ℤ, ◌+ℤ◌, ◌-ℤ◌}
use cto_test_ai_trading_bot.Prelude.Fixed.{fixed, fixed_times, fixed_over, fixed-IsOrdered}
use cto_test_ai_trading_bot.Prelude.Number.{IsLe, ratio, zero_num, ◌⊕◌, ◌⊖◌, ◌≼◌, larger}
use cto_test_ai_trading_bot.Order.{
  Order, buy, limit, pending, filled, partially_filled, update_fill,
}
use cto_test_ai_trading_bot.Order.Fills.{update_fill_lem}

abbrev zero_units : ℤ
zero_units = ratio 0 1

-- an order for two units
abbrev order : Order ℤ
order = record {
  order_id = "ord_1";
  client_order_id = "c1";
  symbol = "BTC/USDT";
  side = buy;
  order_type = limit;
  quantity = ratio 2 1;
  price = ratio 100 1;
  status = pending;
  filled_quantity = zero_units;
  remaining_quantity = ratio 2 1;
  avg_fill_price = zero_units;
  cumulative_quantity = zero_units;
  average_fill_price = zero_units;
  total_fee = zero_units;
  created_at = 1000;
  updated_at = 1000;
  submitted_at = none;
  filled_at = none;
  exchange_order_id = none;
  venue = "binance";
  stages = [];
  fills = [];
  metadata = [];
}

half_filled : (update_fill (ratio 1 1) (ratio 99 1) 2000 order).avg_fill_price ≡ ratio 99 1
unfolding update_fill ◌+ℤ◌ ◌-ℤ◌ fixed_times fixed_over larger
half_filled = refl

filled_in_part :
    let o' = update_fill (ratio 1 1) (ratio 99 1) 2000 order in
    (o'.filled_quantity ≡ order.filled_quantity ⊕ ratio 1 1)
    × (o'.status ≡ (if order.quantity ≼ o'.filled_quantity then filled else partially_filled))
    × IsLe zero_num o'.remaining_quantity
    × IsLe (order.quantity ⊖ o'.filled_quantity) o'.remaining_quantity
    × (length o'.stages ≡ length order.stages + 1)
filled_in_part = update_fill_lem fixed-IsOrdered (ratio 1 1) (ratio 99 1) 2000 order
