-- ===== src/PositionRoutes/Tests.antt =====
-- interface/routes/positions.py: runs of the handlers, and their theorem at a concrete input.
use cto_test_ai_trading_bot.Prelude.{◌≡◌, refl, none, some, [], map, length, arith}
use cto_test_ai_trading_bot.Prelude.Int.{ℤ, ◌+ℤ◌, ◌-ℤ◌}
use cto_test_ai_trading_bot.Prelude.Fixed.{fixed, fixed_times, fixed_over}
use cto_test_ai_trading_bot.Prelude.Dict.{lookup, erase, values, insert}
use cto_test_ai_trading_bot.Prelude.Number.{ratio, absolute, larger, smaller, total}
use cto_test_ai_trading_bot.RiskBreaker.{record_pnl}
use cto_test_ai_trading_bot.Position.{is_long, try_update_price, update_price}
use cto_test_ai_trading_bot.RiskManager.{RiskManager, position_key}
use cto_test_ai_trading_bot.RiskManager.Methods.{close_position, settle}
use cto_test_ai_trading_bot.RiskManager.Positions.{IsValid}
use cto_test_ai_trading_bot.RiskManager.Examples.{units, invested}
use cto_test_ai_trading_bot.Http.{ok, as_internal, require, narrow}
use cto_test_ai_trading_bot.PositionRoutes.{
  closed_response, close_on_request, count_closed, close_each, close_all_positions,
}
use cto_test_ai_trading_bot.PositionRoutes.CloseAll.{result_of, close_all_positions_lem}

program : Unit {0}
unfolding ◌+ℤ◌ ◌-ℤ◌ fixed_times fixed_over lookup erase insert absolute larger smaller total
    record_pnl is_long try_update_price update_price position_key close_position settle as_internal
    require narrow closed_response close_on_request count_closed close_each close_all_positions
program = tt

invested-IsValid : IsValid invested
unfolding program
invested-IsValid = record {
  keyed = (refl, tt);
  unique = (refl, tt);
  few = omega arith;
  window_positive = omega arith;
  history_bounded = omega arith;
}

close_all_positions_lem_example :
    (m' : RiskManager ℤ) × (close_all_positions none 500_000 (some invested) ≡ (
      some m',
      ok (length invested.positions, total (map result_of (values invested.positions))),
    ))
    × (m'.positions ≡ [])
unfolding program
close_all_positions_lem_example =
    close_all_positions_lem 500_000 invested invested-IsValid (refl, tt)

-- a request to close a hundredth closes the whole position
closed_whole :
    (close_on_request "BTC/USDT" "binance" (some (ratio 1 100)) none 500_000 (some invested)).1
    ≡ ok (record {
      quantity = some (ratio 1 100);
      closed_quantity = ratio 4 100;
      exit_price = units 50_500;
      realized_pnl = units 20;
    })
unfolding program
closed_whole = refl
