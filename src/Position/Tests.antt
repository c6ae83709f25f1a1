-- ===== src/Position/Tests.antt =====
-- execution/risk_manager.py: the stop of a position over a few ticks.
use cto_test_ai_trading_bot.Prelude.{ℕ, ◌≡◌, refl, false, List, [], ◌∷◌}
use cto_test_ai_trading_bot.Prelude.Int.{ℤ, ◌+ℤ◌, ◌-ℤ◌}
use cto_test_ai_trading_bot.Prelude.Fixed.{fixed, fixed_times, fixed_over, fixed-IsOrdered}
use cto_test_ai_trading_bot.Prelude.Number.{ratio}
use cto_test_ai_trading_bot.Position.{
  Position, StopRules, is_long, manage_position, move_breakeven, trail_stop, update_price, atr_of,
  profit_in_atr, hold_seconds,
}
use cto_test_ai_trading_bot.Position.Stops.{IsSound, IsTighter, follow, follow-IsTighter}

abbrev rules : StopRules ℤ
rules = record {
  breakeven_trigger_atr = ratio 1 1;
  trailing_activation_atr = ratio 2 1;
  trailing_distance_atr = ratio 1 1;
  max_hold_minutes = 0;
}

abbrev long_position : Position ℤ
long_position = record {
  exchange = "binance";
  symbol = "BTC/USDT";
  direction = "long";
  size = ratio 1 1;
  entry_price = ratio 100 1;
  current_price = ratio 100 1;
  stop_loss = ratio 98 1;
  take_profit = ratio 106 1;
  open_time = 0;
  pnl = ratio 0 1;
  pnl_pct = ratio 0 1;
  trailing_active = false;
  trailing_stop = ratio 0 1;
  breakeven_moved = false;
  highest_since_entry = ratio 100 1;
  lowest_since_entry = ratio 100 1;
}

abbrev ticks : List (ℤ × ℕ)
ticks = (ratio 101 1, 1000) ∷ (ratio 103 1, 2000) ∷ (ratio 99 1, 3000) ∷ []

-- the stop moves to the entry price at 101, and to 102 at 103, one range below the highest price
stop_after_ticks : (follow fixed-IsOrdered rules ticks long_position).stop_loss ≡ ratio 102 1
unfolding follow manage_position move_breakeven trail_stop update_price atr_of profit_in_atr
    hold_seconds is_long ◌+ℤ◌ ◌-ℤ◌ fixed_times fixed_over
stop_after_ticks = refl

long_position-IsSound : IsSound long_position
unfolding is_long
long_position-IsSound = record { losing_side = λ e. refl }

follow-IsTighter_example :
    IsTighter
      (is_long "long")
      (ratio 98 1)
      (follow fixed-IsOrdered rules ticks long_position).stop_loss
follow-IsTighter_example =
    follow-IsTighter fixed-IsOrdered rules ticks long_position refl long_position-IsSound
