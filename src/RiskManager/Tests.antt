-- ===== src/RiskManager/Tests.antt =====
-- execution/risk_manager.py: runs of the risk manager on numbers with eight decimals, and its
-- theorems at concrete inputs.
use cto_test_ai_trading_bot.Prelude.{◌≡◌, refl, ◌⊎◌, true, false, some, [], arith, length}
use cto_test_ai_trading_bot.Prelude.Int.{ℤ, ◌+ℤ◌, ◌-ℤ◌}
use cto_test_ai_trading_bot.Prelude.Fixed.{fixed, fixed_times, fixed_over, fixed-IsOrdered}
use cto_test_ai_trading_bot.Prelude.Dict.{lookup, insert, erase}
use cto_test_ai_trading_bot.Prelude.Number.{
  IsLe, zero_num, ◌⊖◌, ◌⊘◌, absolute, larger, smaller, total, divide, equal,
}
use cto_test_ai_trading_bot.RiskBreaker
use cto_test_ai_trading_bot.RiskBreaker.{RiskBreaker, tripped, record_pnl}
use cto_test_ai_trading_bot.Position.{
  TradingSignal, Position, risk_reward, is_long, try_update_price, update_price, manage_position,
  move_breakeven, trail_stop, profit_in_atr, atr_of, hold_seconds,
}
use cto_test_ai_trading_bot.RiskManager.{
  risk_based, rejected, kill_switch_active, position_key, max_notional, base_notional,
  calculate_position_size, check_session_window, check_cooldown, check_spread, check_volatility,
  check_symbol_exposure, check_var, approve_size, approve_gates, approve_signal,
  calculate_historical_var,
}
use cto_test_ai_trading_bot.RiskManager.Methods.{
  open_position, close_position, activate_kill_switch, settle, close_all, compute_atr_stops,
  new_position, update_prices, exit_event,
}
use cto_test_ai_trading_bot.RiskManager.Examples.{
  units, start, signal, first_of_sorted, held, invested,
}
use cto_test_ai_trading_bot.RiskManager.Approval.{IsApproved, approve_signal-IsApproved}
use cto_test_ai_trading_bot.RiskManager.Watching.{IsWithin, update_prices-quiet}
use cto_test_ai_trading_bot.RiskManager.Sizing.{
  calculate_position_size_bounds, calculate_position_size_raises,
}
use cto_test_ai_trading_bot.RiskManager.Positions.{IsValid}
use cto_test_ai_trading_bot.RiskManager.KillSwitch.{activate_kill_switch_lem}
use cto_test_ai_trading_bot.RiskManager.Trading.{
  handle_signal, act_on, paper, here, next, signalled, killed, events-IsValid,
}

program : Unit {0}
unfolding ◌+ℤ◌ ◌-ℤ◌ fixed_times fixed_over lookup insert erase absolute larger smaller total divide
    tripped record_pnl risk_reward is_long try_update_price update_price position_key max_notional
    base_notional calculate_position_size check_session_window check_cooldown check_spread
    check_volatility check_symbol_exposure check_var approve_size approve_gates approve_signal
    calculate_historical_var open_position close_position activate_kill_switch settle close_all
    compute_atr_stops new_position handle_signal act_on RiskBreaker.init update_prices exit_event
    manage_position move_breakeven trail_stop profit_in_atr atr_of hold_seconds
program = tt

-- the size is the cap, two per cent of the equity
sized : calculate_position_size signal start ≡ some (units 2000)
unfolding program
sized = refl

approve_signal-IsApproved_example :
    (start.killed ≡ false)
    × ((tripped 400_000 start.circuit_breaker).1 ≡ false)
    × ((approve_signal first_of_sorted signal 400_000 600 start).0
        ≡ record start { circuit_breaker = (tripped 400_000 start.circuit_breaker).0 })
    × IsApproved first_of_sorted signal 400_000 600
        (approve_signal first_of_sorted signal 400_000 600 start).0
        (units 2000)
unfolding program
approve_signal-IsApproved_example =
    approve_signal-IsApproved first_of_sorted signal 400_000 600 start (units 2000) (omega arith)
      refl

calculate_position_size_bounds_example :
    IsLe zero_num (units 2000) × IsLe (units 2000) (max_notional start)
unfolding program
calculate_position_size_bounds_example =
    calculate_position_size_bounds fixed-IsOrdered signal start (units 2000) refl refl

abbrev worthless : TradingSignal ℤ
worthless = record signal { price = units 0 }

calculate_position_size_raises_case :
    (start.config.sizing_method ≡ risk_based)
    × ((equal worthless.price zero_num ≡ true)
        ⊎ (equal (absolute (worthless.price ⊖ worthless.stop_loss) ⊘ worthless.price) zero_num
            ≡ true))
unfolding program
calculate_position_size_raises_case = calculate_position_size_raises worthless start refl

start-IsValid : IsValid start
start-IsValid = record {
  keyed = tt;
  unique = tt;
  few = omega arith;
  window_positive = omega arith;
  history_bounded = omega arith;
}

-- one signal is traded, and then the kill switch is used
events-IsValid_example :
    IsValid
      (activate_kill_switch 500_000
        (handle_signal first_of_sorted "binance" paper signal 400_000 600 start)).0
events-IsValid_example =
    events-IsValid first_of_sorted start-IsValid (
      next (next here (signalled "binance" paper signal 400_000 600 (omega arith)))
        (killed 500_000))

invested-IsValid : IsValid invested
unfolding program
invested-IsValid = record {
  keyed = (refl, tt);
  unique = (refl, tt);
  few = omega arith;
  window_positive = omega arith;
  history_bounded = omega arith;
}

-- the position is closed with a profit of 20
closed_with_profit : (activate_kill_switch 500_000 invested).0.equity ≡ units 100_020
unfolding program
closed_with_profit = refl

activate_kill_switch_lem_example :
    let (m', ps, done) = activate_kill_switch 500_000 invested in
    (m'.positions ≡ [])
    × (length ps ≡ length invested.positions)
    × (done ≡ true)
    × (approve_signal first_of_sorted signal 600_000 600 m' ≡ (m', rejected kill_switch_active))
unfolding program
activate_kill_switch_lem_example =
    activate_kill_switch_lem first_of_sorted signal 500_000 600_000 600 invested invested-IsValid
      (refl, tt)

-- at 50600 the stop is moved to the entry price, and nothing is published
update_prices-quiet_example :
    let m' = (update_prices "binance" "BTC/USDT" (units 50_600) 500_000 invested).0 in
    (p' : Position ℤ) × (lookup (position_key "binance" "BTC/USDT") m'.positions ≡ some p')
    × (p'.current_price ≡ units 50_600)
    × IsWithin (is_long p'.direction) p' (units 50_600)
unfolding program
update_prices-quiet_example =
    update_prices-quiet "binance" "BTC/USDT" (units 50_600) 500_000 held invested refl refl refl
