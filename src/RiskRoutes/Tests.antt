-- ===== src/RiskRoutes/Tests.antt =====
-- interface/routes/risk.py: runs of the handlers, and their theorems at concrete inputs.
use cto_test_ai_trading_bot.Prelude.{◌≡◌, refl, true, some}
use cto_test_ai_trading_bot.Prelude.Int.{ℤ, ◌+ℤ◌, ◌-ℤ◌}
use cto_test_ai_trading_bot.Prelude.Fixed.{fixed, fixed_times, fixed_over, fixed-IsOrdered}
use cto_test_ai_trading_bot.Prelude.Dict.{get_or, lookup, insert, values}
use cto_test_ai_trading_bot.Prelude.Number.{
  IsLe, zero_num, ratio, absolute, larger, smaller, total, divide,
}
use cto_test_ai_trading_bot.RiskBreaker.{tripped}
use cto_test_ai_trading_bot.Position.{risk_reward, is_long}
use cto_test_ai_trading_bot.RiskManager.{
  RiskManager, position_key, max_notional, base_notional, calculate_position_size,
  check_session_window, check_cooldown, check_spread, check_volatility, check_symbol_exposure,
  check_var, approve_size, approve_gates, approve_signal, calculate_historical_var,
}
use cto_test_ai_trading_bot.RiskManager.Methods.{portfolio_notional}
use cto_test_ai_trading_bot.RiskManager.Examples.{units, start, signal, first_of_sorted, invested}
use cto_test_ai_trading_bot.Http.{ok, as_internal, require, tally}
use cto_test_ai_trading_bot.Http.Tally.{amounts_of}
use cto_test_ai_trading_bot.RiskRoutes.{
  RiskLimits, RiskCheck, ExposureBreakdown, exposure, is_accepted, apply_limits, set_risk_limits,
  check_signal, check_result, get_exposure_breakdown,
}
use cto_test_ai_trading_bot.RiskRoutes.Reading.{check_risk}
use cto_test_ai_trading_bot.RiskRoutes.Limits.{effective_value, set_risk_limits_bounds}
use cto_test_ai_trading_bot.RiskRoutes.Exposure.{get_exposure_breakdown_lem}

program : Unit {0}
unfolding ◌+ℤ◌ ◌-ℤ◌ fixed_times fixed_over lookup insert absolute larger smaller total divide
    tripped risk_reward is_long position_key max_notional base_notional calculate_position_size
    check_session_window check_cooldown check_spread check_volatility check_symbol_exposure
    check_var approve_size approve_gates approve_signal calculate_historical_var portfolio_notional
    as_internal require tally is_accepted apply_limits set_risk_limits check_signal check_result
    check_risk get_exposure_breakdown
program = tt

-- a maximum of one thousand, with a leverage of three
abbrev limits : RiskLimits ℤ
limits = record {
  max_position_value = units 1000;
  max_order_size = units 500;
  max_orders_per_sec = 10;
  max_concentration = ratio 1 2;
  leverage_limit = units 3;
  stop_loss_pct = ratio 5 100;
}

-- it comes to three thousand
tripled : effective_value limits start.equity ≡ units 3000
unfolding program
tripled = refl

abbrev limited : RiskManager ℤ
limited = apply_limits limits start

set_risk_limits_bounds_example :
    IsLe zero_num (units 3000) × IsLe (units 3000) (effective_value limits start.equity)
unfolding program
set_risk_limits_bounds_example =
    set_risk_limits_bounds fixed-IsOrdered signal limits start limited (units 3000) refl refl refl
      refl

get_exposure_breakdown_lem_example :
    (b : ExposureBreakdown ℤ) × (get_exposure_breakdown (some invested) ≡ (some invested, ok b))
    × (get_or zero_num "binance" b.by_symbol
        ≡ total (amounts_of (λ p. p.symbol) exposure "binance" (values invested.positions)))
    × (get_or zero_num "binance" b.by_venue
        ≡ total (amounts_of (λ p. p.exchange) exposure "binance" (values invested.positions)))
    × (get_or zero_num "binance" b.by_side
        ≡ total (amounts_of (λ p. p.direction) exposure "binance" (values invested.positions)))
get_exposure_breakdown_lem_example = get_exposure_breakdown_lem "binance" invested

-- a check of a sound order
passed :
    (r : RiskCheck ℤ) × ((check_risk first_of_sorted "ETH/USDT" true
        (units 100)
        (ratio 15 1000)
        (ratio 3 100)
        400_000
        600
        (some start)).1
      ≡ ok r)
    × (r.passed ≡ true)
unfolding program
passed = (_, refl, refl)
