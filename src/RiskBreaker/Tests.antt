-- ===== src/RiskBreaker/Tests.antt =====
-- execution/risk_manager.py: the breaker of the risk manager at concrete inputs.
use cto_test_ai_trading_bot.Prelude.{◌≡◌, refl, inr, true, false, ◌||◌, arith}
use cto_test_ai_trading_bot.Prelude.Int.{ℤ, pos, negsuc, ◌+ℤ◌, ◌-ℤ◌, int_laws}
use cto_test_ai_trading_bot.Prelude.Fixed.{fixed, fixed-IsOrdered}
use cto_test_ai_trading_bot.Prelude.Number.{IsLe, ratio, ◌≼◌, absolute}
use cto_test_ai_trading_bot.RiskBreaker.{
  RiskBreaker, daily_loss_reached, record_pnl, tripped, drawdown,
}
use cto_test_ai_trading_bot.RiskBreaker.Trips.{
  record_pnl_trips, tripped_during_pause, retrips_after_pause,
}

-- four per cent were lost, with a limit of three
abbrev lost : RiskBreaker ℤ
lost = record {
  max_daily_loss = ratio 3 100;
  max_drawdown = ratio 10 100;
  pause_ms = 3_600_000;
  daily_loss = negsuc 3_999_999;
  peak_equity = ratio 100_000 1;
  is_tripped = true;
  trip_reason = daily_loss_reached (negsuc 3_999_999);
  trip_time = 50_000;
}

record_pnl_trips_case :
    let b' = record_pnl (negsuc 999_999) (ratio 99_000 1) 60_000 lost in
    (b'.is_tripped ≡ (
      lost.is_tripped
      || (lost.max_daily_loss ≼ absolute b'.daily_loss)
      || (lost.max_drawdown ≼ drawdown b'.peak_equity (ratio 99_000 1))))
    × IsLe lost.peak_equity b'.peak_equity
    × IsLe (ratio 99_000 1) b'.peak_equity
record_pnl_trips_case =
    record_pnl_trips fixed-IsOrdered (negsuc 999_999) (ratio 99_000 1) 60_000 lost

tripped_during_pause_case : tripped 3_649_999 lost ≡ (lost, true)
tripped_during_pause_case = tripped_during_pause 3_649_999 lost refl (inr (omega arith))

plus_zero : (a : ℤ) → a +ℤ pos 0 ≡ a
plus_zero a = omega int_laws

-- a gain of one per cent after the pause
retrips_after_pause_case :
    ((tripped 3_650_000 lost).1 ≡ false)
    × ((record_pnl (ratio 1 100) (ratio 97_000 1) 3_700_000 (tripped 3_650_000 lost).0).is_tripped
        ≡ true)
unfolding absolute ◌-ℤ◌
retrips_after_pause_case =
    retrips_after_pause plus_zero (ratio 1 100) (ratio 97_000 1) 3_650_000 3_700_000 lost refl
      (omega arith) (omega arith) refl refl
