-- ===== src/RiskBreaker/Trips.antt =====
-- execution/risk_manager.py: when the breaker trips, how long it stays tripped, and what the end of
-- a pause leaves behind.
use cto_test_ai_trading_bot.Prelude.{ℕ, ◌+◌, ◌≤◌, ◌<◌, ◌≡◌, ◌⊎◌, true, false, ◌||◌, arith}
use cto_test_ai_trading_bot.Prelude.Number.{
  Number, IsOrdered, IsLe, ◌⊕◌, ◌≼◌, zero_num, absolute, smaller,
}
use cto_test_ai_trading_bot.RiskBreaker.{RiskBreaker, record_pnl, tripped, drawdown}

module _ {A : Type 0} ⦃num : Number A⦄ where
  -- A closed trade trips the breaker exactly if the accumulated loss or the drawdown from the peak
  -- reaches its limit; else the flag is what it was. The peak is the greater of the old peak and
  -- the equity.
  pub record_pnl_trips :
      IsOrdered num
      → (pnl equity : A) (now : ℕ) (b : RiskBreaker A)
      → let b' = record_pnl pnl equity now b in
        (b'.is_tripped ≡ (
          b.is_tripped
          || (b.max_daily_loss ≼ absolute b'.daily_loss)
          || (b.max_drawdown ≼ drawdown b'.peak_equity equity)))
        × IsLe b.peak_equity b'.peak_equity
        × IsLe equity b'.peak_equity
  unfolding record_pnl
  record_pnl_trips ord pnl equity now b = (
    ground arith,
    ground (arith, ord.lt_irrefl b.peak_equity, ord.lt_asymm b.peak_equity equity),
    ground (arith, ord.lt_irrefl equity),
  )

  -- A tripped breaker stays tripped until its pause has passed, however often it is read, and for
  -- ever if the pause is zero.
  pub tripped_during_pause :
      (now : ℕ) (b : RiskBreaker A)
      → b.is_tripped ≡ true
      → (b.pause_ms ≡ 0) ⊎ (now < b.trip_time + b.pause_ms)
      → tripped now b ≡ (b, true)
  unfolding tripped
  tripped_during_pause now b t during = ground arith

  -- The end of a pause clears the flag and not the accumulated loss: if that had reached its limit,
  -- the next closed trade trips the breaker again, even one without a loss. `plus_zero` is what the
  -- sum of a float and zero is.
  pub retrips_after_pause :
      (plus_zero : (a : A) → a ⊕ zero_num ≡ a)
      → (pnl equity : A) (now later : ℕ) (b : RiskBreaker A) → b.is_tripped ≡ true
      → 0 < b.pause_ms
      → b.trip_time + b.pause_ms ≤ now
      → IsLe b.max_daily_loss (absolute b.daily_loss)
      → IsLe zero_num pnl
      → ((tripped now b).1 ≡ false)
        × ((record_pnl pnl equity later (tripped now b).0).is_tripped ≡ true)
  unfolding tripped record_pnl smaller
  retrips_after_pause plus_zero pnl equity now later b t pause over loss gain =
      (ground arith, ground (arith, plus_zero b.daily_loss))
