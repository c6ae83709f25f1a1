-- ===== src/RiskBreaker.antt =====
-- execution/risk_manager.py: class `CircuitBreaker`, which trips on losses and pauses trading.
-- Times are milliseconds of the clock; `now - t >= d` is written `t + d <= now`.
pub mod Trips
mod Tests
use cto_test_ai_trading_bot.Prelude.{ℕ, ◌+◌, Bool, true, false, ◌&&◌, leb, ltb, if◌then◌else◌}
use cto_test_ai_trading_bot.Prelude.Number.{
  Number, ◌⊕◌, ◌⊖◌, ◌⊘◌, ◌≺◌, ◌≼◌, zero_num, absolute, smaller,
}

-- The texts of `_trip_reason`; `no_reason` is the empty text
pub data TripReason (A : Type 0) : Type 0 where
  no_reason : TripReason A
  daily_loss_reached : A → TripReason A
  drawdown_reached : A → TripReason A

pub record RiskBreaker (A : Type 0) : Type 0 where
  pub max_daily_loss : A
  pub max_drawdown : A
  pub pause_ms : ℕ
  pub daily_loss : A
  pub peak_equity : A
  pub is_tripped : Bool
  pub trip_reason : TripReason A
  pub trip_time : ℕ

module _ {A : Type 0} ⦃num : Number A⦄ where
  unfoldable pub init : A → A → ℕ → RiskBreaker A
  init max_daily_loss max_drawdown pause = record {
    max_daily_loss = max_daily_loss;
    max_drawdown = max_drawdown;
    pause_ms = pause;
    daily_loss = zero_num;
    peak_equity = zero_num;
    is_tripped = false;
    trip_reason = no_reason;
    trip_time = 0;
  }

  unfoldable pub reset_daily : RiskBreaker A → RiskBreaker A
  reset_daily b = record b { daily_loss = zero_num }

  -- the drawdown from the peak, as `record_pnl` computes it
  unfoldable pub drawdown : A → A → A
  drawdown peak equity = if zero_num ≺ peak then (peak ⊖ equity) ⊘ peak else zero_num

  -- `record_pnl`, whose result is the flag `_tripped` of the new state
  unfoldable pub record_pnl : A → A → ℕ → RiskBreaker A → RiskBreaker A
  unfolding drawdown
  record_pnl pnl_pct equity now b =
      let loss = b.daily_loss ⊕ smaller zero_num pnl_pct in
      let peak = if b.peak_equity ≺ equity then equity else b.peak_equity in
      let down = drawdown peak equity in
      let b1 = record b { daily_loss = loss; peak_equity = peak } in
      let b2 =
        if b.max_daily_loss ≼ absolute loss
        then record b1 { is_tripped = true; trip_reason = daily_loss_reached loss; trip_time = now }
        else b1 in
      if b.max_drawdown ≼ down
      then record b2 { is_tripped = true; trip_reason = drawdown_reached down; trip_time = now }
      else b2

  -- the property `tripped`: reading it ends a pause that is over
  unfoldable pub tripped : ℕ → RiskBreaker A → RiskBreaker A × Bool
  tripped now b =
      if b.is_tripped && ltb 0 b.pause_ms && leb (b.trip_time + b.pause_ms) now
      then (record b { is_tripped = false; trip_reason = no_reason }, false)
      else (b, b.is_tripped)

  unfoldable pub reset : RiskBreaker A → RiskBreaker A
  reset b = record b { is_tripped = false; trip_reason = no_reason; daily_loss = zero_num }
