-- ===== src/RiskManager.antt =====
-- execution/risk_manager.py: class `RiskManager`, its configuration and state, position sizing and
-- the gates of `approve_signal`. `percentile` is `np.percentile`. The clock is in milliseconds;
-- `minutes` is the time of day in UTC that `time.gmtime()` gives.
pub mod Methods
pub mod Reports
pub mod Approval
pub mod Sizing
pub mod Positions
pub mod Watching
pub mod KillSwitch
pub mod Trading
pub mod Examples
mod Tests
use cto_test_ai_trading_bot.Prelude.{
  ℕ, ◌+◌, ◌*◌, String, Bool, true, false, Option, none, some, List, [], ◌∷◌, ◌&&◌, ◌||◌, not, leb,
  ltb, ◌==◌, if◌then◌else◌, length, ◌>>=◌, is_some, str_append,
}
use cto_test_ai_trading_bot.Prelude.Dict.{Dict, lookup, contains}
use cto_test_ai_trading_bot.Prelude.Number.{
  Number, ◌⊕◌, ◌⊖◌, ◌⊗◌, ◌⊘◌, ◌≺◌, ◌≼◌, zero_num, ratio, equal, absolute, smaller, larger, divide,
}
use cto_test_ai_trading_bot.RiskBreaker.{RiskBreaker, TripReason, tripped}
use cto_test_ai_trading_bot.Position.{TradingSignal, Position, StopRules, risk_reward}

pub data SizingMethod : Type 0 where
  risk_based fixed_fraction : SizingMethod

pub record RiskConfig (A : Type 0) : Type 0 where
  pub max_position_pct : A
  pub risk_per_trade : A
  pub sizing_method : SizingMethod
  pub max_open : ℕ
  pub leverage : A
  pub max_spread_bps : A
  pub max_atr_pct : A
  pub max_exposure_per_symbol : A
  pub cooldown_ms : ℕ
  -- the session times in minutes of the day, from the texts "HH:MM"
  pub session_start : ℕ
  pub session_end : ℕ
  pub atr_sl_multiplier : A
  pub rr_ratio : A
  pub stop_loss_pct : A
  pub stop_rules : StopRules A
  pub max_portfolio_var_pct : A
  pub returns_window : ℕ
  pub var_min_history : ℕ

pub record RiskManager (A : Type 0) : Type 0 where
  pub config : RiskConfig A
  pub positions : Dict (Position A)
  pub equity : A
  pub return_history : List A
  pub last_trade_time : Dict ℕ
  pub killed : Bool
  pub circuit_breaker : RiskBreaker A

-- the key of a position, f"{exchange}:{symbol}"
unfoldable pub position_key : String → String → String
position_key exchange symbol = str_append exchange (str_append ":" symbol)

-- the reason texts of `approve_signal`
pub data RejectReason (A : Type 0) : Type 0 where
  kill_switch_active already_in_position max_positions_reached score_too_low poor_risk_reward :
      RejectReason A
  outside_session cooldown spread_too_wide volatility_too_high position_size_zero : RejectReason A
  symbol_exposure_exceeded var_limit_breach : RejectReason A
  circuit_breaker_tripped : TripReason A → RejectReason A

-- How `approve_signal` ends; `raised` is a ZeroDivisionError.
pub data Decision (A : Type 0) : Type 0 where
  approved : A → Decision A
  rejected : RejectReason A → Decision A
  raised : Decision A

module _ {A : Type 0} ⦃num : Number A⦄ where
  -- the cap, `max_notional`
  unfoldable pub max_notional : RiskManager A → A
  max_notional m = m.equity ⊗ m.config.max_position_pct ⊗ m.config.leverage

  -- `notional` before the leverage
  unfoldable pub base_notional : SizingMethod → TradingSignal A → A → RiskManager A → Option A
  base_notional risk_based s risk_distance m = do
    relative ← divide risk_distance s.price
    divide (m.equity ⊗ m.config.risk_per_trade) relative
  base_notional fixed_fraction s risk_distance m = some (m.equity ⊗ m.config.max_position_pct)

  unfoldable pub calculate_position_size : TradingSignal A → RiskManager A → Option A
  calculate_position_size s m =
      let risk_distance = absolute (s.price ⊖ s.stop_loss) in
      if equal risk_distance zero_num then some zero_num else do
        notional ← base_notional m.config.sizing_method s risk_distance m
        some (larger zero_num (smaller (notional ⊗ m.config.leverage) (max_notional m)))

  unfoldable pub check_session_window : ℕ → RiskManager A → Bool
  check_session_window minutes m =
      let start = m.config.session_start in
      let end = m.config.session_end in
      if start == 0 && end == 1439
      then true
      else if leb start end
      then leb start minutes && leb minutes end
      else leb start minutes || leb minutes end

  -- `self._last_trade_time.get(symbol, 0.0)`
  abbrev pub last_trade : String → RiskManager A → ℕ
  last_trade symbol m = elim (lookup symbol m.last_trade_time) [ none ↦ 0 | some t ↦ t ]

  unfoldable pub check_cooldown : String → ℕ → RiskManager A → Bool
  check_cooldown symbol now m = not (ltb now (last_trade symbol m + m.config.cooldown_ms))

  unfoldable pub check_spread : TradingSignal A → RiskManager A → Bool
  check_spread s m = not (zero_num ≺ s.spread_bps && m.config.max_spread_bps ≺ s.spread_bps)

  unfoldable pub check_volatility : TradingSignal A → RiskManager A → Bool
  check_volatility s m =
      if s.price ≼ zero_num then true else not (m.config.max_atr_pct ≺ s.atr ⊘ s.price)

  unfoldable pub check_symbol_exposure : A → RiskManager A → Bool
  check_symbol_exposure size m = not (m.equity ⊗ m.config.max_exposure_per_symbol ≺ size)

  module _ (percentile : List A → A → A) where
    unfoldable pub calculate_historical_var : A → RiskManager A → A
    calculate_historical_var confidence m = elim m.return_history [
      | [] ↦ zero_num
      | x ∷ xs ↦
          larger zero_num (zero_num ⊖ percentile (x ∷ xs) ((ratio 1 1 ⊖ confidence) ⊗ ratio 100 1))
    ]

    -- the block "VaR check"
    unfoldable pub check_var : A → RiskManager A → Bool
    unfolding calculate_historical_var
    check_var size m =
        if leb m.config.var_min_history (length m.return_history) && zero_num ≺ m.equity
        then not (
            m.config.max_portfolio_var_pct
            ≺ calculate_historical_var (ratio 95 100) m ⊕ size ⊘ m.equity)
        else true

    -- the gates that follow the sizing, for the size that it gave
    unfoldable pub approve_size : A → RiskManager A → Decision A
    approve_size size m =
        if size ≼ zero_num
        then rejected position_size_zero
        else if not (check_symbol_exposure size m)
        then rejected symbol_exposure_exceeded
        else if not (check_var size m)
        then rejected var_limit_breach
        else approved size

    -- the gates that follow the reading of the breaker
    unfoldable pub approve_gates : TradingSignal A → ℕ → ℕ → RiskManager A → Decision A
    approve_gates s now minutes m =
        if contains (position_key s.exchange s.symbol) m.positions
        then rejected already_in_position
        else if leb m.config.max_open (length m.positions)
        then rejected max_positions_reached
        else if s.score ≺ ratio 1 2
        then rejected score_too_low
        else if risk_reward s ≺ ratio 3 2
        then rejected poor_risk_reward
        else if not (check_session_window minutes m)
        then rejected outside_session
        else if not (check_cooldown s.symbol now m)
        then rejected cooldown
        else if not (check_spread s m)
        then rejected spread_too_wide
        else if not (check_volatility s m)
        then rejected volatility_too_high
        else elim (calculate_position_size s m) [ none ↦ raised | some size ↦ approve_size size m ]

    -- the result, and the manager whose breaker was read
    unfoldable pub approve_signal :
        TradingSignal A → ℕ → ℕ → RiskManager A → RiskManager A × Decision A
    approve_signal s now minutes m =
        if m.killed
        then (m, rejected kill_switch_active)
        else let (breaker, is_tripped) = tripped now m.circuit_breaker in
          let m' = record m { circuit_breaker = breaker } in
          if is_tripped
          then (m', rejected (circuit_breaker_tripped breaker.trip_reason))
          else (m', approve_gates s now minutes m')
