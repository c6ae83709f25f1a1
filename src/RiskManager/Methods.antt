-- ===== src/RiskManager/Methods.antt =====
-- execution/risk_manager.py: the methods of `RiskManager` that open, close and watch positions.
-- `size` and prices are floats; a raised ZeroDivisionError is a result, beside the state that the
-- method had reached.
use cto_test_ai_trading_bot.Prelude.{
  ℕ, ◌/◌, String, Bool, true, false, Option, none, some, List, [], ◌∷◌, map, ◌&&◌, ◌||◌, not,
  if◌then◌else◌, push_bounded,
}
use cto_test_ai_trading_bot.Prelude.Dict.{lookup, insert, erase, values}
use cto_test_ai_trading_bot.Prelude.Number.{
  Number, ◌⊕◌, ◌⊖◌, ◌⊗◌, ◌⊘◌, ◌≺◌, ◌≼◌, zero_num, ratio, absolute, smaller, larger, total,
}
use cto_test_ai_trading_bot.RiskBreaker.{record_pnl}
use cto_test_ai_trading_bot.Position.{
  TradingSignal, Position, is_long, try_update_price, manage_position,
}
use cto_test_ai_trading_bot.RiskManager.{RiskManager, position_key}

-- What `close_position` returns, or that it raises
pub data Closing (A : Type 0) : Type 0 where
  absent : Closing A
  closed : Position A → Closing A
  raised : Closing A

-- The events that `update_prices` publishes: STOP_LOSS with its reason, and TAKE_PROFIT
pub data StopReason : Type 0 where
  time_exit trailing_stop stop_loss : StopReason

pub data Event (A : Type 0) : Type 0 where
  stop_loss_event : (exchange symbol : String) → (price : A) → (reason : StopReason) → Event A
  take_profit_event : (exchange symbol : String) → (price : A) → Event A

module _ {A : Type 0} ⦃num : Number A⦄ where
  unfoldable pub compute_atr_stops : TradingSignal A → RiskManager A → A × A
  compute_atr_stops s m =
      let atr = if zero_num ≺ s.atr then s.atr else s.price ⊗ ratio 1 100 in
      let distance = atr ⊗ m.config.atr_sl_multiplier in
      let long = is_long s.direction in
      let sl = if long then s.price ⊖ distance else s.price ⊕ distance in
      let tp =
        if long
        then s.price ⊕ distance ⊗ m.config.rr_ratio
        else s.price ⊖ distance ⊗ m.config.rr_ratio in
      let fallback = m.config.stop_loss_pct in
      (
        if long
            then smaller sl (s.price ⊗ (ratio 1 1 ⊖ fallback))
            else larger sl (s.price ⊗ (ratio 1 1 ⊕ fallback)),
        tp,
      )

  -- the position that `open_position` makes
  unfoldable pub new_position : TradingSignal A → A → ℕ → RiskManager A → Position A
  unfolding compute_atr_stops
  new_position s size now m =
      let (sl, tp) = compute_atr_stops s m in
      record {
        exchange = s.exchange;
        symbol = s.symbol;
        direction = s.direction;
        size = if zero_num ≺ s.price then size ⊘ s.price else zero_num;
        entry_price = s.price;
        current_price = s.price;
        stop_loss = sl;
        take_profit = tp;
        open_time = now / 1000;
        pnl = zero_num;
        pnl_pct = zero_num;
        trailing_active = false;
        trailing_stop = zero_num;
        breakeven_moved = false;
        highest_since_entry = s.price;
        lowest_since_entry = s.price;
      }

  unfoldable pub open_position : TradingSignal A → A → ℕ → RiskManager A → RiskManager A
  unfolding new_position
  open_position s size now m = record m {
    positions = insert (position_key s.exchange s.symbol) (new_position s size now m) m.positions;
    last_trade_time = insert s.symbol now m.last_trade_time;
  }

  unfoldable pub record_return : A → RiskManager A → RiskManager A
  record_return pnl_pct m = record m {
    return_history = push_bounded m.config.returns_window pnl_pct m.return_history;
  }

  -- `close_position` for the position that was popped, with its price updated
  unfoldable pub settle : String → Position A → ℕ → RiskManager A → RiskManager A
  unfolding record_return
  settle symbol p now m =
      let m1 = record_return p.pnl_pct (record m { equity = m.equity ⊕ p.pnl }) in
      record m1 {
        circuit_breaker = record_pnl p.pnl_pct m1.equity now m1.circuit_breaker;
        last_trade_time = insert symbol now m1.last_trade_time;
      }

  unfoldable pub close_position :
      String → String → A → ℕ → RiskManager A → RiskManager A × Closing A
  close_position exchange symbol exit_price now m =
      let key = position_key exchange symbol in
      let m' = record m { positions = erase key m.positions } in
      elim (lookup key m.positions) [
        | none ↦ (m, absent)
        | some p ↦
            let (p', raises) = try_update_price exit_price p in
            if raises then (m', raised) else (settle symbol p' now m', closed p')
      ]

  -- a round of the loop below, for what `close_position` returned and what the other rounds give
  unfoldable pub after_closing :
      Closing A
      → RiskManager A
      → RiskManager A × List (Position A) × Bool
      → RiskManager A × List (Position A) × Bool
  after_closing absent m rest = rest
  after_closing (closed p) m (m', ps, done) = (m', p ∷ ps, done)
  after_closing raised m rest = (m, [], false)

  -- the loop of `activate_kill_switch`; the flag says that it ended without an exception
  unfoldable pub close_all :
      List String → ℕ → RiskManager A → RiskManager A × List (Position A) × Bool
  unfolding after_closing
  close_all [] now m = (m, [], true)
  close_all (key ∷ keys) now m = elim (lookup key m.positions) [
    | none ↦ (m, [], false)
    | some p ↦
        let (m', result) = close_position p.exchange p.symbol p.current_price now m in
        after_closing result m' (close_all keys now m')
  ]

  unfoldable pub activate_kill_switch : ℕ → RiskManager A → RiskManager A × List (Position A) × Bool
  unfolding close_all
  activate_kill_switch now m =
      close_all (map (λ e. e.0) m.positions) now (record m { killed = true })

  unfoldable pub deactivate_kill_switch : RiskManager A → RiskManager A
  deactivate_kill_switch m = record m { killed = false }

  unfoldable pub portfolio_notional : RiskManager A → A
  portfolio_notional m = total (map (λ p. absolute (p.size ⊗ p.current_price)) (values m.positions))

  unfoldable pub current_drawdown_pct : RiskManager A → A
  current_drawdown_pct m =
      let peak = m.circuit_breaker.peak_equity in
      if peak ≼ zero_num then zero_num else (peak ⊖ m.equity) ⊘ peak

  -- the event for a position after `manage_position`, if its stop or target is reached
  unfoldable pub exit_event : String → String → Position A → A → Option (Event A)
  exit_event exchange symbol p price =
      let long = is_long p.direction in
      if (long && price ≼ p.stop_loss) || (not long && p.stop_loss ≼ price)
      then some (
          stop_loss_event exchange symbol price
            (if p.trailing_active then trailing_stop else stop_loss))
      else if (long && p.take_profit ≼ price) || (not long && price ≼ p.take_profit)
      then some (take_profit_event exchange symbol price)
      else none

  -- `update_prices`; the flag says that `update_price` raised
  unfoldable pub update_prices :
      String → String → A → ℕ → RiskManager A → RiskManager A × Option (Event A) × Bool
  update_prices exchange symbol price now m =
      let key = position_key exchange symbol in
      elim (lookup key m.positions) [
        | none ↦ (m, none, false)
        | some p ↦
            let (p1, raises) = try_update_price price p in
            let (p2, exits) = manage_position m.config.stop_rules now p1 in
            if raises then (record m { positions = insert key p1 m.positions }, none, true) else (
              record m { positions = insert key p2 m.positions },
              if exits
                  then some (stop_loss_event exchange symbol price time_exit)
                  else exit_event exchange symbol p2 price,
              false,
            )
      ]
