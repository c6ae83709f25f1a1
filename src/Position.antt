-- ===== src/Position.antt =====
-- execution/risk_manager.py: class `Position`, the trading signal (engine/signal_generator.py) and
-- `manage_position`, which moves the stop of a position. `open_time` is in whole seconds, the clock
-- `now` in milliseconds.
pub mod Stops
mod Tests
use cto_test_ai_trading_bot.Prelude.{
  ℕ, ◌+◌, ◌-◌, ◌*◌, ◌/◌, String, Bool, true, false, Option, none, some, ◌&&◌, not, leb, ltb,
  if◌then◌else◌, str_eq,
}
use cto_test_ai_trading_bot.Prelude.Number.{
  Number, ◌⊕◌, ◌⊖◌, ◌⊗◌, ◌⊘◌, ◌≺◌, ◌≼◌, zero_num, ratio, equal,
}

-- The fields of `TradingSignal` that the risk manager reads; `spread_bps` is the metadata entry,
-- 0.0 if it is missing.
pub record TradingSignal (A : Type 0) : Type 0 where
  pub exchange : String
  pub symbol : String
  pub direction : String
  pub score : A
  pub price : A
  pub atr : A
  pub stop_loss : A
  pub take_profit : A
  pub spread_bps : A

pub record Position (A : Type 0) : Type 0 where
  pub exchange : String
  pub symbol : String
  pub direction : String
  pub size : A
  pub entry_price : A
  pub current_price : A
  pub stop_loss : A
  pub take_profit : A
  pub open_time : ℕ
  pub pnl : A
  pub pnl_pct : A
  pub trailing_active : Bool
  pub trailing_stop : A
  pub breakeven_moved : Bool
  pub highest_since_entry : A
  pub lowest_since_entry : A

-- the property `is_long` of both
unfoldable pub is_long : String → Bool
is_long direction = str_eq direction "long"

-- the thresholds of `manage_position`
pub record StopRules (A : Type 0) : Type 0 where
  pub breakeven_trigger_atr : A
  pub trailing_activation_atr : A
  pub trailing_distance_atr : A
  pub max_hold_minutes : ℕ

module _ {A : Type 0} ⦃num : Number A⦄ where
  unfoldable pub risk_reward : TradingSignal A → A
  risk_reward s =
      let risk = if is_long s.direction then s.price ⊖ s.stop_loss else s.stop_loss ⊖ s.price in
      let reward =
        if is_long s.direction then s.take_profit ⊖ s.price else s.price ⊖ s.take_profit in
      if zero_num ≺ risk then reward ⊘ risk else zero_num

  -- `update_price` for an entry price that is not zero
  unfoldable pub update_price : A → Position A → Position A
  update_price price p =
      let long = is_long p.direction in
      let pct = (if long then price ⊖ p.entry_price else p.entry_price ⊖ price) ⊘ p.entry_price in
      record p {
        current_price = price;
        pnl_pct = pct;
        highest_since_entry =
            if long && p.highest_since_entry ≺ price then price else p.highest_since_entry;
        lowest_since_entry =
            if not long && price ≺ p.lowest_since_entry then price else p.lowest_since_entry;
        pnl = pct ⊗ p.size ⊗ p.entry_price;
      }

  -- `update_price`; it raises ZeroDivisionError (`true`) after it has set the current price
  unfoldable pub try_update_price : A → Position A → Position A × Bool
  unfolding update_price
  try_update_price price p =
      if equal p.entry_price zero_num
      then (record p { current_price = price }, true)
      else (update_price price p, false)

  unfoldable pub hold_seconds : ℕ → Position A → ℕ
  hold_seconds now p = now / 1000 - p.open_time

  -- the fallback range that `manage_position` computes with
  unfoldable pub atr_of : Position A → A
  atr_of p = p.entry_price ⊗ ratio 1 100

  unfoldable pub profit_in_atr : Position A → A
  unfolding atr_of
  profit_in_atr p =
      let gain =
        if is_long p.direction
        then p.current_price ⊖ p.entry_price
        else p.entry_price ⊖ p.current_price in
      if zero_num ≺ atr_of p then gain ⊘ atr_of p else zero_num

  -- the block "Breakeven move"
  unfoldable pub move_breakeven : StopRules A → A → Position A → Position A
  move_breakeven rules profit p =
      if not p.breakeven_moved && rules.breakeven_trigger_atr ≼ profit
      then record p { stop_loss = p.entry_price; breakeven_moved = true }
      else p

  -- the block "Trailing stop activation"
  unfoldable pub trail_stop : StopRules A → A → Position A → Position A
  unfolding atr_of
  trail_stop rules profit p =
      let distance = atr_of p ⊗ rules.trailing_distance_atr in
      let long = is_long p.direction in
      let trail =
        if long then p.highest_since_entry ⊖ distance else p.lowest_since_entry ⊕ distance in
      let better = if long then p.stop_loss ≺ trail else trail ≺ p.stop_loss in
      if rules.trailing_activation_atr ≼ profit
      then record p {
        trailing_active = true;
        stop_loss = if better then trail else p.stop_loss;
        trailing_stop = if better then trail else p.trailing_stop;
      }
      else p

  -- `manage_position`; `true` is the exit reason "time_exit"
  unfoldable pub manage_position : StopRules A → ℕ → Position A → Position A × Bool
  manage_position rules now p =
      if ltb 0 rules.max_hold_minutes && leb (rules.max_hold_minutes * 60) (hold_seconds now p)
      then (p, true)
      else let profit = profit_in_atr p in
        (trail_stop rules profit (move_breakeven rules profit p), false)
