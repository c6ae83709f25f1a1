-- ===== src/RiskManager/Watching.antt =====
-- execution/risk_manager.py: `update_prices` watches the stop and the target of a position.
use cto_test_ai_trading_bot.Prelude.{
  ℕ, ◌≡◌, refl, String, Bool, true, false, none, some, arith, if◌then◌else◌,
}
use cto_test_ai_trading_bot.Prelude.Dict.{lookup, lookup-insert_self}
use cto_test_ai_trading_bot.Prelude.Number.{Number, IsLt, zero_num, equal}
use cto_test_ai_trading_bot.Position.{
  Position, StopRules, is_long, update_price, try_update_price, manage_position, move_breakeven,
  trail_stop,
}
use cto_test_ai_trading_bot.RiskManager.{RiskManager, position_key}
use cto_test_ai_trading_bot.RiskManager.Methods.{
  stop_loss_event, time_exit, exit_event, update_prices,
}

module _ {A : Type 0} ⦃num : Number A⦄ where
  -- the price lies between the stop and the target, for a long position or a short one
  abbrev pub IsWithin : Bool → Position A → A → Type 0
  IsWithin true p price = IsLt p.stop_loss price × IsLt price p.take_profit
  IsWithin false p price = IsLt price p.stop_loss × IsLt p.take_profit price

  exit_event-none :
      (exchange symbol : String) (p : Position A) (price : A) (long : Bool)
      → is_long p.direction ≡ long
      → exit_event exchange symbol p price ≡ none
      → IsWithin long p price
  unfolding exit_event
  exit_event-none exchange symbol p price true e h = (ground arith, ground arith)
  exit_event-none exchange symbol p price false e h = (ground arith, ground arith)

  current_price-manage_position :
      (rules : StopRules A) (now : ℕ) (p : Position A)
      → (manage_position rules now p).0.current_price ≡ p.current_price
  unfolding manage_position move_breakeven trail_stop
  current_price-manage_position rules now p = ground arith

  -- If `update_prices` publishes nothing for the price of an open position whose entry price is not
  -- zero, then the position is still there with that price, and the price has reached neither its
  -- stop, as it is after the breakeven move and the trailing of this call, nor its target.
  pub update_prices-quiet :
      (exchange symbol : String) (price : A) (now : ℕ) (p : Position A) (m : RiskManager A)
      → lookup (position_key exchange symbol) m.positions ≡ some p
      → equal p.entry_price zero_num ≡ false
      → (update_prices exchange symbol price now m).1 ≡ none
      → let m' = (update_prices exchange symbol price now m).0 in
        (p' : Position A) × (lookup (position_key exchange symbol) m'.positions ≡ some p')
        × (p'.current_price ≡ price)
        × IsWithin (is_long p'.direction) p' price
  unfolding update_prices try_update_price update_price
  update_prices-quiet exchange symbol price now p m found entry quiet =
      let key = position_key exchange symbol in
      let p1 = update_price price p in
      let managed = manage_position m.config.stop_rules now p1 in
      let p2 = managed.0 in
      let says : (update_prices exchange symbol price now m).1 ≡ (
          if managed.1
          then some (stop_loss_event exchange symbol price time_exit)
          else exit_event exchange symbol p2 price) =
        rw (update_prices, found, entry) in
      (
        p2,
        rw (update_prices, found, entry) (lookup-insert_self key p2 m.positions),
        current_price-manage_position m.config.stop_rules now p1,
        exit_event-none exchange symbol p2 price (is_long p2.direction) refl (ground (arith, says)),
      )
