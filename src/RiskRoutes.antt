-- ===== src/RiskRoutes.antt =====
-- interface/routes/risk.py: the handlers of the risk API, over the risk manager. The state is the
-- attached manager, if there is one. `stop_loss_pct`, or `sl_pct`, and `tp_pct` are the values of the
-- configuration; `percentile`, `mean` and `percent` are as in RiskManager.Reports.
pub mod Reading
pub mod Limits
pub mod Exposure
mod Tests
use cto_test_ai_trading_bot.Prelude.{
  leb, ℕ, ◌+◌, String, Bool, true, false, not, Option, none, some, List, [], ◌∷◌, map, ◌||◌,
  if◌then◌else◌, length, keep, str_eq, is_some,
}
use cto_test_ai_trading_bot.Prelude.Dict.{Dict, lookup, values}
use cto_test_ai_trading_bot.Prelude.Text.{text_ltb}
use cto_test_ai_trading_bot.Prelude.Number.{
  Number, ◌⊕◌, ◌⊖◌, ◌⊗◌, ◌⊘◌, ◌≺◌, ◌≼◌, ratio, zero_num, negate, absolute, larger, smaller, total,
}
use cto_test_ai_trading_bot.RiskBreaker.{TripReason, tripped, reset}
use cto_test_ai_trading_bot.Position.{TradingSignal, Position}
use cto_test_ai_trading_bot.RiskManager.{
  RiskManager, RejectReason, Decision, approved, rejected, raised, approve_signal, position_key,
}
use cto_test_ai_trading_bot.RiskManager.Methods.{portfolio_notional}
use cto_test_ai_trading_bot.RiskManager.Reports as Reports
use cto_test_ai_trading_bot.Http as Http
use cto_test_ai_trading_bot.Http.{ok, http_error, threw, as_internal, require, narrow, tally}

-- the `detail` of an HTTP error; `crashed` is the text of another exception
pub data Detail : Type 0 where
  risk_manager_unavailable position_not_found crashed invalid_request : Detail

abbrev pub Response : Type 0 → Type 0
Response = Http.Response Detail

-- `_require_risk_manager`, before what the handler does with the manager
abbrev pub with_manager : {M B : Type 0} → (M → M × Response B) → Option M → Option M × Response B
with_manager = require risk_manager_unavailable

-- the handler's `except Exception`, which catches the 503 as well
abbrev pub internal : {M B : Type 0} → Option M × Response B → Option M × Response B
internal (m, reply) = (m, as_internal reply)

pub record RiskLimits (A : Type 0) : Type 0 where
  pub max_position_value : A
  pub max_order_size : A
  pub max_orders_per_sec : ℕ
  pub max_concentration : A
  pub leverage_limit : A
  pub stop_loss_pct : A

pub record MarginInfo (A : Type 0) : Type 0 where
  pub account_balance : A
  pub margin_available : A
  pub margin_used : A
  pub total_exposure : A
  pub leverage_used : A
  pub health_score : A

-- `reason` is `none` for an approved signal
pub record RiskCheck (A : Type 0) : Type 0 where
  pub passed : Bool
  pub reason : Option (RejectReason A)
  pub margin_required : A
  pub exposure_after : A

pub record ExposureBreakdown (A : Type 0) : Type 0 where
  pub total_exposure : A
  pub by_symbol : Dict A
  pub by_venue : Dict A
  pub by_side : Dict A

module _ {A : Type 0} ⦃num : Number A⦄ where
  abbrev pub one : A
  one = ratio 1 1

  abbrev pub exposure : Position A → A
  exposure p = absolute (p.size ⊗ p.current_price)

  -- the constraints of the fields of `RiskLimits`
  unfoldable pub is_accepted : RiskLimits A → Bool
  is_accepted l = not (
      l.max_position_value ≼ zero_num
      || l.max_order_size ≼ zero_num
      || leb l.max_orders_per_sec 0
      || l.max_concentration ≺ zero_num
      || one ≺ l.max_concentration
      || l.leverage_limit ≼ zero_num
      || l.stop_loss_pct ≺ zero_num
      || one ≺ l.stop_loss_pct)

  unfoldable pub apply_limits : RiskLimits A → RiskManager A → RiskManager A
  apply_limits l m =
      let leverage = larger (ratio 1 10) l.leverage_limit in
      let pct = smaller one (larger (ratio 1 10_000) (l.max_position_value ⊘ m.equity)) in
      if zero_num ≺ m.equity
      then record m { config = record m.config { leverage = leverage; max_position_pct = pct } }
      else record m { config = record m.config { leverage = leverage } }

  unfoldable pub set_risk_limits :
      RiskLimits A → Option (RiskManager A) → Option (RiskManager A) × Response (RiskLimits A)
  unfolding is_accepted apply_limits
  set_risk_limits l manager =
      if is_accepted l
      then internal (with_manager (λ m. (apply_limits l m, ok l)) manager)
      else (manager, http_error 422 invalid_request)

  -- the signal that `check_risk` makes; `side` is "buy" or "sell"
  unfoldable pub check_signal : String → Bool → A → A → A → TradingSignal A
  check_signal symbol is_buy price sl_pct tp_pct = record {
    exchange = "api";
    symbol = symbol;
    direction = if is_buy then "long" else "short";
    score = ratio 8 10;
    price = price;
    atr = price ⊗ ratio 1 100;
    stop_loss = if is_buy then price ⊗ (one ⊖ sl_pct) else price ⊗ (one ⊕ sl_pct);
    take_profit = if is_buy then price ⊗ (one ⊕ tp_pct) else price ⊗ (one ⊖ tp_pct);
    spread_bps = zero_num;
  }

  unfoldable pub check_result : RiskManager A → Decision A → Response (RiskCheck A)
  check_result m (approved size) = ok (record {
    passed = true;
    reason = none;
    margin_required = size ⊘ larger one m.config.leverage;
    exposure_after = portfolio_notional m ⊕ size;
  })
  check_result m (rejected why) = ok (record {
    passed = false;
    reason = some why;
    margin_required = zero_num ⊘ larger one m.config.leverage;
    exposure_after = portfolio_notional m ⊕ zero_num;
  })
  check_result m raised = threw crashed

  unfoldable pub get_exposure_breakdown :
      Option (RiskManager A) → Option (RiskManager A) × Response (ExposureBreakdown A)
  get_exposure_breakdown manager = internal (
      with_manager
        (λ m.
          let by_symbol = tally (λ p. p.symbol) exposure (values m.positions) [] in
          (
            m,
            ok (record {
              total_exposure = total (values by_symbol);
              by_symbol = by_symbol;
              by_venue = tally (λ p. p.exchange) exposure (values m.positions) [];
              by_side =
                  tally (λ p. p.direction) exposure (values m.positions)
                    (("long", zero_num) ∷ ("short", zero_num) ∷ []);
            }),
          ))
        manager)
  -- the state is "OPEN" if the flag holds; the reading may end the pause of the breaker
