-- ===== src/RiskRoutes/Limits.antt =====
-- interface/routes/risk.py: what the limits that a client sets do, and what it reads back.
use cto_test_ai_trading_bot.Prelude.{◌≡◌, refl, sym, ap, ◌∙◌, some, arith}
use mathlib.Core.Path.{subst}
use cto_test_ai_trading_bot.Prelude.Number.{
  Number, IsOrdered, IsLe, IsLt, ◌⊗◌, ◌⊘◌, ratio, zero_num, smaller, larger,
}
use cto_test_ai_trading_bot.Position.{TradingSignal}
use cto_test_ai_trading_bot.RiskManager.{RiskManager, calculate_position_size, max_notional}
use cto_test_ai_trading_bot.RiskManager.Sizing.{calculate_position_size_bounds}
use cto_test_ai_trading_bot.Http.{ok, as_internal, require}
use cto_test_ai_trading_bot.RiskRoutes.{RiskLimits, one, apply_limits, set_risk_limits}

module _ {A : Type 0} ⦃num : Number A⦄ where
  -- the position value that the limits come to: the share of the equity is clamped, and then the
  -- leverage multiplies it
  abbrev pub effective_value : RiskLimits A → A → A
  effective_value l equity =
      equity
      ⊗ smaller one (larger (ratio 1 10_000) (l.max_position_value ⊘ equity))
      ⊗ larger (ratio 1 10) l.leverage_limit

  max_notional-apply_limits :
      (l : RiskLimits A) (m : RiskManager A)
      → IsLt zero_num m.equity
      → max_notional (apply_limits l m) ≡ effective_value l m.equity
  unfolding apply_limits max_notional
  max_notional-apply_limits l m funded = rw funded refl

  -- The limits bind the sizing. If they are accepted by the handler of a manager with an equity above
  -- zero, then a size that the manager afterwards computes for a signal is not negative and at most the
  -- maximum position value, as a share of the equity that is at least 0.0001 and at most 1, times the
  -- equity and the leverage, which is at least 0.1. This bound must not be negative, and no number that
  -- is compared may be NaN.
  pub set_risk_limits_bounds :
      IsOrdered num
      → (s : TradingSignal A) (l : RiskLimits A) (m m' : RiskManager A) (size : A)
      → IsLt zero_num m.equity
      → IsLe zero_num (effective_value l m.equity)
      → set_risk_limits l (some m) ≡ (some m', ok l)
      → calculate_position_size s m' ≡ some size
      → IsLe zero_num size × IsLe size (effective_value l m.equity)
  unfolding set_risk_limits require as_internal
  set_risk_limits_bounds ord s l m m' size funded positive set computed =
      let cap = max_notional-apply_limits l m funded in
      let same : apply_limits l m ≡ m' = ground arith in
      let bounds =
        calculate_position_size_bounds ord s (apply_limits l m) size
          (subst (IsLe zero_num) (sym cap) positive)
          (ap (calculate_position_size s) same ∙ computed) in
      subst (λ c. IsLe zero_num size × IsLe size c) cap bounds
