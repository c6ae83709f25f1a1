-- ===== src/RiskManager/Sizing.antt =====
-- execution/risk_manager.py: the size that `calculate_position_size` gives.
use cto_test_ai_trading_bot.Prelude.{
  ◌≡◌, ◌⊎◌, true, none, some, arith, Bool-cases, Option-cases, inl, inr,
}
use mathlib.Core.Path.{subst}
use cto_test_ai_trading_bot.Prelude.Number.{
  Number, IsOrdered, IsLe, ◌⊖◌, ◌⊗◌, ◌⊘◌, zero_num, equal, absolute, smaller, larger, divide,
  le-larger_left, smaller-le_right,
}
use cto_test_ai_trading_bot.Position.{TradingSignal}
use cto_test_ai_trading_bot.RiskManager.{
  RiskManager, risk_based, calculate_position_size, base_notional, max_notional,
}

module _ {A : Type 0} ⦃num : Number A⦄ (ord : IsOrdered num) where
  larger-le : (a b c : A) → IsLe a c → IsLe b c → IsLe (larger a b) c
  unfolding larger
  larger-le a b c p q = ground arith

  capped_bounds :
      (x cap size : A)
      → IsLe zero_num cap
      → larger zero_num (smaller x cap) ≡ size
      → IsLe zero_num size × IsLe size cap
  capped_bounds x cap size h e =
      subst (λ z. IsLe zero_num z × IsLe z cap) e
        (
          le-larger_left ord zero_num (smaller x cap),
          larger-le zero_num (smaller x cap) cap h (smaller-le_right ord x cap),
        )

  -- Whatever the method, the price and the stop, a size that is computed is not negative and does
  -- not exceed the cap, max_position_size_pct of the equity times the leverage, if that is not
  -- negative itself.
  pub calculate_position_size_bounds :
      (s : TradingSignal A) (m : RiskManager A) (size : A)
      → IsLe zero_num (max_notional m)
      → calculate_position_size s m ≡ some size
      → IsLe zero_num size × IsLe size (max_notional m)
  unfolding calculate_position_size
  calculate_position_size_bounds s m size cap e =
      let distance = absolute (s.price ⊖ s.stop_loss) in
      let base = base_notional m.config.sizing_method s distance m in
      elim (Bool-cases (equal distance zero_num)) [
        | inl touching ↦
            let e' : zero_num ≡ size = ground arith in
            subst (λ z. IsLe zero_num z × IsLe z (max_notional m)) e' (ord.lt_irrefl zero_num, cap)
        | inr apart ↦ elim (Option-cases base) [
          | inl fails ↦ ground arith
          | inr (x, ends) ↦
              capped_bounds (x ⊗ m.config.leverage) (max_notional m) size cap (ground arith)
        ]
      ]

-- The computation raises only for the risk-based method, and then the price is zero, or the stop
-- distance relative to the price is.
pub calculate_position_size_raises :
    {A : Type 0} ⦃num : Number A⦄ (s : TradingSignal A) (m : RiskManager A)
    → calculate_position_size s m ≡ none
    → (m.config.sizing_method ≡ risk_based)
      × ((equal s.price zero_num ≡ true)
          ⊎ (equal (absolute (s.price ⊖ s.stop_loss) ⊘ s.price) zero_num ≡ true))
unfolding calculate_position_size base_notional divide
calculate_position_size_raises s m e = (ground arith, ground arith)
