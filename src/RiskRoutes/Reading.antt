-- ===== src/RiskRoutes/Reading.antt =====
-- interface/routes/risk.py: the circuit breaker, margins, limits, and stress tests.
use cto_test_ai_trading_bot.Prelude.{ℕ, String, Bool, Option, List, [], ◌∷◌, if◌then◌else◌, str_eq}
use cto_test_ai_trading_bot.Prelude.Number.{
  Number, ◌⊖◌, ◌⊗◌, ◌⊘◌, ratio, zero_num, negate, larger, smaller,
}
use cto_test_ai_trading_bot.RiskBreaker.{TripReason, tripped, reset}
use cto_test_ai_trading_bot.RiskManager.{RiskManager, approve_signal}
use cto_test_ai_trading_bot.RiskManager.Reports as Reports
use cto_test_ai_trading_bot.Http.{ok, threw}
use cto_test_ai_trading_bot.RiskRoutes.{
  Response, with_manager, internal, RiskLimits, MarginInfo, RiskCheck, one, is_accepted, crashed,
  check_signal, check_result,
}

module _ {A : Type 0} ⦃num : Number A⦄ where
  unfoldable pub get_circuit_breaker_status :
      ℕ → Option (RiskManager A) → Option (RiskManager A) × Response (Bool × TripReason A)
  get_circuit_breaker_status now manager = internal (
      with_manager
        (λ m.
          let (breaker, is_tripped) = tripped now m.circuit_breaker in
          (record m { circuit_breaker = breaker }, ok (is_tripped, breaker.trip_reason)))
        manager)

  unfoldable pub reset_circuit_breaker :
      String → Option (RiskManager A) → Option (RiskManager A) × Response String
  reset_circuit_breaker venue manager = internal (
      with_manager (λ m. (record m { circuit_breaker = reset m.circuit_breaker }, ok venue))
        manager)

  -- the shocks of a scenario
  unfoldable pub shocks_of : String → List A
  shocks_of scenario =
      if str_eq scenario "flash_crash"
      then negate (ratio 20 100) ∷ []
      else if str_eq scenario "liquidity_crisis"
      then negate (ratio 10 100) ∷ []
      else if str_eq scenario "correlation_breakdown"
      then negate (ratio 15 100) ∷ []
      else if str_eq scenario "extreme_volatility"
      then negate (ratio 5 100) ∷ negate (ratio 10 100) ∷ negate (ratio 20 100) ∷ []
      else negate (ratio 10 100) ∷ []

  module _ (percentile : List A → A → A) where
    unfoldable pub check_risk :
        String
        → Bool
        → A
        → A
        → A
        → ℕ
        → ℕ
        → Option (RiskManager A)
        → Option (RiskManager A) × Response (RiskCheck A)
    unfolding check_signal check_result
    check_risk symbol is_buy price sl_pct tp_pct now minutes manager = internal (
        with_manager
          (λ m.
            let (m', decision) =
              approve_signal percentile (check_signal symbol is_buy price sl_pct tp_pct) now minutes
                m in
            (m', check_result m' decision))
          manager)

    module _ (mean : List A → A) (percent : A → ℕ) where
      -- `snap["var_95"]` is read for the health score
      unfoldable pub get_margin_info :
          ℕ → Option (RiskManager A) → Option (RiskManager A) × Response (MarginInfo A)
      get_margin_info now manager = internal (
          with_manager
            (λ m.
              let (m', snap) = Reports.get_risk_snapshot percentile mean percent now m in
              let used = snap.notional ⊘ larger one m.config.leverage in
              (
                m',
                ok (record {
                  account_balance = snap.equity;
                  margin_available = larger zero_num (snap.equity ⊖ used);
                  margin_used = used;
                  total_exposure = snap.notional;
                  leverage_used = snap.notional ⊘ larger one snap.equity;
                  health_score = larger zero_num (smaller one (one ⊖ snap.tail_risk.var_95));
                }),
              ))
            manager)

      unfoldable pub get_risk_limits :
          A → ℕ → Option (RiskManager A) → Option (RiskManager A) × Response (RiskLimits A)
      get_risk_limits stop_loss_pct now manager = internal (
          with_manager
            (λ m.
              let (m', snap) = Reports.get_risk_snapshot percentile mean percent now m in
              let value = snap.equity ⊗ m.config.max_position_pct ⊗ m.config.leverage in
              let limits : RiskLimits A = record {
                max_position_value = larger one value;
                max_order_size = larger one value;
                max_orders_per_sec = 100;
                max_concentration = ratio 3 10;
                leverage_limit = m.config.leverage;
                stop_loss_pct = stop_loss_pct;
              } in
              (m', if is_accepted limits then ok limits else threw crashed))
            manager)

      unfoldable pub run_stress_test :
          String
          → Option (RiskManager A)
          → Option (RiskManager A) × Response (Reports.StressReport A)
      unfolding shocks_of
      run_stress_test scenario manager = internal (
          with_manager
            (λ m. (
              m,
              ok (
                  Reports.run_stress_test percentile mean percent (shocks_of scenario) (ratio 3 2)
                    m),
            ))
            manager)
