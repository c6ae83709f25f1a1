-- ===== src/RiskManager/Reports.antt =====
-- execution/risk_manager.py: what `RiskManager` reports of its risk. `percentile` and `mean` are
-- `np.percentile` and the mean of an array, and `percent` is `int(abs(shock) * 100)`, which names a
-- scenario.
use cto_test_ai_trading_bot.Prelude.{ℕ, ◌==◌, Bool, List, [], ◌∷◌, if◌then◌else◌, length, keep}
use cto_test_ai_trading_bot.Prelude.Number.{
  Number, ◌⊖◌, ◌⊗◌, ◌⊘◌, ◌≺◌, ◌≼◌, ratio, zero_num, absolute, larger,
}
use cto_test_ai_trading_bot.RiskBreaker.{TripReason, tripped}
use cto_test_ai_trading_bot.RiskManager.{RiskManager, calculate_historical_var}
use cto_test_ai_trading_bot.RiskManager.Methods.{portfolio_notional, current_drawdown_pct}

pub record Scenario (A : Type 0) : Type 0 where
  pub shock_pct : A
  pub estimated_loss_usd : A
  pub loss_pct_equity : A

-- the values at risk that both reports hold
pub record TailRisk (A : Type 0) : Type 0 where
  pub var_95 : A
  pub var_99 : A
  pub cvar_95 : A
  pub cvar_99 : A

pub record StressReport (A : Type 0) : Type 0 where
  pub notional : A
  pub tail_risk : TailRisk A
  pub scenarios : List (ℕ × Scenario A)
  -- the scenario "correlation_breakdown", whose first entry is the factor
  pub correlation_breakdown : Scenario A
  pub max_portfolio_var_pct : A

pub record RiskSnapshot (A : Type 0) : Type 0 where
  pub equity : A
  pub open_positions : ℕ
  pub notional : A
  pub tail_risk : TailRisk A
  pub return_history_size : ℕ
  pub var_min_history : ℕ
  pub max_portfolio_var_pct : A
  pub circuit_breaker_tripped : Bool
  pub circuit_breaker_reason : TripReason A
  pub kill_switch_active : Bool
  pub drawdown_pct : A

-- `d[n] = x`, for the scenario of a number of per cent
unfoldable pub insert_scenario {ℓ} : {V : Type ℓ} → ℕ → V → List (ℕ × V) → List (ℕ × V)
insert_scenario n x [] = (n, x) ∷ []
insert_scenario n x (e ∷ d) = if e.0 == n then (n, x) ∷ d else e ∷ insert_scenario n x d

module _ {A : Type 0} ⦃num : Number A⦄ (percentile : List A → A → A) (mean : List A → A)
    (percent : A → ℕ) where
  unfoldable pub calculate_cvar : A → RiskManager A → A
  calculate_cvar confidence m = elim m.return_history [
    | [] ↦ zero_num
    | x ∷ xs ↦
        let q = percentile (x ∷ xs) ((ratio 1 1 ⊖ confidence) ⊗ ratio 100 1) in
        let tail = keep (λ y. y ≼ q) (x ∷ xs) in
        if length tail == 0 then zero_num else larger zero_num (zero_num ⊖ mean tail)
  ]

  unfoldable pub tail_risk : RiskManager A → TailRisk A
  unfolding calculate_cvar
  tail_risk m = record {
    var_95 = calculate_historical_var percentile (ratio 95 100) m;
    var_99 = calculate_historical_var percentile (ratio 99 100) m;
    cvar_95 = calculate_cvar (ratio 95 100) m;
    cvar_99 = calculate_cvar (ratio 99 100) m;
  }

  unfoldable pub new_scenario : A → A → RiskManager A → Scenario A
  new_scenario shock loss m = record {
    shock_pct = shock;
    estimated_loss_usd = loss;
    loss_pct_equity = if zero_num ≺ m.equity then loss ⊘ m.equity else zero_num;
  }

  -- the loop over the shocks: the worst loss and the scenarios so far
  unfoldable pub apply_shocks :
      A → RiskManager A → List A → A → List (ℕ × Scenario A) → A × List (ℕ × Scenario A)
  unfolding new_scenario insert_scenario
  apply_shocks notional m [] worst d = (worst, d)
  apply_shocks notional m (shock ∷ shocks) worst d =
      let loss = absolute (notional ⊗ shock) in
      apply_shocks notional m shocks (larger worst loss)
        (insert_scenario (percent shock) (new_scenario shock loss m) d)

  unfoldable pub run_stress_test : List A → A → RiskManager A → StressReport A
  unfolding apply_shocks tail_risk new_scenario
  run_stress_test shocks factor m =
      let notional = portfolio_notional m in
      let (worst, scenarios) = apply_shocks notional m shocks zero_num [] in
      record {
        notional = notional;
        tail_risk = tail_risk m;
        scenarios = scenarios;
        correlation_breakdown = new_scenario factor (worst ⊗ factor) m;
        max_portfolio_var_pct = m.config.max_portfolio_var_pct;
      }

  -- reading `tripped` may end the pause of the breaker
  unfoldable pub get_risk_snapshot : ℕ → RiskManager A → RiskManager A × RiskSnapshot A
  unfolding tail_risk
  get_risk_snapshot now m =
      let (breaker, is_tripped) = tripped now m.circuit_breaker in
      let m' = record m { circuit_breaker = breaker } in
      (
        m',
        record {
          equity = m.equity;
          open_positions = length m.positions;
          notional = portfolio_notional m;
          tail_risk = tail_risk m;
          return_history_size = length m.return_history;
          var_min_history = m.config.var_min_history;
          max_portfolio_var_pct = m.config.max_portfolio_var_pct;
          circuit_breaker_tripped = is_tripped;
          circuit_breaker_reason = breaker.trip_reason;
          kill_switch_active = m.killed;
          drawdown_pct = current_drawdown_pct m';
        },
      )
