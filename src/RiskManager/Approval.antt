-- ===== src/RiskManager/Approval.antt =====
-- execution/risk_manager.py: what holds of a signal that `approve_signal` approves.
use cto_test_ai_trading_bot.Prelude.{
  ℕ, ◌+◌, ◌≤◌, ◌<◌, ◌≡◌, sym, ◌⊎◌, inl, inr, true, false, none, some, List, arith, leb, length,
  Bool-cases, Option-cases,
}
use mathlib.Core.Path.{subst}
use cto_test_ai_trading_bot.Prelude.Dict.{lookup}
use cto_test_ai_trading_bot.Prelude.Number.{Number, IsLe, IsLt, ◌⊕◌, ◌⊗◌, ◌⊘◌, ◌≺◌, zero_num, ratio}
use cto_test_ai_trading_bot.RiskBreaker.{tripped}
use cto_test_ai_trading_bot.Position.{TradingSignal, risk_reward}
use cto_test_ai_trading_bot.RiskManager.{
  RiskManager, approved, position_key, last_trade, calculate_position_size, check_session_window,
  check_cooldown, check_spread, check_volatility, check_symbol_exposure, check_var,
  calculate_historical_var, approve_size, approve_gates, approve_signal,
}

-- The session is a span of the day, or of the night across midnight.
abbrev pub IsInSession : ℕ → ℕ → ℕ → Type 0
IsInSession start end minutes =
    ((start ≤ minutes) × (minutes ≤ end)) ⊎ ((end < start) × ((start ≤ minutes) ⊎ (minutes ≤ end)))

module _ {A : Type 0} ⦃num : Number A⦄ where
  session_lem :
      (minutes : ℕ) (m : RiskManager A)
      → minutes < 1440
      → check_session_window minutes m ≡ true
      → IsInSession m.config.session_start m.config.session_end minutes
  unfolding check_session_window
  session_lem minutes m day e = ground arith

  cooldown_lem :
      (s : TradingSignal A) (now : ℕ) (m : RiskManager A)
      → check_cooldown s.symbol now m ≡ true
      → last_trade s.symbol m + m.config.cooldown_ms ≤ now
  unfolding check_cooldown
  cooldown_lem s now m e = ground arith

  spread_lem :
      (s : TradingSignal A) (m : RiskManager A)
      → check_spread s m ≡ true
      → IsLe s.spread_bps zero_num ⊎ IsLe s.spread_bps m.config.max_spread_bps
  unfolding check_spread
  spread_lem s m e = ground arith

  volatility_lem :
      (s : TradingSignal A) (m : RiskManager A)
      → check_volatility s m ≡ true
      → IsLe s.price zero_num ⊎ IsLe (s.atr ⊘ s.price) m.config.max_atr_pct
  unfolding check_volatility
  volatility_lem s m e = ground arith

  module _ (percentile : List A → A → A) where
    -- the value at risk with the new position stays within its limit, once there is a history
    abbrev pub IsVarKept : A → RiskManager A → Type 0
    IsVarKept size m =
        (length m.return_history < m.config.var_min_history)
        ⊎ (IsLe m.equity zero_num
            ⊎ IsLe (calculate_historical_var percentile (ratio 95 100) m ⊕ size ⊘ m.equity)
                m.config.max_portfolio_var_pct)

    var_lem : (size : A) (m : RiskManager A) → check_var percentile size m ≡ true → IsVarKept size m
    unfolding check_var
    var_lem size m e = elim (Bool-cases (leb m.config.var_min_history (length m.return_history))) [
      | inl enough ↦ elim (Bool-cases (zero_num ≺ m.equity)) [
        | inl solvent ↦ inr (inr (ground arith))
        | inr broke ↦ inr (inl broke)
      ]
      | inr few ↦ inl (ground arith)
    ]

    approve_size_lem :
        (size result : A) (m : RiskManager A)
        → approve_size percentile size m ≡ approved result
        → (result ≡ size)
          × IsLt zero_num result
          × IsLe result (m.equity ⊗ m.config.max_exposure_per_symbol)
          × (check_var percentile size m ≡ true)
    unfolding approve_size check_symbol_exposure
    approve_size_lem size result m e = (ground arith, ground arith, ground arith, ground arith)

    -- The facts about an approved signal, in the manager whose breaker was read
    pub record IsApproved (s : TradingSignal A) (now minutes : ℕ) (m : RiskManager A) (size : A)
        : Type 0 where
      pub no_position : lookup (position_key s.exchange s.symbol) m.positions ≡ none
      pub room : length m.positions < m.config.max_open
      pub scored : IsLe (ratio 1 2) s.score
      pub rewarded : IsLe (ratio 3 2) (risk_reward s)
      pub in_session : IsInSession m.config.session_start m.config.session_end minutes
      pub cooled : last_trade s.symbol m + m.config.cooldown_ms ≤ now
      pub sized : calculate_position_size s m ≡ some size
      pub positive : IsLt zero_num size
      pub exposed : IsLe size (m.equity ⊗ m.config.max_exposure_per_symbol)
      pub spread_kept : IsLe s.spread_bps zero_num ⊎ IsLe s.spread_bps m.config.max_spread_bps
      pub volatility_kept : IsLe s.price zero_num ⊎ IsLe (s.atr ⊘ s.price) m.config.max_atr_pct
      pub var_kept : IsVarKept size m

    approve_gates-IsApproved :
        (s : TradingSignal A) (now minutes : ℕ) (m : RiskManager A) (size : A)
        → minutes < 1440
        → approve_gates percentile s now minutes m ≡ approved size
        → IsApproved s now minutes m size
    unfolding approve_gates
    approve_gates-IsApproved s now minutes m size day e =
        elim (Option-cases (calculate_position_size s m)) [
          | inl fails ↦ ground arith
          | inr (x, sized') ↦
              let from_size : approve_size percentile x m ≡ approved size = ground arith in
              let (same, positive', exposed', var') = approve_size_lem x size m from_size in
              record {
                no_position = ground arith;
                room = ground arith;
                scored = ground arith;
                rewarded = ground arith;
                in_session = session_lem minutes m day (ground arith);
                cooled = cooldown_lem s now m (ground arith);
                sized = ground arith;
                positive = positive';
                exposed = exposed';
                spread_kept = spread_lem s m (ground arith);
                volatility_kept = volatility_lem s m (ground arith);
                var_kept = subst (λ z. IsVarKept z m) (sym same) (var_lem x m var');
              }
        ]

    -- A signal is approved only if the kill switch is off and the breaker is not tripped; no
    -- position is open for its exchange and symbol, and there are fewer than the maximum; its score
    -- is at least 0.5 and its risk-reward ratio at least 1.5; the time of day is in the session and
    -- the cooldown of its symbol has passed; its spread and its volatility keep to their limits,
    -- where they apply; and its size is the computed one, is positive, and keeps to the exposure
    -- limit of a symbol and, once there is a history, to the limit of the value at risk. The
    -- manager is unchanged but for its breaker.
    pub approve_signal-IsApproved :
        (s : TradingSignal A) (now minutes : ℕ) (m : RiskManager A) (size : A)
        → minutes < 1440
        → (approve_signal percentile s now minutes m).1 ≡ approved size
        → let m' = (approve_signal percentile s now minutes m).0 in
          (m.killed ≡ false)
          × ((tripped now m.circuit_breaker).1 ≡ false)
          × (m' ≡ record m { circuit_breaker = (tripped now m.circuit_breaker).0 })
          × IsApproved s now minutes m' size
    unfolding approve_signal
    approve_signal-IsApproved s now minutes m size day e =
        let m' = record m { circuit_breaker = (tripped now m.circuit_breaker).0 } in
        let e' : approve_gates percentile s now minutes m' ≡ approved size = ground arith in
        let same : (approve_signal percentile s now minutes m).0 ≡ m' = ground arith in
        (
          ground arith,
          ground arith,
          same,
          subst (λ n. IsApproved s now minutes n size) (sym same)
              (approve_gates-IsApproved s now minutes m' size day e'),
        )
