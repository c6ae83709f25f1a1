-- ===== src/SignalValidator/Tests.antt =====
-- engine/signal_validator.py: runs of the validator on numbers with eight decimals, and its theorems
-- at concrete inputs.
use cto_test_ai_trading_bot.Prelude.{
  ◌+◌, ◌*◌, ◌-◌, ◌≤◌, ◌≡◌, refl, ◌↔◌, true, false, none, some, List, [], ◌∷◌, ◌++◌, arith, length,
  last_n, drop, push_bounded, is_some, if◌then◌else◌,
}
use cto_test_ai_trading_bot.Prelude.Int.{ℤ, ◌+ℤ◌, ◌-ℤ◌}
use cto_test_ai_trading_bot.Prelude.Fixed.{fixed, fixed_times, fixed_over, fixed-IsOrdered}
use cto_test_ai_trading_bot.Prelude.Dict.{Dict, lookup, insert}
use cto_test_ai_trading_bot.Prelude.Text.{codes, less_codes, text_ltb}
use cto_test_ai_trading_bot.Prelude.Number.{IsLe, ratio, total, zero_num, ◌≺◌, ◌⊖◌, ◌⊘◌}
use cto_test_ai_trading_bot.SignalValidator.{
  Signal, SignalValidator, good, fair, poor, value, below, init, has_signal, win_rate,
  confidence_points, points_below, market_points, record_points, grade, quality_score,
  assess_quality, failed_checks, validate_signal, is_closed, PnlTracking,
}
use cto_test_ai_trading_bot.SignalValidator.Trades.{
  new_trade, start_paper_trade, update_paper_trade, close_paper_trade, settled, pnl_at, direction,
  time_or, is_long_signal, same_quality, distribution, realized, trade_stats,
  get_validation_statistics, calculate_sharpe_ratio, older_window, detect_signal_decay,
  validated_of, scores, Statistics,
}
use cto_test_ai_trading_bot.SignalValidator.Quality.{
  rank, validate_signal_lem, validate_signal_inverted, assess_quality_mono,
}
use cto_test_ai_trading_bot.SignalValidator.Invariant.{
  updated, IsValid, init-IsValid, here, next, validated_by, started, closed_by, paper_calls-IsValid,
  close_paper_trade_lem,
}
use cto_test_ai_trading_bot.SignalValidator.Statistics.{
  sum_counts, get_validation_statistics_lem, detect_signal_decay_lem,
}

program : Unit {0}
unfolding ◌+ℤ◌ ◌-ℤ◌ fixed_times fixed_over lookup insert total codes less_codes text_ltb value below
    init has_signal win_rate confidence_points points_below market_points record_points grade
    quality_score assess_quality failed_checks validate_signal is_closed new_trade start_paper_trade
    update_paper_trade close_paper_trade settled pnl_at direction time_or is_long_signal
    same_quality distribution realized trade_stats get_validation_statistics calculate_sharpe_ratio
    older_window detect_signal_decay
program = tt

abbrev empty : SignalValidator ℤ
empty = init (ratio 6 10) good

-- a signal with a confidence of 0.8
abbrev signal : Signal ℤ
signal = record {
  signal_id = "s1";
  timestamp = 1000;
  prediction = ratio 7 10;
  confidence = ratio 8 10;
  regime = "trend";
  model_id = "m1";
  validated = false;
  quality = fair;
}

abbrev calm : Dict ℤ
calm = ("volatility", ratio 1 100) ∷ ("spread_pct", ratio 5 100) ∷ []

-- no conditions are known, and the signal is POOR
abbrev passed : SignalValidator ℤ × Signal ℤ
passed = let (v, s, _) = validate_signal signal "trend" [] empty in (v, s)

poor_passes : passed.1.quality ≡ poor
unfolding program
poor_passes = refl

poor_is_validated : passed.1.validated ≡ true
unfolding program
poor_is_validated = refl

validate_signal_lem_case :
    let (v', s', checks) = validate_signal signal "trend" calm empty in
    ((s'.validated ≡ true) ↔ (
      IsLe empty.min_confidence signal.confidence
      × (signal.regime ≡ "trend")
      × (below (assess_quality signal calm empty) empty.min_quality ≡ false)))
    × ((s'.validated ≡ true) ↔ (checks ≡ []))
    × (s'.quality ≡ assess_quality signal calm empty)
    × (v' ≡ record empty { signals = empty.signals ++ s' ∷ [] })
validate_signal_lem_case = validate_signal_lem signal "trend" calm empty

-- the same signal with the full confidence, in a calm market
abbrev best_signal : Signal ℤ
best_signal = record signal { confidence = ratio 1 1 }

validate_signal_inverted_example :
    let (_, s', _) = validate_signal best_signal "trend" calm empty in
    let (_, t', _) = validate_signal signal "trend" [] empty in
    (s'.validated ≡ false) × (t'.validated ≡ true)
unfolding program
validate_signal_inverted_example =
    validate_signal_inverted best_signal signal "trend" calm [] empty refl refl refl refl refl

assess_quality_mono_case :
    rank (assess_quality signal (("volatility", ratio 3 100) ∷ []) empty)
    ≤ rank (assess_quality (record signal { confidence = ratio 95 100 }) calm empty)
unfolding program
assess_quality_mono_case =
    assess_quality_mono fixed-IsOrdered signal (record signal { confidence = ratio 95 100 })
      ("volatility", ratio 3 100) ("volatility", ratio 1 100) [] (("spread_pct", ratio 5 100) ∷ [])
      empty refl refl refl refl refl refl

abbrev trading : SignalValidator ℤ
trading = (start_paper_trade passed.1 (ratio 100 1) (ratio 2 1) passed.0).0

trading-IsValid : IsValid trading
unfolding program
trading-IsValid =
    paper_calls-IsValid (init-IsValid (ratio 6 10) good) (
      next (next here (validated_by signal "trend" []))
        (started passed.1 (ratio 100 1) (ratio 2 1)))

-- the open trade is updated, and closed
paper_calls-IsValid_example :
    IsValid
      (close_paper_trade "s1"
        (ratio 110 1)
        none
        5000
        (update_paper_trade "s1" (ratio 105 1) true trading).0).0
paper_calls-IsValid_example =
    paper_calls-IsValid trading-IsValid
      (next (next here (updated "s1" (ratio 105 1) true)) (closed_by "s1" (ratio 110 1) none 5000))

abbrev trade : PnlTracking ℤ
trade = new_trade passed.1 (ratio 100 1) (ratio 2 1)

-- a long trade of two units gains 20
gain : pnl_at (ratio 110 1) trade (direction "s1" trading) ≡ ratio 20 1
unfolding program
gain = refl

close_paper_trade_lem_case :
    let pnl = pnl_at (ratio 110 1) trade (direction "s1" trading) in
    let (v', result) = close_paper_trade "s1" (ratio 110 1) none 5000 trading in
    (result ≡ some pnl)
    × (lookup "s1" v'.paper_trades ≡ some (settled pnl (ratio 110 1) (time_or none 5000) trade))
    × (v'.performance_history ≡ push_bounded 1000 pnl trading.performance_history)
    × (close_paper_trade "s1" (ratio 90 1) (some 7000) 6000 v' ≡ (v', none))
    × (update_paper_trade "s1" (ratio 90 1) true v' ≡ (v', none))
unfolding program
close_paper_trade_lem_case =
    close_paper_trade_lem "s1" (ratio 110 1) (ratio 90 1) none (some 7000) 5000 6000 true trade
      trading refl refl

-- stand-ins for the mean and the deviation
abbrev first : List ℤ → ℤ
first [] = ratio 0 1
first (x ∷ xs) = x

abbrev statistics : Statistics ℤ
statistics = record {
  total_signals = 1;
  validated_signals = 1;
  validation_rate = ratio 1 1;
  quality_distribution = distribution (passed.1 ∷ []);
  paper_trades = some (trade_stats first first trading.paper_trades);
  sharpe_ratio = none;
}

get_validation_statistics_lem_case :
    (sum_counts statistics.quality_distribution ≡ statistics.validated_signals)
    × (statistics.validated_signals ≤ statistics.total_signals)
    × ((trade_stats first first trading.paper_trades).closed_trades
          + (trade_stats first first trading.paper_trades).open_trades
        ≡ (trade_stats first first trading.paper_trades).total_trades)
    × (is_some (trade_stats first first trading.paper_trades).win_rate ≡ true)
unfolding program
get_validation_statistics_lem_case =
    get_validation_statistics_lem first first trading statistics
      (trade_stats first first trading.paper_trades) trading-IsValid refl refl

abbrev four_signals : SignalValidator ℤ
four_signals = record empty { signals = passed.1 ∷ passed.1 ∷ passed.1 ∷ passed.1 ∷ [] }

detect_signal_decay_lem_case :
    let ss = validated_of "m1" four_signals in
    let older = older_window 2 ss in
    let recent = last_n 2 ss in
    let base = first (scores older) in
    let decline = if zero_num ≺ base then (base ⊖ first (scores recent)) ⊘ base else zero_num in
    (length older ≡ 2)
    × (length recent ≡ 2)
    × (older ++ recent ≡ drop (length ss - 2 * 2) ss)
    × (detect_signal_decay first first "m1" 2 (ratio 15 100) four_signals
        ≡ (ratio 15 100 ≺ decline))
unfolding program
detect_signal_decay_lem_case =
    detect_signal_decay_lem first first "m1" 2 (ratio 15 100) four_signals (omega arith)
      (omega arith)
