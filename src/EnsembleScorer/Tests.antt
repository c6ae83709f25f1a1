-- ===== src/EnsembleScorer/Tests.antt =====
-- engine/ensemble_scorer.py: a scorer with two models on numbers with eight decimals, and its theorems
-- at concrete inputs.
use cto_test_ai_trading_bot.Prelude.{
  String, ◌≡◌, refl, true, false, Option, none, some, List, [], ◌∷◌, length, str_eq, if◌then◌else◌,
}
use cto_test_ai_trading_bot.Prelude.Dict.{lookup, insert}
use cto_test_ai_trading_bot.Prelude.Int.{ℤ, ◌+ℤ◌, ◌-ℤ◌}
use cto_test_ai_trading_bot.Prelude.Fixed.{fixed, fixed_times, fixed_over}
use cto_test_ai_trading_bot.Prelude.Number.{ratio, total, larger, smaller, absolute}
use cto_test_ai_trading_bot.EnsembleScorer
use cto_test_ai_trading_bot.EnsembleScorer.{
  EnsembleScorer, Answer, predict_proba, predict, neither, push_window, normalized, uniform, clip,
  get_regime_weights,
}
use cto_test_ai_trading_bot.EnsembleScorer.Scoring.{
  answer_of, weighted_sum, weight_sum, calculate_confidence, calibrate_prediction, predict_ensemble,
}
use cto_test_ai_trading_bot.EnsembleScorer.Learning.{
  push_at, adjusted, adjust_weights, update_weights, update_with_actual,
}
use cto_test_ai_trading_bot.EnsembleScorer.Updating.{IsValid}
use cto_test_ai_trading_bot.EnsembleScorer.Runs.{Round, run, run-IsValid}

program : Unit {0}
unfolding ◌+ℤ◌ ◌-ℤ◌ fixed_times fixed_over total larger smaller absolute lookup insert
    EnsembleScorer.init push_window normalized uniform clip get_regime_weights answer_of
    weighted_sum weight_sum calculate_confidence calibrate_prediction predict_ensemble push_at
    adjusted adjust_weights update_weights update_with_actual run
program = tt

-- "trend" says 0.8, and "random" raises
abbrev answers : String → Answer ℤ
answers mid = if str_eq mid "trend" then predict_proba (some (ratio 4 5)) else predict none

abbrev average : List ℤ → ℤ
average [] = ratio 0 1
average (x ∷ xs) = x

abbrev spread : List ℤ → ℤ
spread xs = ratio 1 10

abbrev no_calibr8 : Unit {0} → ℤ → Option ℤ
no_calibr8 c a = none

abbrev two : EnsembleScorer ℤ (Unit {0})
two = elim (EnsembleScorer.init ("trend" ∷ "random" ∷ []) none 2) [
  | none ↦ record {
    models = [];
    weights = [];
    calibration_window = 0;
    prediction_history = [];
    actual_history = [];
    regime_weights = [];
    calibrators = [];
    regime_prediction_history = [];
    regime_actual_history = [];
  }
  | some s ↦ s
]

abbrev round : Round ℤ
round = record {
  now = 1000;
  answers = answers;
  regime = "BULL";
  use_regime_weights = true;
  actual = ratio 1 1;
}

-- both weigh one half: 0.65
predicted :
    (predict_ensemble no_calibr8 average spread 1000 answers "BULL" true two).raw_prediction
    ≡ ratio 65 100
unfolding program
predicted = refl

-- after three rounds the window of two is full
three_rounds :
    length
      (run no_calibr8 average spread none (round ∷ round ∷ round ∷ []) two).0.prediction_history
    ≡ 2
unfolding program
three_rounds = refl

run-IsValid_example :
    (s : EnsembleScorer ℤ (Unit {0})) × (EnsembleScorer.init ("trend" ∷ "random" ∷ []) none 2
      ≡ some s)
    × ((run no_calibr8 average spread none (round ∷ round ∷ round ∷ []) s).1 ≡ false)
    × IsValid (run no_calibr8 average spread none (round ∷ round ∷ round ∷ []) s).0
    × ((run no_calibr8 average spread none (round ∷ round ∷ round ∷ []) s).0.models
        ≡ "trend" ∷ "random" ∷ [])
    × ((run no_calibr8 average spread none (round ∷ round ∷ round ∷ []) s).0.calibration_window ≡ 2)
run-IsValid_example =
    run-IsValid no_calibr8 average spread none "trend" ("random" ∷ []) none 2
      (round ∷ round ∷ round ∷ [])
