-- ===== src/EnsembleScorer/Reports.antt =====
-- engine/ensemble_scorer.py: the weights of recent performance, the test for decay, and the statistics.
use cto_test_ai_trading_bot.Prelude.{
  ℕ, ◌*◌, Bool, false, ◌&&◌, ◌||◌, Option, none, some, List, [], ◌∷◌, ◌++◌, map, length, leb, ltb,
  last_n, String, str_append, if◌then◌else◌,
}
use cto_test_ai_trading_bot.Prelude.Dict.{Dict, lookup, insert, values}
use cto_test_ai_trading_bot.Prelude.Number.{
  Number, ◌⊕◌, ◌⊖◌, ◌⊗◌, ◌⊘◌, ◌≺◌, ◌≼◌, ratio, zero_num, absolute, equal, total,
}
use cto_test_ai_trading_bot.SignalValidator.Trades.{older_window}
use cto_test_ai_trading_bot.EnsembleScorer.{EnsembleScorer, uniform}

-- `zip`
unfoldable pub zip {ℓ κ} : {S : Type ℓ} {T : Type κ} → List S → List T → List (S × T)
zip [] ys = []
zip (x ∷ xs) [] = []
zip (x ∷ xs) (y ∷ ys) = (x, y) ∷ zip xs ys

pub record ScorerStatistics (A : Type 0) : Type 0 where
  pub num_predictions : ℕ
  pub mean_squared_error : A
  pub mean_absolute_error : A
  pub direction_accuracy : A
  pub mean_prediction : A
  pub std_prediction : A
  pub current_weights : Dict A

pub record ScorerHealth : Type 0 where
  pub num_models : ℕ
  pub history_size : ℕ
  pub actual_size : ℕ
  pub calibration_ready : Bool
  pub calibrators_loaded : List String

module _ {A : Type 0} ⦃num : Number A⦄ where
  -- `model_performances[mid].append(error)` for one dictionary of predictions; `none` for the KeyError
  -- of a model that the scorer does not have
  unfoldable pub append_errors : A → Dict A → Dict (List A) → Option (Dict (List A))
  unfolding absolute
  append_errors actual [] errors = some errors
  append_errors actual ((mid, pred) ∷ preds) errors = elim (lookup mid errors) [
    | none ↦ none
    | some es ↦ append_errors actual preds (insert mid (es ++ absolute (actual ⊖ pred) ∷ []) errors)
  ]

  unfoldable pub collect_errors : List (Dict A × A) → Dict (List A) → Option (Dict (List A))
  unfolding append_errors
  collect_errors [] errors = some errors
  collect_errors ((preds, actual) ∷ rest) errors = elim (append_errors actual preds errors) [
    | none ↦ none
    | some errors' ↦ collect_errors rest errors'
  ]

  unfoldable pub performance : (List A → A) → List A → A
  performance mean [] = ratio 1 1
  performance mean (e ∷ es) = ratio 1 1 ⊘ (ratio 1 1 ⊕ mean (e ∷ es))

  unfoldable pub calculate_ensemble_weights :
      {C : Type 0} → (List A → A) → List (Dict A) → List A → EnsembleScorer A C → Option (Dict A)
  unfolding zip collect_errors performance uniform total
  calculate_ensemble_weights mean recent_predictions actuals s =
      elim (collect_errors (zip recent_predictions actuals) (map (λ mid. (mid, [])) s.models)) [
        | none ↦ none
        | some errors ↦
            let new_weights = map (λ e. (e.0, performance mean e.1)) errors in
            let total_performance = total (values new_weights) in
            if zero_num ≺ total_performance
            then some (map (λ e. (e.0, e.1 ⊘ total_performance)) new_weights)
            else some (uniform s.models (ratio 1 1 ⊘ ratio (length s.models) 1))
      ]

  unfoldable pub squared_errors : List (A × A) → List A
  squared_errors ps = map (λ p. (p.0 ⊖ p.1) ⊗ (p.0 ⊖ p.1)) ps

  unfoldable pub detect_prediction_decay :
      {C : Type 0} → (List A → A) → ℕ → A → EnsembleScorer A C → Bool
  unfolding zip squared_errors older_window
  detect_prediction_decay mean window threshold s =
      let recent_mse = mean (
        squared_errors
          (zip (last_n window s.prediction_history) (last_n window s.actual_history))) in
      let older_mse = mean (
        squared_errors (
          zip (older_window window s.prediction_history) (older_window window s.actual_history))) in
      let mse_increase =
        if zero_num ≺ older_mse then (recent_mse ⊖ older_mse) ⊘ older_mse else zero_num in
      if ltb (length s.prediction_history) (window * 2)
        || ltb (length s.actual_history) (window * 2)
      then false
      else threshold ≺ mse_increase

  -- a prediction on the right side of one half, for an outcome of one or of zero
  unfoldable pub direction_correct : A × A → A
  direction_correct (p, a) =
      if (ratio 1 2 ≺ p && equal a (ratio 1 1)) || (p ≼ ratio 1 2 && equal a zero_num)
      then ratio 1 1
      else zero_num

  -- `none` for the empty dictionary of a scorer without history
  unfoldable pub get_statistics :
      {C : Type 0} → (mean std : List A → A) → EnsembleScorer A C → Option (ScorerStatistics A)
  unfolding zip squared_errors direction_correct absolute
  get_statistics mean std s =
      let pairs = zip s.prediction_history s.actual_history in
      if leb (length s.prediction_history) 0 || leb (length s.actual_history) 0
      then none
      else some (record {
        num_predictions = length s.prediction_history;
        mean_squared_error = mean (squared_errors pairs);
        mean_absolute_error = mean (map (λ p. absolute (p.0 ⊖ p.1)) pairs);
        direction_accuracy = mean (map direction_correct pairs);
        mean_prediction = mean s.prediction_history;
        std_prediction = std s.prediction_history;
        current_weights = s.weights;
      })

-- The name of the backend and the sorted names of the regimes are left out.
unfoldable pub get_health_status : {A C : Type 0} → EnsembleScorer A C → ScorerHealth
get_health_status s = record {
  num_models = length s.models;
  history_size = length s.prediction_history;
  actual_size = length s.actual_history;
  calibration_ready = leb 100 (length s.prediction_history);
  calibrators_loaded = map (λ e. str_append e.0 "_calibrator") s.calibrators;
}
