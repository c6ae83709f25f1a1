-- ===== src/EnsembleScorer/Scoring.antt =====
-- engine/ensemble_scorer.py: `predict`, with the calibration and the confidence.
use cto_test_ai_trading_bot.Prelude.{
  ℕ, Bool, Option, none, some, List, [], ◌∷◌, map, length, ltb, String, if◌then◌else◌,
}
use cto_test_ai_trading_bot.Prelude.Dict.{Dict, get_or, lookup, values}
use cto_test_ai_trading_bot.Prelude.Number.{
  Number, ◌⊕◌, ◌⊖◌, ◌⊗◌, ◌⊘◌, ◌≺◌, ◌≼◌, ratio, zero_num, absolute, total,
}
use cto_test_ai_trading_bot.EnsembleScorer.{
  EnsembleScorer, EnsemblePrediction, Calibrator, numpy_fallback, calibr8, Answer, predict_proba,
  predict, neither, clip, get_regime_weights,
}

module _ {A : Type 0} ⦃num : Number A⦄ where
  unfoldable pub answer_of : Answer A → A
  answer_of (predict_proba none) = ratio 1 2
  answer_of (predict_proba (some a)) = a
  answer_of (predict none) = ratio 1 2
  answer_of (predict (some a)) = a
  answer_of neither = ratio 1 2

  -- `sum(preds[mid] * weights.get(mid, 0) for mid in preds)`
  unfoldable pub weighted_sum : Dict A → Dict A → A
  unfolding total
  weighted_sum preds weights = total (map (λ e. e.1 ⊗ get_or zero_num e.0 weights) preds)

  -- `sum(weights.get(mid, 0.0) for mid in preds)`
  unfoldable pub weight_sum : Dict A → Dict A → A
  unfolding total
  weight_sum preds weights = total (map (λ e. get_or zero_num e.0 weights) preds)

  module _ (mean std : List A → A) where
    unfoldable pub calculate_confidence : Dict A → Dict A → A
    unfolding weighted_sum weight_sum absolute clip
    calculate_confidence [] weights = zero_num
    calculate_confidence (e ∷ preds) weights =
        let all = e ∷ preds in
        let mean_weighted =
          if weight_sum all weights ≼ zero_num
          then mean (values all)
          else weighted_sum all weights ⊘ weight_sum all weights in
        let distance_from_neutral = absolute (mean_weighted ⊖ ratio 1 2) in
        clip (distance_from_neutral ⊗ ratio 2 1 ⊗ (ratio 1 1 ⊖ std (values all))) zero_num
          (ratio 1 1)

  module _ {C : Type 0} (predict_with : C → A → Option A) where
    -- a calibrator's `predict`; `none` for an exception
    unfoldable pub calibrated : Calibrator A C → A → Option A
    unfolding clip
    calibrated (numpy_fallback mean_pred mean_actual) a =
        some (clip (a ⊕ (mean_actual ⊖ mean_pred)) (ratio 1 100) (ratio 99 100))
    calibrated (calibr8 c) a = predict_with c a

    unfoldable pub calibrate_prediction : A → String → EnsembleScorer A C → A
    unfolding clip calibrated
    calibrate_prediction prediction regime s =
        let clipped : A = elim (lookup regime s.calibrators) [
          | none ↦ prediction
          | some c ↦ elim (calibrated c prediction) [
            | none ↦ prediction
            | some a ↦ clip a (ratio 1 100) (ratio 99 100)
          ]
        ] in
        if ltb (length s.prediction_history) 50 then prediction else clipped

    module _ (mean std : List A → A) where
      -- `predict` at the time `now`, with the answer of each model
      unfoldable pub predict_ensemble :
          (now : ℕ)
          → (String → Answer A)
          → String
          → Bool
          → EnsembleScorer A C
          → EnsemblePrediction A
      unfolding answer_of weighted_sum total clip calibrate_prediction calculate_confidence
          get_regime_weights
      predict_ensemble now answers regime use_regime_weights s =
          let preds = map (λ mid. (mid, answer_of (answers mid))) s.models in
          let weights = if use_regime_weights then get_regime_weights regime s else s.weights in
          let total_weight = total (values weights) in
          let weighted_pred =
            if zero_num ≺ total_weight
            then weighted_sum preds weights ⊘ total_weight
            else ratio 1 2 in
          let raw = clip weighted_pred zero_num (ratio 1 1) in
          record {
            timestamp = now;
            raw_prediction = raw;
            calibrated_prediction = calibrate_prediction raw regime s;
            confidence = calculate_confidence mean std preds weights;
            individual_predictions = preds;
            weights = weights;
            regime = regime;
            num_models = length preds;
            has_regime_weights = use_regime_weights;
          }
