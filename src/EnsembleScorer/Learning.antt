-- ===== src/EnsembleScorer/Learning.antt =====
-- engine/ensemble_scorer.py: what the scorer learns from the actual outcomes.
use cto_test_ai_trading_bot.Prelude.{
  ℕ, Bool, true, false, ◌||◌, Option, none, some, List, [], ◌∷◌, length, leb, ltb, String,
  if◌then◌else◌,
}
use cto_test_ai_trading_bot.Prelude.Dict.{Dict, get_or, lookup, insert}
use cto_test_ai_trading_bot.Prelude.Number.{
  Number, ◌⊕◌, ◌⊖◌, ◌⊗◌, ◌≺◌, ratio, absolute, negate, larger,
}
use cto_test_ai_trading_bot.EnsembleScorer.{
  EnsembleScorer, EnsemblePrediction, Calibrator, numpy_fallback, calibr8, clip, push_window,
  normalized,
}

-- `d[k].append(x)` for windows, where a missing entry was made empty before
unfoldable pub push_at {ℓ} : {T : Type ℓ} → ℕ → String → T → Dict (List T) → Dict (List T)
unfolding push_window
push_at n k x d = insert k (push_window n x (get_or [] k d)) d

module _ {A : Type 0} ⦃num : Number A⦄ where
  -- the weight of a model, after its prediction and the actual outcome
  unfoldable pub adjusted : (error actual pred w : A) → A
  unfolding absolute larger
  adjusted error actual pred w =
      let adjustment =
        if absolute (actual ⊖ pred) ≺ absolute error
        then ratio 1 100 ⊗ absolute error
        else negate (ratio 1 100) ⊗ absolute error ⊗ ratio 1 2 in
      larger (ratio 1 100) (w ⊕ adjustment)

  -- the loop of `_update_weights`; the flag says that a model without a weight raised a KeyError
  unfoldable pub adjust_weights : (error actual : A) → Dict A → Dict A → Dict A × Bool
  adjust_weights error actual [] weights = (weights, false)
  adjust_weights error actual ((mid, pred) ∷ preds) weights = elim (lookup mid weights) [
    | none ↦ (weights, true)
    | some w ↦ adjust_weights error actual preds (insert mid (adjusted error actual pred w) weights)
  ]

  -- The flag says that the exception left the method, before the weights were normalized.
  unfoldable pub update_weights :
      {C : Type 0} → EnsemblePrediction A → A → EnsembleScorer A C → EnsembleScorer A C × Bool
  unfolding adjust_weights normalized
  update_weights p actual s =
      let (weights, raised) =
        adjust_weights (actual ⊖ p.calibrated_prediction) actual p.individual_predictions
          s.weights in
      let kept = if raised then weights else normalized s.models weights in
      (record s { weights = kept }, raised)

  module _ {C : Type 0} (mean : List A → A)
      (calibr8_fit : Option (List A → List A → Option C)) where
    -- a new calibrator that was fitted; `none` for an exception
    unfoldable pub fit : List A → List A → Option (Calibrator A C)
    unfolding clip
    fit predictions actuals =
        let bound : List A → A =
          λ xs. clip (mean xs) (ratio 1 1_000_000) (ratio 1 1 ⊖ ratio 1 1_000_000) in
        let fallback =
          if leb (length predictions) 0 || leb (length actuals) 0
          then numpy_fallback (ratio 1 2) (ratio 1 2)
          else numpy_fallback (bound predictions) (bound actuals) in
        elim calibr8_fit [
          | none ↦ some fallback
          | some f ↦ elim (f predictions actuals) [ none ↦ none | some c ↦ some (calibr8 c) ]
        ]

    unfoldable pub update_calibrators : String → EnsembleScorer A C → EnsembleScorer A C
    unfolding fit
    update_calibrators regime s = elim (lookup regime s.regime_prediction_history) [
      | none ↦ s
      | some predictions ↦ elim (lookup regime s.regime_actual_history) [
        | none ↦ s
        | some actuals ↦
            let fitted : EnsembleScorer A C = elim (fit predictions actuals) [
              | none ↦ s
              | some c ↦ record s { calibrators = insert regime c s.calibrators }
            ] in
            if ltb (length predictions) 100 then s else fitted
      ]
    ]

    -- The flag says that the exception of `_update_weights` left the method.
    unfoldable pub update_with_actual :
        EnsemblePrediction A → A → EnsembleScorer A C → EnsembleScorer A C × Bool
    unfolding push_window push_at update_weights
    update_with_actual p actual s =
        let n = s.calibration_window in
        let recorded = record s {
          prediction_history = push_window n p.calibrated_prediction s.prediction_history;
          actual_history = push_window n actual s.actual_history;
          regime_prediction_history =
              push_at n p.regime p.calibrated_prediction s.regime_prediction_history;
          regime_actual_history = push_at n p.regime actual s.regime_actual_history;
        } in
        let (s', raised) = update_weights p actual recorded in
        let many = leb 100 (length (get_or [] p.regime s'.regime_prediction_history)) in
        let learned = if many then update_calibrators p.regime s' else s' in
        if raised then (s', true) else (learned, false)
