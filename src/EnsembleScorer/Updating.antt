-- ===== src/EnsembleScorer/Updating.antt =====
-- engine/ensemble_scorer.py: what learning from the actual outcomes keeps.
use cto_test_ai_trading_bot.Prelude.{
  ◌≤◌, String, Bool, true, false, Option, List, [], ◌∷◌, map, length, leb, ltb, ap, sym, ◌∙◌, arith,
  ◌≡◌, refl, Option-cases, Bool-cases, inl, inr, All,
}
use cto_test_ai_trading_bot.Prelude.Dict.{Dict, values, lookup, insert, get_or}
use cto_test_ai_trading_bot.Prelude.Number.{Number, ◌⊖◌, ◌≼◌, larger, total, zero_num}
use cto_test_ai_trading_bot.Idempotency.{keys}
use cto_test_ai_trading_bot.Idempotency.Keys.{member, contains-member}
use cto_test_ai_trading_bot.EnsembleScorer.{
  EnsembleScorer, EnsemblePrediction, Calibrator, push_window, normalized,
}
use cto_test_ai_trading_bot.EnsembleScorer.Windows.{
  grown, length-push_window, shape, shape-push_at, push_at-within, keys-insert, keys-entries,
  keys-map,
}
use cto_test_ai_trading_bot.EnsembleScorer.Learning.{
  push_at, fit, adjust_weights, update_weights, update_calibrators, update_with_actual,
}

module _ {A : Type 0} ⦃num : Number A⦄ where
  pub keys-normalized : (models : List String) (w : Dict A) → keys (normalized models w) ≡ models
  unfolding normalized
  keys-normalized models w =
      let filtered : Dict A = map (λ mid. (mid, larger zero_num (get_or zero_num mid w))) models in
      elim (Bool-cases (total (values filtered) ≼ zero_num)) [
        | inl flat ↦ rw (normalized, flat) (keys-map _ models)
        | inr some_weight ↦
            rw (normalized, some_weight) (keys-entries _ filtered ∙ keys-map _ models)
      ]

  adjust_weights-keys :
      (error actual : A) (ks : List String) (preds weights : Dict A)
      → keys weights ≡ ks
      → All (λ e. member e.0 ks ≡ true) preds
      → (keys (adjust_weights error actual preds weights).0 ≡ ks)
        × ((adjust_weights error actual preds weights).1 ≡ false)
  unfolding adjust_weights
  adjust_weights-keys error actual ks [] weights k h = (k, refl)
  adjust_weights-keys error actual ks ((mid, pred) ∷ preds) weights k h =
      elim (Option-cases (lookup mid weights)) [
        | inl missing ↦ absurd (ground (arith, contains-member mid weights, ap (member mid) k, h.0))
        | inr (w, found) ↦
            rw (adjust_weights, found)
              (adjust_weights-keys error actual ks preds _ (keys-insert mid _ w weights found ∙ k)
                h.1)
      ]

  -- The windows of predictions and of outcomes have the same lengths, in all and for each regime, and
  -- keep to their size; each model has a weight, in the order of the models.
  pub record IsValid {C : Type 0} (s : EnsembleScorer A C) : Type 0 where
    pub weighed : keys s.weights ≡ s.models
    pub paired : length s.prediction_history ≡ length s.actual_history
    pub within : length s.prediction_history ≤ s.calibration_window
    pub paired_regimes : shape s.regime_prediction_history ≡ shape s.regime_actual_history
    pub within_regimes : All (λ e. length e.1 ≤ s.calibration_window) s.regime_prediction_history

  module _ {C : Type 0} (mean : List A → A)
      (calibr8_fit : Option (List A → List A → Option C)) where
    update_calibrators_lem :
        (regime : String) (s : EnsembleScorer A C)
        → (d : Dict (Calibrator A C)) × (update_calibrators mean calibr8_fit regime s
            ≡ record s { calibrators = d })
    unfolding update_calibrators
    update_calibrators_lem regime s =
        elim (Option-cases (lookup regime s.regime_prediction_history)) [
          | inl none_yet ↦ (s.calibrators, rw (update_calibrators, none_yet) refl)
          | inr (predictions, found) ↦ elim (Option-cases (lookup regime s.regime_actual_history)) [
            | inl none_yet ↦ (s.calibrators, rw (update_calibrators, found, none_yet) refl)
            | inr (actuals, known) ↦ elim (Bool-cases (ltb (length predictions) 100)) [
              | inl few ↦ (s.calibrators, rw (update_calibrators, found, known, few) refl)
              | inr many ↦ elim (Option-cases (fit mean calibr8_fit predictions actuals)) [
                | inl raised ↦
                    (s.calibrators, rw (update_calibrators, found, known, many, raised) refl)
                | inr (c, fitted) ↦ (
                  insert regime c s.calibrators,
                  rw (update_calibrators, found, known, many, fitted) refl,
                )
              ]
            ]
          ]
        ]

    -- what a step keeps, and that no exception left it
    pub record IsKept (s : EnsembleScorer A C) (r : EnsembleScorer A C × Bool) : Type 0 where
      pub returned : r.1 ≡ false
      pub valid : IsValid r.0
      pub same_models : r.0.models ≡ s.models
      pub same_window : r.0.calibration_window ≡ s.calibration_window

    -- the scorer when the prediction and the outcome were added to the windows
    abbrev recorded : EnsemblePrediction A → A → EnsembleScorer A C → EnsembleScorer A C
    recorded p actual s =
        let n = s.calibration_window in
        record s {
          prediction_history = push_window n p.calibrated_prediction s.prediction_history;
          actual_history = push_window n actual s.actual_history;
          regime_prediction_history =
              push_at n p.regime p.calibrated_prediction s.regime_prediction_history;
          regime_actual_history = push_at n p.regime actual s.regime_actual_history;
        }

    recorded-IsValid :
        (p : EnsemblePrediction A) (actual : A) (weights : Dict A) (d : Dict (Calibrator A C))
        (s : EnsembleScorer A C)
        → IsValid s
        → keys weights ≡ s.models
        → IsValid (record (recorded p actual s) { weights = weights; calibrators = d })
    recorded-IsValid p actual weights d s v k =
        let n = s.calibration_window in
        let ps = s.prediction_history in
        let longer = length-push_window n p.calibrated_prediction ps in
        let regime_ps = get_or [] p.regime s.regime_prediction_history in
        let regime_longer = length-push_window n p.calibrated_prediction regime_ps in
        record {
          weighed = k;
          paired =
              longer ∙ ap (grown n) v.paired ∙ sym (length-push_window n actual s.actual_history);
          within = omega (arith, longer);
          paired_regimes =
              shape-push_at n p.regime p.calibrated_prediction s.regime_prediction_history
              ∙ ap (λ d. insert p.regime (grown n (get_or 0 p.regime d)) d) v.paired_regimes
              ∙ sym (shape-push_at n p.regime actual s.regime_actual_history);
          within_regimes =
              push_at-within n p.regime p.calibrated_prediction s.regime_prediction_history
                v.within_regimes;
        }

    pub update_with_actual-IsKept :
        (p : EnsemblePrediction A) (actual : A) (s : EnsembleScorer A C)
        → IsValid s
        → All (λ e. member e.0 s.models ≡ true) p.individual_predictions
        → IsKept s (update_with_actual mean calibr8_fit p actual s)
    unfolding update_with_actual update_weights
    update_with_actual-IsKept p actual s v known =
        let (k, fine) =
          adjust_weights-keys (actual ⊖ p.calibrated_prediction) actual s.models
            p.individual_predictions s.weights v.weighed known in
        let n = s.calibration_window in
        let window = push_at n p.regime p.calibrated_prediction s.regime_prediction_history in
        let adjusted =
          adjust_weights (actual ⊖ p.calibrated_prediction) actual p.individual_predictions
            s.weights in
        let s' = record (recorded p actual s) { weights = normalized s.models adjusted.0 } in
        let (d, learned) = update_calibrators_lem p.regime s' in
        let ks = keys-normalized s.models _ in
        elim (Bool-cases (leb 100 (length (get_or [] p.regime window)))) [
          | inl many ↦
              rw (update_with_actual, fine, many, learned)
                (record {
                  returned = refl;
                  valid = recorded-IsValid p actual _ d s v ks;
                  same_models = refl;
                  same_window = refl;
                })
          | inr few ↦
              rw (update_with_actual, fine, few)
                (record {
                  returned = refl;
                  valid = recorded-IsValid p actual _ s.calibrators s v ks;
                  same_models = refl;
                  same_window = refl;
                })
        ]
