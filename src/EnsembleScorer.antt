-- ===== src/EnsembleScorer.antt =====
-- engine/ensemble_scorer.py: the scorer that weighs the predictions of several models, with the weights
-- it learns, the multipliers of the regimes, and the calibrators. A model is known by its id; what it
-- answers for the features is an argument of `predict`. The module calibr8, if it is installed, and
-- numpy's mean and deviation are parameters; `C` is the type of calibr8's calibrators.
pub mod Learning
mod Updating
mod Windows
pub mod Reports
mod Runs
mod Tests
pub mod Scoring
use cto_test_ai_trading_bot.Prelude.{
  ℕ, ◌-◌, String, Bool, true, false, not, Option, none, some, List, [], ◌∷◌, ◌++◌, map, length,
  drop, str_eq, if◌then◌else◌,
}
use cto_test_ai_trading_bot.Prelude.Dict.{Dict, get_or, insert, values}
use cto_test_ai_trading_bot.Prelude.Number.{
  Number, ◌⊗◌, ◌⊘◌, ◌≼◌, ratio, zero_num, larger, smaller, total,
}
use cto_test_ai_trading_bot.Http.{}

-- `np.clip(x, low, high)`: every comparison with a NaN is false, so a NaN `x` passes through here too
unfoldable pub clip : {A : Type 0} ⦃num : Number A⦄ → A → A → A → A
clip x low high = smaller (larger x low) high

-- the `append` of a `deque(maxlen=n)`
unfoldable pub push_window {ℓ} : {T : Type ℓ} → ℕ → T → List T → List T
push_window n x xs = let longer = xs ++ x ∷ [] in drop (length longer - n) longer

pub record EnsemblePrediction (A : Type 0) : Type 0 where
  pub timestamp : ℕ
  pub raw_prediction : A
  pub calibrated_prediction : A
  pub confidence : A
  pub individual_predictions : Dict A
  pub weights : Dict A
  pub regime : String
  pub num_models : ℕ
  pub has_regime_weights : Bool

-- `_NumpyLogisticCalibrator`, or a calibrator of calibr8
pub data Calibrator (A C : Type 0) : Type 0 where
  numpy_fallback : (mean_pred mean_actual : A) → Calibrator A C
  calibr8 : C → Calibrator A C

pub record EnsembleScorer (A C : Type 0) : Type 0 where
  -- the ids of the models, in the order of the dictionary
  pub models : List String
  pub weights : Dict A
  pub calibration_window : ℕ
  pub prediction_history : List A
  pub actual_history : List A
  pub regime_weights : Dict (Dict A)
  -- by the regime; the code adds "_calibrator" to the key
  pub calibrators : Dict (Calibrator A C)
  pub regime_prediction_history : Dict (List A)
  pub regime_actual_history : Dict (List A)

-- a model's answer: of `predict_proba`, of `predict`, or neither method; `none` for an exception
pub data Answer (A : Type 0) : Type 0 where
  predict_proba predict : Option A → Answer A
  neither : Answer A

-- the regimes that have multipliers from the start
abbrev pub regimes : List String
regimes = "BULL" ∷ "BEAR" ∷ "SIDEWAYS" ∷ "VOLATILE" ∷ "TRANSITION" ∷ []

module _ {A : Type 0} ⦃num : Number A⦄ where
  unfoldable pub normalized : List String → Dict A → Dict A
  unfolding larger total
  normalized models weights =
      let filtered = map (λ mid. (mid, larger zero_num (get_or zero_num mid weights))) models in
      let all = total (values filtered) in
      if all ≼ zero_num
      then map (λ mid. (mid, ratio 1 1 ⊘ ratio (length models) 1)) models
      else map (λ e. (e.0, e.1 ⊘ all)) filtered

  -- a dictionary with the same number for every model
  unfoldable pub uniform : List String → A → Dict A
  uniform models a = map (λ mid. (mid, a)) models

  -- `__init__`; `none` for the ValueError without models
  unfoldable pub init :
      {C : Type 0} → List String → Option (Dict A) → ℕ → Option (EnsembleScorer A C)
  unfolding uniform
  init [] default_weights window = none
  init (m ∷ ms) default_weights window =
      let one = uniform (m ∷ ms) (ratio 1 1) in
      let base : Dict A = elim default_weights [
        | none ↦ one
        | some [] ↦ one
        | some (e ∷ d) ↦ e ∷ d
      ] in
      some (record {
        models = m ∷ ms;
        weights = normalized (m ∷ ms) base;
        calibration_window = window;
        prediction_history = [];
        actual_history = [];
        regime_weights = map (λ r. (r, one)) regimes;
        calibrators = [];
        regime_prediction_history = map (λ r. (r, [])) regimes;
        regime_actual_history = map (λ r. (r, [])) regimes;
      })

  -- `none` for the ValueError of an empty name
  unfoldable pub set_regime_weights :
      {C : Type 0} → String → Dict A → EnsembleScorer A C → Option (EnsembleScorer A C)
  set_regime_weights regime weights s =
      let kept = map (λ mid. (mid, larger zero_num (get_or (ratio 1 1) mid weights))) s.models in
      if str_eq regime ""
      then none
      else some (record s { regime_weights = insert regime kept s.regime_weights })

  unfoldable pub get_regime_weights : {C : Type 0} → String → EnsembleScorer A C → Dict A
  unfolding normalized uniform
  get_regime_weights regime s =
      let prior = get_or (uniform s.models (ratio 1 1)) regime s.regime_weights in
      normalized s.models
        (map (λ mid. (mid, get_or zero_num mid s.weights ⊗ get_or (ratio 1 1) mid prior)) s.models)
