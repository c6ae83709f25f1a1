-- ===== src/SignalValidator/Quality.antt =====
-- engine/signal_validator.py: which signals `validate_signal` lets pass, and what makes the quality of
-- a signal.
use cto_test_ai_trading_bot.Prelude.{
  ℕ, ◌≤◌, ◌≡◌, refl, ap, ◌∙◌, ◌↔◌, String, true, false, [], ◌∷◌, ◌++◌, arith, eq_iff,
}
use cto_test_ai_trading_bot.Prelude.Dict.{Dict}
use cto_test_ai_trading_bot.Prelude.Text.{text_ltb, codes, less_codes}
use cto_test_ai_trading_bot.Prelude.Number.{Number, IsOrdered, IsLe, ratio}
use cto_test_ai_trading_bot.SignalValidator.{
  Signal, SignalValidator, SignalQuality, excellent, good, fair, poor, invalid, value, below,
  confidence_points, points_below, market_points, record_points, quality_score, grade,
  assess_quality, failed_checks, validate_signal, get_or, win_rate,
}

-- the order of the grades, from the worst
abbrev pub rank : SignalQuality → ℕ
rank invalid = 0
rank poor = 1
rank fair = 2
rank good = 3
rank excellent = 4

rank-grade : (m n : ℕ) → m ≤ n → rank (grade m) ≤ rank (grade n)
unfolding grade
rank-grade m n h = ground arith

excellent_below : below excellent good ≡ true
unfolding below value text_ltb codes less_codes
excellent_below = refl

poor_below : below poor good ≡ false
unfolding below value text_ltb codes less_codes
poor_below = refl

module _ {A : Type 0} ⦃num : Number A⦄ where
  -- A signal is validated exactly if its confidence reaches the minimum, its regime is the current
  -- one, and its quality does not fall below the minimum, as the texts of the two compare; it gets
  -- the assessed quality and is recorded with it, at the end; nothing else of the validator changes.
  pub validate_signal_lem :
      (s : Signal A) (regime : String) (market : Dict A) (v : SignalValidator A)
      → let (v', s', checks) = validate_signal s regime market v in
        ((s'.validated ≡ true) ↔ (
          IsLe v.min_confidence s.confidence
          × (s.regime ≡ regime)
          × (below (assess_quality s market v) v.min_quality ≡ false)))
        × ((s'.validated ≡ true) ↔ (checks ≡ []))
        × (s'.quality ≡ assess_quality s market v)
        × (v' ≡ record v { signals = v.signals ++ s' ∷ [] })
  unfolding validate_signal failed_checks
  validate_signal_lem s regime market v = (
    ((λ e. ground (arith, eq_iff s.regime regime)), λ e. ground (arith, eq_iff s.regime regime)),
    ((λ e. ground arith), λ e. ground arith),
    refl,
    refl,
  )

  -- The minimum is compared as text: with the minimum GOOD a signal that is assessed EXCELLENT is
  -- not validated, while one that is assessed POOR is, if its confidence and its regime are fine.
  pub validate_signal_inverted :
      (s t : Signal A) (regime : String) (market market' : Dict A) (v : SignalValidator A)
      → v.min_quality ≡ good
      → assess_quality s market v ≡ excellent
      → assess_quality t market' v ≡ poor
      → IsLe v.min_confidence t.confidence
      → t.regime ≡ regime
      → let (_, s', _) = validate_signal s regime market v in
        let (_, t', _) = validate_signal t regime market' v in
        (s'.validated ≡ false) × (t'.validated ≡ true)
  validate_signal_inverted s t regime market market' v min best worst sure same =
      let dropped : below (assess_quality s market v) v.min_quality ≡ true =
        ap (λ q. below q v.min_quality) best ∙ ap (below excellent) min ∙ excellent_below in
      (
        ground (arith, (validate_signal_lem s regime market v).0.0),
        (validate_signal_lem t regime market' v).0.1
            (sure, same, ap (λ q. below q v.min_quality) worst ∙ ap (below poor) min ∙ poor_below),
      )

  confidence_points_mono :
      IsOrdered num → (c d : A) → IsLe c d → confidence_points c ≤ confidence_points d
  unfolding confidence_points
  confidence_points_mono ord c d h = ground (
    arith,
    ord.le_trans (ratio 9 10) c d,
    ord.le_trans (ratio 7 10) c d,
    ord.le_trans (ratio 1 2) c d,
  )

  points_below_mono :
      IsOrdered num
      → (low high x y : A) → IsLe x y
      → IsLe low high
      → points_below low high y ≤ points_below low high x
  unfolding points_below
  points_below_mono ord low high x y h fits =
      ground (arith, ord.le_trans low x y, ord.le_trans high x y, ord.le_trans low high x)

  market_points_mono :
      IsOrdered num
      → (e e' : String × A) (d d' : Dict A) → IsLe {A = A} (ratio 2 100) (ratio 5 100)
      → IsLe {A = A} (ratio 1 10) (ratio 3 10)
      → IsLe
          (get_or "volatility" (ratio 2 100) (e' ∷ d'))
          (get_or "volatility" (ratio 2 100) (e ∷ d))
      → IsLe (get_or "spread_pct" (ratio 1 10) (e' ∷ d')) (get_or "spread_pct" (ratio 1 10) (e ∷ d))
      → market_points (e ∷ d) ≤ market_points (e' ∷ d')
  unfolding market_points
  market_points_mono ord e e' d d' f f' calmer tighter =
      let p = points_below_mono ord (ratio 2 100) (ratio 5 100) _ _ calmer f in
      let q = points_below_mono ord (ratio 1 10) (ratio 3 10) _ _ tighter f' in omega (arith, p, q)

  -- More confidence, less volatility and a smaller spread never lower the quality that a signal of
  -- the same model is given, where the market conditions are known.
  pub assess_quality_mono :
      IsOrdered num
      → (s s' : Signal A) (e e' : String × A) (d d' : Dict A) (v : SignalValidator A)
      → IsLe {A = A} (ratio 2 100) (ratio 5 100)
      → IsLe {A = A} (ratio 1 10) (ratio 3 10)
      → s.model_id ≡ s'.model_id
      → IsLe s.confidence s'.confidence
      → IsLe
          (get_or "volatility" (ratio 2 100) (e' ∷ d'))
          (get_or "volatility" (ratio 2 100) (e ∷ d))
      → IsLe (get_or "spread_pct" (ratio 1 10) (e' ∷ d')) (get_or "spread_pct" (ratio 1 10) (e ∷ d))
      → rank (assess_quality s (e ∷ d) v) ≤ rank (assess_quality s' (e' ∷ d') v)
  unfolding assess_quality quality_score
  assess_quality_mono ord s s' e e' d d' v f f' model surer calmer tighter =
      let known : record_points (win_rate s.model_id v) ≡ record_points (win_rate s'.model_id v) =
        ap (λ m. record_points (win_rate m v)) model in
      rank-grade (quality_score s (e ∷ d) v) (quality_score s' (e' ∷ d') v) (
        omega (
          arith,
          confidence_points_mono ord s.confidence s'.confidence surer,
          market_points_mono ord e e' d d' f f' calmer tighter,
          known,
        ))

  -- Without market conditions no signal is assessed EXCELLENT, and no signal INVALID with or
  -- without them.
  pub assess_quality_range :
      (s : Signal A) (market : Dict A) (v : SignalValidator A)
      → (rank (assess_quality s [] v) ≤ rank good) × (1 ≤ rank (assess_quality s market v))
  unfolding assess_quality quality_score confidence_points market_points record_points grade
  assess_quality_range s market v = (ground arith, ground arith)
