-- ===== src/SignalValidator.antt =====
-- engine/signal_validator.py: class `SignalValidator`, its data, the validation of signals and their
-- quality. A signal object is validated once, before a trade of it is started, so that a signal is
-- passed by value. `quality_score` is counted in halves. `market_conditions` is a dictionary of
-- floats, the empty one if it is `None`, since the code treats both alike. The fields
-- `max_position_age_hours`, `validation_stats` and `features`, which nothing reads, are left out.
pub mod Trades
pub mod Quality
pub mod Invariant
pub mod Statistics
mod Tests
use cto_test_ai_trading_bot.Prelude.{
  ℕ, ◌+◌, String, Bool, true, false, Option, none, some, List, [], ◌∷◌, ◌++◌, ◌&&◌, not, leb,
  if◌then◌else◌, length, keep, last_n, str_eq,
}
use cto_test_ai_trading_bot.Prelude.Dict.{Dict, lookup, values}
use cto_test_ai_trading_bot.Prelude.Text.{text_ltb}
use cto_test_ai_trading_bot.Prelude.Number.{Number, ◌≺◌, ◌≼◌, ratio, zero_num}

pub data SignalQuality : Type 0 where
  excellent good fair poor invalid : SignalQuality

-- `quality.value`
unfoldable pub value : SignalQuality → String
value excellent = "EXCELLENT"
value good = "GOOD"
value fair = "FAIR"
value poor = "POOR"
value invalid = "INVALID"

pub record Signal (A : Type 0) : Type 0 where
  pub signal_id : String
  pub timestamp : ℕ
  pub prediction : A
  pub confidence : A
  pub regime : String
  pub model_id : String
  pub validated : Bool
  pub quality : SignalQuality

pub data TradeStatus : Type 0 where
  opened closed : TradeStatus

pub record PnlTracking (A : Type 0) : Type 0 where
  pub signal_id : String
  pub entry_price : A
  pub quantity : A
  pub entry_time : ℕ
  pub exit_price : Option A
  pub exit_time : Option ℕ
  pub realized_pnl : Option A
  pub unrealized_pnl : A
  pub status : TradeStatus

pub record SignalValidator (A : Type 0) : Type 0 where
  pub min_confidence : A
  pub min_quality : SignalQuality
  pub signals : List (Signal A)
  pub paper_trades : Dict (PnlTracking A)
  pub performance_history : List A

-- the texts of `validation_checks`
pub data Check : Type 0 where
  low_confidence regime_mismatch : Check
  quality_below : SignalQuality → Check

unfoldable pub is_closed : TradeStatus → Bool
is_closed closed = true
is_closed opened = false

-- `quality.value < self.min_quality.value`
unfoldable pub below : SignalQuality → SignalQuality → Bool
unfolding value text_ltb
below quality min_quality = text_ltb (value quality) (value min_quality)

-- the quality for a `quality_score` in halves
unfoldable pub grade : ℕ → SignalQuality
grade halves =
    if leb 8 halves
    then excellent
    else if leb 6 halves
    then good
    else if leb 4 halves
    then fair
    else poor

abbrev pub no_checks : List Check → Bool
no_checks [] = true
no_checks (c ∷ cs) = false

module _ {A : Type 0} ⦃num : Number A⦄ where
  unfoldable pub init : A → SignalQuality → SignalValidator A
  init min_confidence min_quality = record {
    min_confidence = min_confidence;
    min_quality = min_quality;
    signals = [];
    paper_trades = [];
    performance_history = [];
  }

  -- `d.get(key, default)`
  abbrev pub get_or : String → A → Dict A → A
  get_or key default d = elim (lookup key d) [ none ↦ default | some x ↦ x ]

  abbrev pub is_win : PnlTracking A → Bool
  is_win t = elim t.realized_pnl [ none ↦ false | some pnl ↦ zero_num ≺ pnl ]

  -- `any(s.signal_id == t.signal_id for s in signals)`
  unfoldable pub has_signal : String → List (Signal A) → Bool
  has_signal id [] = false
  has_signal id (s ∷ ss) = if str_eq s.signal_id id then true else has_signal id ss

  -- the entry "win_rate" of `_get_recent_performance`
  unfoldable pub win_rate : String → SignalValidator A → A
  unfolding is_closed has_signal
  win_rate model_id v =
      let model_signals =
        keep (λ s. str_eq s.model_id model_id && s.validated) (last_n 50 v.signals) in
      let trades = keep (λ t. has_signal t.signal_id model_signals) (values v.paper_trades) in
      let completed = keep (λ t. is_closed t.status) trades in
      elim completed [
        | [] ↦ ratio 1 2
        | t ∷ ts ↦ ratio (length (keep is_win (t ∷ ts))) (length (t ∷ ts))
      ]

  -- the parts of `quality_score`, in halves
  unfoldable pub confidence_points : A → ℕ
  confidence_points c =
      if ratio 9 10 ≼ c then 4 else if ratio 7 10 ≼ c then 2 else if ratio 1 2 ≼ c then 1 else 0

  unfoldable pub points_below : A → A → A → ℕ
  points_below low high x = if x ≺ low then 2 else if x ≺ high then 1 else 0

  unfoldable pub market_points : Dict A → ℕ
  unfolding points_below
  market_points [] = 0
  market_points (e ∷ d) =
      points_below (ratio 2 100) (ratio 5 100) (get_or "volatility" (ratio 2 100) (e ∷ d))
      + points_below (ratio 1 10) (ratio 3 10) (get_or "spread_pct" (ratio 1 10) (e ∷ d))

  unfoldable pub record_points : A → ℕ
  record_points w = if ratio 55 100 ≺ w then 2 else if ratio 1 2 ≺ w then 1 else 0

  unfoldable pub quality_score : Signal A → Dict A → SignalValidator A → ℕ
  unfolding confidence_points market_points record_points win_rate
  quality_score s market v =
      confidence_points s.confidence + market_points market + record_points (win_rate s.model_id v)

  unfoldable pub assess_quality : Signal A → Dict A → SignalValidator A → SignalQuality
  unfolding quality_score
  assess_quality s market v = grade (quality_score s market v)

  -- the checks that fail, in the order of the code
  unfoldable pub failed_checks : Signal A → String → SignalQuality → SignalValidator A → List Check
  unfolding below
  failed_checks s current_regime quality v =
      (if s.confidence ≺ v.min_confidence then low_confidence ∷ [] else [])
      ++ (if str_eq s.regime current_regime then [] else regime_mismatch ∷ [])
      ++ (if below quality v.min_quality then quality_below quality ∷ [] else [])

  -- the validator, the validated signal, and the reasons against it
  unfoldable pub validate_signal :
      Signal A → String → Dict A → SignalValidator A → SignalValidator A × Signal A × List Check
  unfolding failed_checks assess_quality
  validate_signal s current_regime market v =
      let quality = assess_quality s market v in
      let checks = failed_checks s current_regime quality v in
      let s' = record s { validated = no_checks checks; quality = quality } in
      (record v { signals = v.signals ++ s' ∷ [] }, s', checks)
