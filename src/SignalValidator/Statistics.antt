-- ===== src/SignalValidator/Statistics.antt =====
-- engine/signal_validator.py: the statistics of the validator and the windows of the decay test.
use cto_test_ai_trading_bot.Prelude.{
  ℕ, zero, suc, ◌+◌, ◌-◌, ◌*◌, ◌≤◌, ◌<◌, ◌≡◌, refl, sym, ap, ◌∙◌, String, true, false, some, List,
  [], ◌∷◌, ◌++◌, arith, if◌then◌else◌, length, All, keep, take, drop, last_n, ◌==◌, is_some,
  length-keep-le, length-drop,
}
use cto_test_ai_trading_bot.Prelude.Dict.{Dict, values}
use cto_test_ai_trading_bot.Prelude.Number.{Number, ◌≺◌, ◌⊖◌, ◌⊘◌, zero_num}
use cto_test_ai_trading_bot.SignalValidator.{
  Signal, SignalValidator, SignalQuality, PnlTracking, is_closed,
}
use cto_test_ai_trading_bot.SignalValidator.Trades.{
  same_quality, distribution, realized, trade_stats, get_validation_statistics, older_window,
  Statistics, TradeStats, detect_signal_decay, validated_of, scores,
}
use cto_test_ai_trading_bot.SignalValidator.Invariant.{IsSettled, IsValid}

-- `sum` of the counts
abbrev pub sum_counts : List (SignalQuality × ℕ) → ℕ
sum_counts [] = 0
sum_counts (e ∷ es) = e.1 + sum_counts es

module _ {ℓ} {X : Type ℓ} where
  length-values : (d : Dict X) → length (values d) ≡ length d
  length-values [] = refl
  length-values (e ∷ d) = ap suc (length-values d)

  take-drop : (n : ℕ) (xs : List X) → take n xs ++ drop n xs ≡ xs
  take-drop zero xs = refl
  take-drop (suc n) [] = refl
  take-drop (suc n) (x ∷ xs) = ap (◌∷◌ x) (take-drop n xs)

  drop-nil : (n : ℕ) → drop {A = X} n [] ≡ []
  drop-nil zero = refl
  drop-nil (suc n) = refl

  drop-drop : (m n : ℕ) (xs : List X) → drop m (drop n xs) ≡ drop (n + m) xs
  drop-drop m zero xs = let sum : m ≡ 0 + m = omega arith in ap (λ k. drop k xs) sum
  drop-drop m (suc n) [] = drop-nil m ∙ sym (drop-nil (suc n + m))
  drop-drop m (suc n) (x ∷ xs) =
      let sum : suc (n + m) ≡ suc n + m = omega arith in
      drop-drop m n xs ∙ ap (λ k. drop k (x ∷ xs)) sum

  length-take : (n : ℕ) (xs : List X) → n ≤ length xs → length (take n xs) ≡ n
  length-take zero xs h = refl
  length-take (suc n) [] h = elim h [ ]
  length-take (suc n) (x ∷ xs) h = ap suc (length-take n xs (omega arith))

  -- the two windows are the last entries, split in the middle
  windows_lem :
      (w : ℕ) (xs : List X)
      → 0 < w
      → w * 2 ≤ length xs
      → (length (older_window w xs) ≡ w)
        × (length (last_n w xs) ≡ w)
        × (older_window w xs ++ last_n w xs ≡ drop (length xs - w * 2) xs)
  unfolding older_window
  windows_lem zero xs p h = elim p [ ]
  windows_lem (suc w) xs p h =
      let start = length xs - 2 * suc w in
      let size : length xs - suc w - start ≡ suc w = omega arith in
      let place : start + suc w ≡ length xs - suc w = omega arith in
      let same : start ≡ length xs - suc w * 2 = omega arith in
      let recent : drop (suc w) (drop start xs) ≡ drop (length xs - suc w) xs =
        drop-drop (suc w) start xs ∙ ap (λ n. drop n xs) place in
      (
        rw size (length-take (suc w) (drop start xs) (omega (arith, length-drop start xs))),
        omega (arith, length-drop (length xs - suc w) xs),
        ap (λ n. take n (drop start xs) ++ drop (length xs - suc w) xs) size
            ∙ ap (λ l. take (suc w) (drop start xs) ++ l) (sym recent)
            ∙ take-drop (suc w) (drop start xs)
            ∙ ap (λ n. drop n xs) same,
      )

module _ {A : Type 0} ⦃num : Number A⦄ where
  -- Every validated signal is counted under exactly one quality.
  sum_counts-distribution : (ss : List (Signal A)) → sum_counts (distribution ss) ≡ length ss
  unfolding distribution same_quality
  sum_counts-distribution [] = refl
  sum_counts-distribution (s ∷ ss) = ground (arith, sum_counts-distribution ss)

  length-realized :
      (d : Dict (PnlTracking A))
      → All IsSettled d
      → length (realized (values d)) ≡ length (keep (λ t. is_closed t.status) (values d))
  unfolding realized
  length-realized [] h = refl
  length-realized ((id, t) ∷ d) h = ground (arith, length-realized d h.1, h.0.result)

  trade_stats_lem :
      (mean std : List A → A) (d : Dict (PnlTracking A))
      → All IsSettled d
      → let ts = trade_stats mean std d in
        (ts.closed_trades + ts.open_trades ≡ ts.total_trades) × (is_some ts.win_rate ≡ true)
  unfolding trade_stats
  trade_stats_lem mean std d h =
      let counted = length-realized d h in
      let few = length-keep-le (λ (t : PnlTracking A). is_closed t.status) (values d) in
      let all : length (values d) ≡ length d = length-values d in (omega arith, ground arith)

  -- In the statistics of a valid validator that has paper trades, the counts of the qualities add up
  -- to the number of validated signals, which is at most the number of all; closed and open trades
  -- add up to all trades; and the division of the win rate is never one by zero.
  pub get_validation_statistics_lem :
      (mean std : List A → A) (v : SignalValidator A) (st : Statistics A) (ts : TradeStats A)
      → IsValid v
      → get_validation_statistics mean std v ≡ some st
      → st.paper_trades ≡ some ts
      → (sum_counts st.quality_distribution ≡ st.validated_signals)
        × (st.validated_signals ≤ st.total_signals)
        × (ts.closed_trades + ts.open_trades ≡ ts.total_trades)
        × (is_some ts.win_rate ≡ true)
  unfolding get_validation_statistics
  get_validation_statistics_lem mean std v st ts h e f =
      let validated = keep (λ s. s.validated) v.signals in
      let some_signals : (length v.signals == 0) ≡ false = ground arith in
      let of_trades = trade_stats_lem mean std v.paper_trades h.trades in
      (
        ground (arith, sum_counts-distribution validated),
        ground (arith, length-keep-le (λ s. s.validated) v.signals),
        ground (arith, of_trades.0),
        ground (arith, of_trades.1),
      )

  -- Once a model has validated signals for two windows, the decay test compares the mean scores of
  -- two windows of that size, which together are the last of these signals in their order, and it
  -- is positive if the relative decline exceeds the threshold, and only then.
  pub detect_signal_decay_lem :
      (mean std : List A → A) (model_id : String) (window : ℕ) (threshold : A)
      (v : SignalValidator A)
      → 0 < window
      → window * 2 ≤ length (validated_of model_id v)
      → let ss = validated_of model_id v in
        let older = older_window window ss in
        let recent = last_n window ss in
        let base = mean (scores older) in
        let decline = if zero_num ≺ base then (base ⊖ mean (scores recent)) ⊘ base else zero_num in
        (length older ≡ window)
        × (length recent ≡ window)
        × (older ++ recent ≡ drop (length ss - window * 2) ss)
        × (detect_signal_decay mean std model_id window threshold v ≡ (threshold ≺ decline))
  unfolding detect_signal_decay
  detect_signal_decay_lem mean std model_id window threshold v p enough =
      let (old, new, whole) = windows_lem window (validated_of model_id v) p enough in
      (old, new, whole, ground arith)
