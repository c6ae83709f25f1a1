-- ===== src/SignalValidator/Trades.antt =====
-- engine/signal_validator.py: paper trades, the decay of the signals of a model, and the statistics.
-- `mean` and `std` are `np.mean` and `np.std`; `now` is the clock in milliseconds.
use cto_test_ai_trading_bot.Prelude.{
  ℕ, zero, suc, ◌-◌, ◌*◌, String, Bool, true, false, Option, none, some, List, [], ◌∷◌, map, ◌&&◌,
  ◌||◌, not, ltb, ◌==◌, if◌then◌else◌, length, keep, last_n, take, drop, push_bounded, str_eq,
}
use cto_test_ai_trading_bot.Prelude.Dict.{Dict, lookup, insert, values}
use cto_test_ai_trading_bot.Prelude.Number.{
  Number, ◌⊖◌, ◌⊗◌, ◌⊘◌, ◌≺◌, ratio, zero_num, negate, equal, total,
}
use cto_test_ai_trading_bot.SignalValidator.{
  Signal, SignalValidator, SignalQuality, PnlTracking, excellent, good, fair, poor, invalid, opened,
  closed, is_closed, below,
}

unfoldable pub same_quality : SignalQuality → SignalQuality → Bool
same_quality excellent excellent = true
same_quality good good = true
same_quality fair fair = true
same_quality poor poor = true
same_quality invalid invalid = true
same_quality _ _ = false

-- `exit_time or now`
unfoldable pub time_or : Option ℕ → ℕ → ℕ
time_or none now = now
time_or (some t) now = if t == 0 then now else t

-- `xs[-2*w:-w]`
unfoldable pub older_window {ℓ} : {A : Type ℓ} → ℕ → List A → List A
older_window zero xs = []
older_window (suc w) xs =
    let start = length xs - 2 * suc w in take (length xs - suc w - start) (drop start xs)

-- what `get_validation_statistics` returns of the paper trades; `win_rate` is `none` where its
-- division raises ZeroDivisionError
pub record TradeStats (A : Type 0) : Type 0 where
  pub total_trades : ℕ
  pub closed_trades : ℕ
  pub open_trades : ℕ
  pub win_rate : Option A
  pub avg_pnl : A
  pub total_pnl : A

pub record Statistics (A : Type 0) : Type 0 where
  pub total_signals : ℕ
  pub validated_signals : ℕ
  pub validation_rate : A
  pub quality_distribution : List (SignalQuality × ℕ)
  pub paper_trades : Option (TradeStats A)
  pub sharpe_ratio : Option A

module _ {A : Type 0} ⦃num : Number A⦄ where
  unfoldable pub new_trade : Signal A → A → A → PnlTracking A
  new_trade s entry_price quantity = record {
    signal_id = s.signal_id;
    entry_price = entry_price;
    quantity = quantity;
    entry_time = s.timestamp;
    exit_price = none;
    exit_time = none;
    realized_pnl = none;
    unrealized_pnl = zero_num;
    status = opened;
  }

  unfoldable pub start_paper_trade : Signal A → A → A → SignalValidator A → SignalValidator A × Bool
  unfolding below new_trade
  start_paper_trade s entry_price quantity v =
      if not s.validated || below s.quality v.min_quality then (v, false) else (
        record v {
          paper_trades = insert s.signal_id (new_trade s entry_price quantity) v.paper_trades;
        },
        true,
      )

  -- `_get_signal_direction(signal_id) == "long"`
  unfoldable pub is_long_signal : String → List (Signal A) → Bool
  is_long_signal id [] = true
  is_long_signal id (s ∷ ss) =
      if str_eq s.signal_id id then ratio 1 2 ≺ s.prediction else is_long_signal id ss

  -- `direction`
  unfoldable pub direction : String → SignalValidator A → A
  unfolding is_long_signal
  direction id v = if is_long_signal id v.signals then ratio 1 1 else negate (ratio 1 1)

  -- the profit of a trade at a price
  unfoldable pub pnl_at : A → PnlTracking A → A → A
  pnl_at price t dir = (price ⊖ t.entry_price) ⊗ t.quantity ⊗ dir

  unfoldable pub update_paper_trade :
      String → A → Bool → SignalValidator A → SignalValidator A × Option A
  unfolding is_closed direction pnl_at
  update_paper_trade id current_price update_unrealized v = elim (lookup id v.paper_trades) [
    | none ↦ (v, none)
    | some t ↦
        let pnl = pnl_at current_price t (direction id v) in
        if is_closed t.status
        then (v, none)
        else if update_unrealized
        then (
          record v { paper_trades = insert id (record t { unrealized_pnl = pnl }) v.paper_trades },
          some pnl,
        )
        else (v, some t.unrealized_pnl)
  ]

  -- the trade that is closed at a price
  unfoldable pub settled : A → A → ℕ → PnlTracking A → PnlTracking A
  settled pnl exit_price exit_time t = record t {
    realized_pnl = some pnl;
    exit_price = some exit_price;
    exit_time = some exit_time;
    status = closed;
  }

  unfoldable pub close_paper_trade :
      String → A → Option ℕ → ℕ → SignalValidator A → SignalValidator A × Option A
  unfolding is_closed direction pnl_at settled time_or
  close_paper_trade id exit_price exit_time now v = elim (lookup id v.paper_trades) [
    | none ↦ (v, none)
    | some t ↦
        let pnl = pnl_at exit_price t (direction id v) in
        if is_closed t.status then (v, none) else (
          record v {
            paper_trades =
                insert id (settled pnl exit_price (time_or exit_time now) t) v.paper_trades;
            performance_history = push_bounded 1000 pnl v.performance_history;
          },
          some pnl,
        )
  ]

  unfoldable pub quality_to_score : SignalQuality → A
  quality_to_score excellent = ratio 1 1
  quality_to_score good = ratio 3 4
  quality_to_score fair = ratio 1 2
  quality_to_score poor = ratio 1 4
  quality_to_score invalid = ratio 0 1

  abbrev pub validated_of : String → SignalValidator A → List (Signal A)
  validated_of model_id v = keep (λ s. str_eq s.model_id model_id && s.validated) v.signals

  abbrev pub scores : List (Signal A) → List A
  scores = map (λ s. quality_to_score s.quality)

  -- the counts over `SignalQuality`, in the order of its members
  unfoldable pub distribution : List (Signal A) → List (SignalQuality × ℕ)
  unfolding same_quality
  distribution ss =
      map (λ q. (q, length (keep (λ s. same_quality s.quality q) ss)))
        (excellent ∷ good ∷ fair ∷ poor ∷ invalid ∷ [])

  -- the realized results, `t.realized_pnl is not None`
  unfoldable pub realized : List (PnlTracking A) → List A
  realized [] = []
  realized (t ∷ ts) =
      let rest = realized ts in elim t.realized_pnl [ none ↦ rest | some pnl ↦ pnl ∷ rest ]

  module _ (mean : List A → A) (std : List A → A) where
    unfoldable pub detect_signal_decay : String → ℕ → A → SignalValidator A → Bool
    unfolding older_window quality_to_score
    detect_signal_decay model_id window threshold v =
        let model_signals = validated_of model_id v in
        let recent_avg = mean (scores (last_n window model_signals)) in
        let older_avg = mean (scores (older_window window model_signals)) in
        let decline =
          if zero_num ≺ older_avg then (older_avg ⊖ recent_avg) ⊘ older_avg else zero_num in
        if ltb (length model_signals) (window * 2) then false else threshold ≺ decline

    unfoldable pub calculate_sharpe_ratio : A → SignalValidator A → Option A
    calculate_sharpe_ratio risk_free_rate v =
        if ltb (length v.performance_history) 30
        then none
        else if equal (std v.performance_history) zero_num
        then none
        else some ((mean v.performance_history ⊖ risk_free_rate) ⊘ std v.performance_history)

    -- the block of the paper trades
    unfoldable pub trade_stats : Dict (PnlTracking A) → TradeStats A
    unfolding is_closed realized
    trade_stats d =
        let all = length d in
        let done = length (keep (λ t. is_closed t.status) (values d)) in
        let pnls = realized (values d) in
        let wins = length (keep (λ pnl. zero_num ≺ pnl) pnls) in
        record {
          total_trades = all;
          closed_trades = done;
          open_trades = all - done;
          win_rate =
              if ltb 0 done
              then if length pnls == 0 then none else some (ratio wins (length pnls))
              else some (ratio 1 2);
          avg_pnl = if ltb 0 done then mean pnls else zero_num;
          total_pnl = if ltb 0 done then total pnls else zero_num;
        }

    -- `none` is the empty dictionary, for a validator without signals
    unfoldable pub get_validation_statistics : SignalValidator A → Option (Statistics A)
    unfolding distribution trade_stats calculate_sharpe_ratio
    get_validation_statistics v =
        let validated = keep (λ s. s.validated) v.signals in
        if length v.signals == 0
        then none
        else some record {
          total_signals = length v.signals;
          validated_signals = length validated;
          validation_rate = ratio (length validated) (length v.signals);
          quality_distribution = distribution validated;
          paper_trades =
              if length v.paper_trades == 0 then none else some (trade_stats v.paper_trades);
          sharpe_ratio = calculate_sharpe_ratio (ratio 2 100) v;
        }
