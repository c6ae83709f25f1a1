-- ===== src/Ticks/Aggregation.antt =====
-- data_ingestion/tick_processor.py: the candles that are made of ticks are valid, and no tick is lost.
use cto_test_ai_trading_bot.Prelude.{
  ℕ, suc, ◌+◌, ◌≡◌, sym, String, true, false, Option, none, some, List, [], ◌∷◌, arith,
  if◌then◌else◌, length, All, not,
}
use mathlib.Core.Path.{subst}
use cto_test_ai_trading_bot.Prelude.Int.{ℤ}
use cto_test_ai_trading_bot.Prelude.Number.{
  Number, IsOrdered, IsLe, IsLt, zero_num, larger, smaller, le-larger_left, le-larger_right,
  smaller-le_left, smaller-le_right,
}
use cto_test_ai_trading_bot.Ticks.{
  Tick, Candle, Bar, CandleAggregator, same_bucket, init, current_bucket, new_bar, new_candle,
  extend_bar, add_to, add_tick, add_ticks, validate_candle,
}

module _ {A : Type 0} ⦃num : Number A⦄ where
  pub record IsSound (c : Bar A) : Type 0 where
    pub low_open : IsLe c.low c.open_price
    pub low_close : IsLe c.low c.close
    pub open_high : IsLe c.open_price c.high
    pub close_high : IsLe c.close c.high
    pub open_positive : IsLt zero_num c.open_price
    pub close_positive : IsLt zero_num c.close

  abbrev pub IsSoundIfAny : Option (Bar A) → Type 0
  IsSoundIfAny none = Unit
  IsSoundIfAny (some c) = IsSound c

  -- the ticks in the current bar, and those in candles
  abbrev pub trades_of : Option (Bar A) → ℕ
  trades_of none = 0
  trades_of (some c) = c.num_trades

  abbrev pub sum_trades : List (Candle A) → ℕ
  sum_trades [] = 0
  sum_trades (c ∷ cs) = c.num_trades + sum_trades cs

  new_bar-IsSound :
      IsOrdered num → (bucket : ℤ) (t : Tick A) → IsLt zero_num t.price → IsSound (new_bar bucket t)
  unfolding new_bar
  new_bar-IsSound ord bucket t h = record {
    low_open = ord.lt_irrefl t.price;
    low_close = ord.lt_irrefl t.price;
    open_high = ord.lt_irrefl t.price;
    close_high = ord.lt_irrefl t.price;
    open_positive = h;
    close_positive = h;
  }

  extend_bar-IsSound :
      IsOrdered num
      → (t : Tick A) (c : Bar A) → IsLt zero_num t.price
      → IsSound c
      → IsSound (extend_bar t c)
  unfolding extend_bar
  extend_bar-IsSound ord t c h s = record {
    low_open =
        ord.le_trans (smaller c.low t.price) c.low c.open_price (smaller-le_left ord c.low t.price)
          s.low_open;
    low_close = smaller-le_right ord c.low t.price;
    open_high =
        ord.le_trans c.open_price c.high (larger c.high t.price) s.open_high
          (le-larger_left ord c.high t.price);
    close_high = le-larger_right ord c.high t.price;
    open_positive = s.open_positive;
    close_positive = h;
  }

  validate_candle-IsSound :
      IsOrdered num
      → (c : Bar A) (g : CandleAggregator A) → IsSound c
      → validate_candle (new_candle c g) ≡ true
  unfolding validate_candle new_candle larger smaller
  validate_candle-IsSound ord c g s =
      let straight = ord.le_trans c.low c.open_price c.high s.low_open s.open_high in
      ground (
        arith, straight, s.low_open, s.low_close, s.open_high, s.close_high, s.open_positive,
        s.close_positive,
      )

  current-current_bucket :
      (ts : ℕ) (g : CandleAggregator A) → (current_bucket ts g).0.current ≡ g.current
  unfolding current_bucket
  current-current_bucket ts g = ground arith

  -- A tick goes on from `n` trades in the bar to `m`, but for those of the candle that it completes.
  abbrev IsCounted : Option (Candle A) → ℕ → ℕ → Type 0
  IsCounted none n m = m ≡ n + 1
  IsCounted (some c) n m = (validate_candle c ≡ true) × (c.num_trades + m ≡ n + 1)

  -- What a step does to the bar and the candle
  abbrev IsAdded : Option (Bar A) → CandleAggregator A × Option (Candle A) → Type 0
  IsAdded before out =
      IsSoundIfAny out.0.current × IsCounted out.1 (trades_of before) (trades_of out.0.current)

  add_to_lem :
      IsOrdered num
      → (o : Option (Bar A)) (bucket : ℤ) (t : Tick A) (g : CandleAggregator A)
      → IsLt zero_num t.price
      → IsSoundIfAny o
      → IsAdded o (add_to o bucket t g)
  unfolding add_to new_bar new_candle extend_bar
  add_to_lem ord none bucket t g h s = (new_bar-IsSound ord bucket t h, omega arith)
  add_to_lem ord (some c) bucket t g h s =
      elim (not (same_bucket c.bucket bucket))
        as (λ b. IsAdded (some c) (
          if b
          then (record g { current = some (new_bar bucket t) }, some (new_candle c g))
          else (record g { current = some (extend_bar t c) }, none))) [
            | true ↦
                (new_bar-IsSound ord bucket t h, (validate_candle-IsSound ord c g s, omega arith))
            | false ↦ (extend_bar-IsSound ord t c h s, omega arith)
          ]

  add_tick_lem :
      IsOrdered num
      → (t : Tick A) (g : CandleAggregator A) → IsLt zero_num t.price
      → IsSoundIfAny g.current
      → IsAdded g.current (add_tick t g)
  unfolding add_tick
  add_tick_lem ord t g h s =
      let g' = (current_bucket t.timestamp_us g).0 in
      let bucket = (current_bucket t.timestamp_us g).1 in
      let same : g'.current ≡ g.current = current-current_bucket t.timestamp_us g in
      subst (λ o. IsAdded o (add_to g'.current bucket t g')) same
        (add_to_lem ord g'.current bucket t g' h (subst IsSoundIfAny (sym same) s))

  counted_lem :
      (o : Option (Candle A)) (cs : List (Candle A)) (k l m n : ℕ)
      → IsCounted o n m
      → All (λ c. validate_candle c ≡ true) cs
      → sum_trades cs + l ≡ k + m
      → let all : List (Candle A) = elim o [ none ↦ cs | some c ↦ c ∷ cs ] in
        All (λ c. validate_candle c ≡ true) all × (sum_trades all + l ≡ suc k + n)
  counted_lem none cs k l m n h valid e = (valid, omega arith)
  counted_lem (some c) cs k l m n h valid e = ((h.0, valid), omega (arith, h.1))

  add_ticks_sound :
      IsOrdered num
      → (ts : List (Tick A)) (g : CandleAggregator A) → All (λ t. IsLt zero_num t.price) ts
      → IsSoundIfAny g.current
      → let (g', cs) = add_ticks ts g in
        All (λ c. validate_candle c ≡ true) cs
        × (sum_trades cs + trades_of g'.current ≡ length ts + trades_of g.current)
  unfolding add_ticks
  add_ticks_sound ord [] g h s = (tt, omega arith)
  add_ticks_sound ord (t ∷ ts) g h s =
      let g' = (add_tick t g).0 in
      let (sound, counted) = add_tick_lem ord t g h.0 s in
      let (valid, sum) = add_ticks_sound ord ts g' h.1 sound in
      counted_lem (add_tick t g).1 (add_ticks ts g').1 (length ts)
        (trades_of (add_ticks ts g').0.current) (trades_of g'.current) (trades_of g.current) counted
        valid sum

  -- From a new aggregator, whatever the times of the ticks are and in whatever order they come, if
  -- their prices are positive then every candle that is completed passes the validator of candles,
  -- and the trades of the candles and of the bar in progress add up to the number of ticks.
  pub add_ticks_lem :
      IsOrdered num
      → (exchange symbol : String) (timeframe : ℕ) (ts : List (Tick A))
      → All (λ t. IsLt zero_num t.price) ts
      → let (g', cs) = add_ticks ts (init exchange symbol timeframe) in
        All (λ c. validate_candle c ≡ true) cs × (sum_trades cs + trades_of g'.current ≡ length ts)
  unfolding init
  add_ticks_lem ord exchange symbol timeframe ts h =
      let (valid, sum) = add_ticks_sound ord ts (init exchange symbol timeframe) h tt in
      (valid, omega (arith, sum))
