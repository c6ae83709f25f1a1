-- ===== src/Ticks.antt =====
-- data_ingestion/tick_processor.py, data_ingestion/validators.py and the data of
-- data_ingestion/normalizer.py: ticks, the candles that the Python path of `CandleAggregator` makes of
-- them, and the validators of both. A timeframe is positive. Buckets are seconds; they are signed,
-- since a late tick may lie before the first bucket.
pub mod Aggregation
pub mod Validation
mod Tests
use cto_test_ai_trading_bot.Prelude.{
  ℕ, ◌+◌, ◌*◌, ◌/◌, String, Bool, true, false, Option, none, some, List, [], ◌∷◌, ◌&&◌, ◌||◌, not,
  ltb, if◌then◌else◌, str_append,
}
use cto_test_ai_trading_bot.Prelude.Int.{ℤ, pos, negsuc, sub_ℕ, ltb_ℤ, ◌+ℤ◌, ◌*ℤ◌}
use cto_test_ai_trading_bot.Prelude.Dict.{Dict, lookup, insert}
use cto_test_ai_trading_bot.Prelude.Number.{
  Number, ◌⊕◌, ◌⊖◌, ◌⊘◌, ◌≺◌, ◌≼◌, ratio, zero_num, absolute, larger, smaller,
}

-- the fields of a tick that the code below reads
pub record Tick (A : Type 0) : Type 0 where
  pub exchange : String
  pub symbol : String
  pub timestamp_us : ℕ
  pub price : A
  pub volume : A

pub record Candle (A : Type 0) : Type 0 where
  pub exchange : String
  pub symbol : String
  pub timeframe_seconds : ℕ
  pub timestamp : ℤ
  pub open_price : A
  pub high : A
  pub low : A
  pub close : A
  pub volume : A
  pub num_trades : ℕ

-- the dictionary `_current`
pub record Bar (A : Type 0) : Type 0 where
  pub bucket : ℤ
  pub open_price : A
  pub high : A
  pub low : A
  pub close : A
  pub volume : A
  pub num_trades : ℕ

pub record CandleAggregator (A : Type 0) : Type 0 where
  pub exchange : String
  pub symbol : String
  pub timeframe_seconds : ℕ
  pub current : Option (Bar A)
  pub start_bucket : Option ℕ

pub record TickValidator (A : Type 0) : Type 0 where
  pub max_age_us : ℕ
  pub last_prices : Dict A

-- `a // n`, which rounds down
unfoldable pub floor_div : ℤ → ℕ → ℤ
floor_div (pos a) n = pos (a / n)
floor_div (negsuc a) n = negsuc (a / n)

-- `a == b`
unfoldable pub same_bucket : ℤ → ℤ → Bool
same_bucket a b = not (ltb_ℤ a b) && not (ltb_ℤ b a)

module _ {A : Type 0} where
  unfoldable pub init : String → String → ℕ → CandleAggregator A
  init exchange symbol timeframe = record {
    exchange = exchange;
    symbol = symbol;
    timeframe_seconds = timeframe;
    current = none;
    start_bucket = none;
  }

  unfoldable pub current_bucket : ℕ → CandleAggregator A → CandleAggregator A × ℤ
  unfolding floor_div
  current_bucket ts_us g =
      let ts_s = ts_us / 1_000_000 in
      elim g.start_bucket [
        | none ↦ (record g { start_bucket = some ts_s }, pos ts_s)
        | some start ↦ (
          g,
          pos start +ℤ floor_div (sub_ℕ ts_s start) g.timeframe_seconds *ℤ pos g.timeframe_seconds,
        )
      ]

  unfoldable pub new_bar : ℤ → Tick A → Bar A
  new_bar bucket t = record {
    bucket = bucket;
    open_price = t.price;
    high = t.price;
    low = t.price;
    close = t.price;
    volume = t.volume;
    num_trades = 1;
  }

  unfoldable pub new_candle : Bar A → CandleAggregator A → Candle A
  new_candle c g = record {
    exchange = g.exchange;
    symbol = g.symbol;
    timeframe_seconds = g.timeframe_seconds;
    timestamp = c.bucket;
    open_price = c.open_price;
    high = c.high;
    low = c.low;
    close = c.close;
    volume = c.volume;
    num_trades = c.num_trades;
  }

module _ {A : Type 0} ⦃num : Number A⦄ where
  -- the branch for a tick of the current bucket
  unfoldable pub extend_bar : Tick A → Bar A → Bar A
  extend_bar t c = record c {
    high = larger c.high t.price;
    low = smaller c.low t.price;
    close = t.price;
    volume = c.volume ⊕ t.volume;
    num_trades = c.num_trades + 1;
  }

  -- `_add_tick_python` after the bucket is known
  unfoldable pub add_to :
      Option (Bar A) → ℤ → Tick A → CandleAggregator A → CandleAggregator A × Option (Candle A)
  unfolding new_bar new_candle extend_bar same_bucket
  add_to none bucket t g = (record g { current = some (new_bar bucket t) }, none)
  add_to (some c) bucket t g =
      if not (same_bucket c.bucket bucket)
      then (record g { current = some (new_bar bucket t) }, some (new_candle c g))
      else (record g { current = some (extend_bar t c) }, none)

  -- `_add_tick_python`
  unfoldable pub add_tick : Tick A → CandleAggregator A → CandleAggregator A × Option (Candle A)
  unfolding add_to current_bucket
  add_tick t g = let (g', bucket) = current_bucket t.timestamp_us g in add_to g'.current bucket t g'

  -- ticks in turn, and the candles that they complete
  unfoldable pub add_ticks :
      List (Tick A) → CandleAggregator A → CandleAggregator A × List (Candle A)
  unfolding add_tick
  add_ticks [] g = (g, [])
  add_ticks (t ∷ ts) g =
      let (g', done) = add_tick t g in
      let (g'', rest) = add_ticks ts g' in (g'', elim done [ none ↦ rest | some c ↦ c ∷ rest ])

  -- `CandleValidator.validate`
  unfoldable pub validate_candle : Candle A → Bool
  validate_candle c =
      if c.high ≺ c.low
      then false
      else if c.open_price ≼ zero_num || c.close ≼ zero_num
      then false
      else if c.high ≺ larger c.open_price c.close
      then false
      else if smaller c.open_price c.close ≺ c.low
      then false
      else true

  unfoldable pub tick_key : Tick A → String
  tick_key t = str_append t.exchange (str_append ":" t.symbol)

  -- the test of the price against the last one
  unfoldable pub is_suspicious : Option A → A → Bool
  is_suspicious none price = false
  is_suspicious (some last) price = zero_num ≺ last && ratio 10 100 ≺ absolute (price ⊖ last) ⊘ last

  -- `TickValidator.validate`, at a time
  unfoldable pub validate_tick : Tick A → ℕ → TickValidator A → TickValidator A × Bool
  unfolding is_suspicious tick_key
  validate_tick t now_us v =
      if t.price ≼ zero_num
      then (v, false)
      else if t.volume ≺ zero_num
      then (v, false)
      else if ltb (t.timestamp_us + v.max_age_us) now_us
      then (v, false)
      else if is_suspicious (lookup (tick_key t) v.last_prices) t.price
      then (v, false)
      else (record v { last_prices = insert (tick_key t) t.price v.last_prices }, true)

  -- ticks in turn, each at its time, and the answers
  unfoldable pub validate_ticks : List (Tick A × ℕ) → TickValidator A → TickValidator A × List Bool
  unfolding validate_tick
  validate_ticks [] v = (v, [])
  validate_ticks (e ∷ es) v =
      let (v', ok) = validate_tick e.0 e.1 v in
      let (v'', rest) = validate_ticks es v' in (v'', ok ∷ rest)

  -- `OrderBookValidator.validate` on the prices of the two sides
  unfoldable pub validate_book : List A → List A → Bool
  validate_book [] asks = false
  validate_book (bid ∷ _) [] = false
  validate_book (bid ∷ _) (ask ∷ _) =
      if bid ≼ zero_num || ask ≼ zero_num then false else if ask ≼ bid then false else true
