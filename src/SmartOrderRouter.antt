-- ===== src/SmartOrderRouter.antt =====
-- execution/smart_order_router.py: class `SmartOrderRouter`, its data and the scoring of venues. An
-- executor is given by whether it is there; what it answers is an argument: `book` is the snapshot
-- of the order book of a venue, `none` if the call raises. `infinity` is float('inf'). The clock is
-- in milliseconds.
pub mod Methods
pub mod Routing
pub mod Decision
pub mod Execution
mod Tests
use cto_test_ai_trading_bot.Prelude.{
  ℕ, ◌+◌, Bool, true, false, Option, none, some, List, [], ◌∷◌, ◌++◌, map, foldl, ltb,
  if◌then◌else◌, keep, take, ◌>>=◌,
}
use cto_test_ai_trading_bot.Prelude.Number.{
  Number, ◌⊕◌, ◌⊖◌, ◌⊗◌, ◌⊘◌, ratio, zero_num, larger, smaller, total, divide,
}

pub data Venue : Type 0 where
  binance bybit okx hyperliquid : Venue

unfoldable pub same_venue : Venue → Venue → Bool
same_venue binance binance = true
same_venue bybit bybit = true
same_venue okx okx = true
same_venue hyperliquid hyperliquid = true
same_venue _ _ = false

pub record VenueScore (A : Type 0) : Type 0 where
  pub venue : Venue
  pub score : A
  pub liquidity : A
  pub spread : A
  pub fee : A
  pub latency_ms : A
  pub reliability : A

pub record Route (A : Type 0) : Type 0 where
  pub venue : Venue
  pub quantity : A
  pub expected_fill_price : A
  pub estimated_cost : A
  pub execution_time_ms : A
  pub score : A

pub record RoutingDecision (A : Type 0) : Type 0 where
  pub routes : List (Route A)
  pub total_quantity : A
  pub expected_avg_price : A
  pub total_cost : A
  pub recommended_venue : Venue
  pub confidence : A

pub record Weights (A : Type 0) : Type 0 where
  pub liquidity_weight : A
  pub spread_weight : A
  pub fee_weight : A
  pub latency_weight : A
  pub reliability_weight : A

-- the dictionary `executors`: which of the three it holds
pub record Executors : Type 0 where
  pub binance_executor : Bool
  pub bybit_executor : Bool
  pub okx_executor : Bool

pub record SmartOrderRouter (A : Type 0) : Type 0 where
  pub executors : Executors
  pub venue_scores : List (Venue × VenueScore A)
  pub routing_weights : Weights A
  pub last_score_refresh : ℕ

pub record Level (A : Type 0) : Type 0 where
  pub price : A
  pub quantity : A

pub record Snapshot (A : Type 0) : Type 0 where
  pub bids : List (Level A)
  pub asks : List (Level A)

-- `self.executors.get(venue)` is there
unfoldable pub has_executor : Venue → Executors → Bool
has_executor binance e = e.binance_executor
has_executor bybit e = e.bybit_executor
has_executor okx e = e.okx_executor
has_executor hyperliquid e = false

-- the venues with an executor, in the order of the dictionary
unfoldable pub active_venues : Executors → List Venue
unfolding has_executor
active_venues e = keep (λ v. has_executor v e) (binance ∷ bybit ∷ okx ∷ [])

module _ {A : Type 0} ⦃num : Number A⦄ where
  unfoldable pub init : Executors → SmartOrderRouter A
  init executors = record {
    executors = executors;
    venue_scores = [];
    routing_weights = record {
      liquidity_weight = ratio 35 100;
      spread_weight = ratio 25 100;
      fee_weight = ratio 15 100;
      latency_weight = ratio 15 100;
      reliability_weight = ratio 10 100;
    };
    last_score_refresh = 0;
  }

  unfoldable pub venue_fee : Venue → A
  venue_fee binance = ratio 1 1000
  venue_fee bybit = ratio 1 1000
  venue_fee okx = ratio 8 10_000
  venue_fee hyperliquid = ratio 25 100_000

  unfoldable pub venue_latency : Venue → A
  venue_latency binance = ratio 50 1
  venue_latency bybit = ratio 45 1
  venue_latency okx = ratio 60 1
  venue_latency hyperliquid = ratio 100 1

  unfoldable pub venue_reliability : Venue → A
  venue_reliability binance = ratio 99 100
  venue_reliability bybit = ratio 97 100
  venue_reliability okx = ratio 96 100
  venue_reliability hyperliquid = ratio 90 100

  module _ (infinity : A) where
    -- the score of a venue without an executor, or whose executor raises
    unfoldable pub no_score : Venue → VenueScore A
    no_score v = record {
      venue = v;
      score = zero_num;
      liquidity = zero_num;
      spread = infinity;
      fee = zero_num;
      latency_ms = infinity;
      reliability = zero_num;
    }

    -- `spread` and `spread_pct`; `none` is a ZeroDivisionError
    unfoldable pub spread_of : Snapshot A → Option (A × A)
    spread_of s = elim s.bids [
      | [] ↦ some (infinity, infinity)
      | bid ∷ _ ↦ elim s.asks [
        | [] ↦ some (infinity, infinity)
        | ask ∷ _ ↦ do
          let spread = ask.price ⊖ bid.price
          relative ← divide spread ((bid.price ⊕ ask.price) ⊘ ratio 2 1)
          some (spread, relative ⊗ ratio 100 1)
      ]
    ]

    -- the weighted sum, for the values of a venue
    unfoldable pub weigh : Weights A → A → A → A → A → A → A
    weigh w liquidity spread_pct fee latency reliability =
        w.liquidity_weight ⊗ smaller (liquidity ⊘ ratio 1000 1) (ratio 1 1)
        ⊕ w.spread_weight ⊗ larger zero_num (ratio 1 1 ⊖ spread_pct ⊘ ratio 1 10)
        ⊕ w.fee_weight ⊗ larger zero_num (ratio 1 1 ⊖ fee ⊘ ratio 1 100)
        ⊕ w.latency_weight ⊗ larger zero_num (ratio 1 1 ⊖ latency ⊘ ratio 1000 1)
        ⊕ w.reliability_weight ⊗ reliability

    -- the block `try` for a snapshot, for its spread
    unfoldable pub scored : Weights A → Venue → Snapshot A → A × A → VenueScore A
    unfolding weigh venue_fee venue_latency venue_reliability
    scored w v s (spread, spread_pct) =
        let liquidity = total (map (λ l. l.quantity) (take 5 s.bids ++ take 5 s.asks)) in
        record {
          venue = v;
          score =
              weigh w liquidity spread_pct (venue_fee v) (venue_latency v) (venue_reliability v);
          liquidity = liquidity;
          spread = spread;
          fee = venue_fee v;
          latency_ms = venue_latency v;
          reliability = venue_reliability v;
        }

    -- `_calculate_venue_score` for a venue that has an executor
    unfoldable pub calculate_venue_score :
        Weights A → (Venue → Option (Snapshot A)) → Venue → VenueScore A
    unfolding no_score spread_of scored
    calculate_venue_score w book v = elim (book v) [
      | none ↦ no_score v
      | some s ↦ elim (spread_of s) [ none ↦ no_score v | some p ↦ scored w v s p ]
    ]
