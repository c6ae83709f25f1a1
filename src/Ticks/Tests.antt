-- ===== src/Ticks/Tests.antt =====
-- data_ingestion/tick_processor.py and data_ingestion/validators.py: runs on numbers with eight
-- decimals, and the theorems at concrete inputs.
use cto_test_ai_trading_bot.Prelude.{
  some, ℕ, ◌+◌, ◌*◌, ◌≡◌, refl, true, false, List, [], ◌∷◌, map, length, All,
}
use cto_test_ai_trading_bot.Prelude.Int.{ℤ, ◌+ℤ◌, ◌-ℤ◌, ◌*ℤ◌}
use cto_test_ai_trading_bot.Prelude.Fixed.{fixed, fixed_times, fixed_over, fixed-IsOrdered}
use cto_test_ai_trading_bot.Prelude.Dict.{lookup, insert}
use cto_test_ai_trading_bot.Prelude.Number.{ratio, larger, smaller, absolute}
use cto_test_ai_trading_bot.Ticks
use cto_test_ai_trading_bot.Ticks.{
  Tick, TickValidator, floor_div, same_bucket, current_bucket, new_bar, new_candle, extend_bar,
  add_to, add_tick, add_ticks, validate_candle, tick_key, is_suspicious, validate_tick,
  validate_ticks,
}
use cto_test_ai_trading_bot.Ticks.Aggregation.{trades_of, sum_trades, add_ticks_lem}
use cto_test_ai_trading_bot.Ticks.Validation.{validate_ticks_stuck}

program : Unit {0}
unfolding ◌+ℤ◌ ◌-ℤ◌ ◌*ℤ◌ fixed_times fixed_over lookup insert larger smaller absolute Ticks.init
    floor_div same_bucket current_bucket new_bar new_candle extend_bar add_to add_tick add_ticks
    validate_candle tick_key is_suspicious validate_tick validate_ticks
program = tt

-- a tick at a second, with a price
abbrev tick_at : ℕ → ℕ → Tick ℤ
tick_at second price = record {
  exchange = "binance";
  symbol = "BTC/USDT";
  timestamp_us = second * 1_000_000;
  price = ratio price 1;
  volume = ratio 1 1;
}

-- three ticks in the first minute, one in the next, and a late one
abbrev ticks : List (Tick ℤ)
ticks =
    tick_at 1000 100 ∷ tick_at 1010 105 ∷ tick_at 1059 98 ∷ tick_at 1060 99 ∷ tick_at 1001 100 ∷ []

-- the late tick closes the second minute early
candles :
    map (λ c. c.num_trades) (add_ticks ticks (Ticks.init "binance" "BTC/USDT" 60)).1 ≡ 3 ∷ 1 ∷ []
unfolding program
candles = refl

add_ticks_lem_example :
    let (g', cs) = add_ticks ticks (Ticks.init "binance" "BTC/USDT" 60) in
    All (λ c. validate_candle c ≡ true) cs × (sum_trades cs + trades_of g'.current ≡ length ticks)
unfolding program
add_ticks_lem_example =
    add_ticks_lem fixed-IsOrdered "binance" "BTC/USDT" 60 ticks
      (refl, (refl, (refl, (refl, (refl, tt)))))

-- the last price is 100
abbrev watching : TickValidator ℤ
watching = record { max_age_us = 60_000_000; last_prices = ("binance:BTC/USDT", ratio 100 1) ∷ [] }

-- the market moves to 120 and stays there
abbrev moved : List (Tick ℤ × ℕ)
moved =
    (tick_at 2000 120, 2_000_000_000)
    ∷ (tick_at 2001 120, 2_001_000_000)
    ∷ (tick_at 9000 121, 9_000_000_000)
    ∷ []

-- a new validator that accepted a tick at 100, and rejected one without a price and a stale one at 90
abbrev new_validator : TickValidator ℤ
new_validator = record { max_age_us = 60_000_000; last_prices = [] }

abbrev earlier : List (Tick ℤ × ℕ)
earlier =
    (tick_at 1000 100, 1_000_000_000)
    ∷ (tick_at 1001 0, 1_001_000_000)
    ∷ (tick_at 1002 90, 1_900_000_000)
    ∷ []

validate_ticks_stuck_example :
    (lookup "binance:BTC/USDT" (validate_ticks earlier new_validator).0.last_prices
      ≡ some (ratio 100 1))
    × (validate_ticks moved (validate_ticks earlier new_validator).0
        ≡ ((validate_ticks earlier new_validator).0, map (λ e. false) moved))
unfolding program
validate_ticks_stuck_example =
    validate_ticks_stuck "binance:BTC/USDT" (ratio 100 1) earlier moved new_validator refl refl
      ((refl, refl), ((refl, refl), ((refl, refl), tt)))
