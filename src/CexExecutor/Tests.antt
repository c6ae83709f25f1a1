-- ===== src/CexExecutor/Tests.antt =====
-- execution/cex_executor.py: runs of the live path on numbers with eight decimals, and its theorems
-- at concrete inputs.
use cto_test_ai_trading_bot.Prelude.{◌≡◌, refl, false, none, some, [], ◌∷◌, All, length}
use cto_test_ai_trading_bot.Prelude.Int.{ℤ, ◌+ℤ◌, ◌-ℤ◌}
use cto_test_ai_trading_bot.Prelude.Fixed.{fixed, fixed_times, fixed_over}
use cto_test_ai_trading_bot.Prelude.Number.{ratio, divide}
use cto_test_ai_trading_bot.RiskBreaker.{no_reason}
use cto_test_ai_trading_bot.Position.{TradingSignal, is_long}
use cto_test_ai_trading_bot.Prelude.Dict.{insert}
use cto_test_ai_trading_bot.RiskManager.{RiskManager, risk_based}
use cto_test_ai_trading_bot.RiskManager.Methods.{open_position}
use cto_test_ai_trading_bot.CexExecutor.{
  Answers, OrderInfo, OrderResult, missing, number, limit_order, cancel_order, market_order,
  order_failed, is_done, float_or, poll, side_of, wait_for_fill, place_live, result_of, conclude,
  finish, live_execute,
}
use cto_test_ai_trading_bot.CexExecutor.Live.{IsUnfilled, live_execute_market, live_execute_partial}

program : Unit {0}
unfolding ◌+ℤ◌ ◌-ℤ◌ fixed_times fixed_over divide is_long is_done float_or poll side_of
    wait_for_fill place_live result_of conclude finish live_execute open_position insert
program = tt

abbrev manager : RiskManager ℤ
manager = record {
  config = record {
    max_position_pct = ratio 2 100;
    risk_per_trade = ratio 1 100;
    sizing_method = risk_based;
    max_open = 2;
    leverage = ratio 1 1;
    max_spread_bps = ratio 10 1;
    max_atr_pct = ratio 5 100;
    max_exposure_per_symbol = ratio 10 100;
    cooldown_ms = 300_000;
    session_start = 0;
    session_end = 1439;
    atr_sl_multiplier = ratio 3 2;
    rr_ratio = ratio 2 1;
    stop_loss_pct = ratio 15 1000;
    stop_rules = record {
      breakeven_trigger_atr = ratio 1 1;
      trailing_activation_atr = ratio 2 1;
      trailing_distance_atr = ratio 1 1;
      max_hold_minutes = 0;
    };
    max_portfolio_var_pct = ratio 8 100;
    returns_window = 250;
    var_min_history = 30;
  };
  positions = [];
  equity = ratio 10_000 1;
  return_history = [];
  last_trade_time = [];
  killed = false;
  circuit_breaker = record {
    max_daily_loss = ratio 3 100;
    max_drawdown = ratio 10 100;
    pause_ms = 3_600_000;
    daily_loss = ratio 0 1;
    peak_equity = ratio 0 1;
    is_tripped = false;
    trip_reason = no_reason;
    trip_time = 0;
  };
}

abbrev signal : TradingSignal ℤ
signal = record {
  exchange = "kraken";
  symbol = "ETH/USDT";
  direction = "long";
  score = ratio 3 4;
  price = ratio 100 1;
  atr = ratio 1 1;
  stop_loss = ratio 98 1;
  take_profit = ratio 104 1;
  spread_bps = ratio 1 1;
}

-- an order with nothing filled, one that is filled in half, and one that is filled
abbrev waiting : OrderInfo ℤ
waiting = record {
  status = some "open";
  filled = number (ratio 0 1);
  average = missing;
  price = missing;
}

abbrev half : OrderInfo ℤ
half = record {
  status = some "open";
  filled = number (ratio 1 1);
  average = number (ratio 100 1);
  price = missing;
}

abbrev complete : OrderInfo ℤ
complete = record {
  status = some "closed";
  filled = number (ratio 2 1);
  average = number (ratio 101 1);
  price = missing;
}

abbrev slow : Answers ℤ
slow = record {
  limit_answer = some waiting;
  fetch_answers = some waiting ∷ none ∷ some waiting ∷ [];
  market_answer = some complete;
}

abbrev partial : Answers ℤ
partial = record {
  limit_answer = some waiting;
  fetch_answers = some half ∷ [];
  market_answer = none;
}

-- the market order is filled, and the position is opened
opened_at_market :
    length (live_execute signal (ratio 200 1) false slow 1000 manager).manager.positions ≡ 1
unfolding program
opened_at_market = refl

live_execute_market_example :
    All IsUnfilled slow.fetch_answers
    × ((live_execute signal (ratio 200 1) false slow 1000 manager).actions
        ≡ limit_order (side_of signal) (ratio 2 1) signal.price
          ∷ cancel_order
          ∷ market_order (side_of signal) (ratio 2 1)
          ∷ [])
unfolding program
live_execute_market_example =
    live_execute_market signal (ratio 200 1) (ratio 2 1) slow 1000 manager refl refl

live_execute_partial_example :
    let out = live_execute signal (ratio 200 1) false partial 1000 manager in
    (out.actions ≡ limit_order (side_of signal) (ratio 2 1) signal.price ∷ [])
    × (out.event ≡ some order_failed)
    × (out.manager ≡ manager)
    × (r : OrderResult ℤ) × (out.result ≡ some r)
    × (r.quantity ≡ ratio 1 1)
unfolding program
live_execute_partial_example =
    live_execute_partial signal (ratio 200 1) (ratio 2 1) (ratio 1 1) (ratio 100 1) half waiting []
      partial 1000 manager refl refl refl refl refl refl refl
