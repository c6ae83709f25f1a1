-- ===== src/RiskManager/Examples.antt =====
-- execution/risk_manager.py: a manager without positions and one with a position, for the examples.
use cto_test_ai_trading_bot.Prelude.{ℕ, false, List, [], ◌∷◌}
use cto_test_ai_trading_bot.Prelude.Int.{ℤ}
use cto_test_ai_trading_bot.Prelude.Fixed.{fixed}
use cto_test_ai_trading_bot.Prelude.Number.{ratio}
use cto_test_ai_trading_bot.RiskBreaker
use cto_test_ai_trading_bot.Position.{TradingSignal, Position}
use cto_test_ai_trading_bot.RiskManager.{RiskManager, RiskConfig, risk_based}

-- whole numbers of the currency
abbrev pub units : ℕ → ℤ
units n = ratio n 1

-- the configuration of the unit tests of the repository
abbrev pub config : RiskConfig ℤ
config = record {
  max_position_pct = ratio 2 100;
  risk_per_trade = ratio 1 100;
  sizing_method = risk_based;
  max_open = 2;
  leverage = units 1;
  max_spread_bps = units 10;
  max_atr_pct = ratio 5 100;
  max_exposure_per_symbol = ratio 10 100;
  cooldown_ms = 300_000;
  session_start = 540;
  session_end = 1020;
  atr_sl_multiplier = ratio 3 2;
  rr_ratio = units 2;
  stop_loss_pct = ratio 15 1000;
  stop_rules = record {
    breakeven_trigger_atr = units 1;
    trailing_activation_atr = units 2;
    trailing_distance_atr = units 1;
    max_hold_minutes = 0;
  };
  max_portfolio_var_pct = ratio 8 100;
  returns_window = 250;
  var_min_history = 30;
}

abbrev pub start : RiskManager ℤ
start = record {
  config = config;
  positions = [];
  equity = units 100_000;
  return_history = [];
  last_trade_time = [];
  killed = false;
  circuit_breaker = record {
    max_daily_loss = ratio 3 100;
    max_drawdown = ratio 10 100;
    pause_ms = 3_600_000;
    daily_loss = units 0;
    peak_equity = units 0;
    is_tripped = false;
    trip_reason = RiskBreaker.no_reason;
    trip_time = 0;
  };
}

abbrev pub signal : TradingSignal ℤ
signal = record {
  exchange = "binance";
  symbol = "BTC/USDT";
  direction = "long";
  score = ratio 3 4;
  price = units 50_000;
  atr = units 500;
  stop_loss = units 49_250;
  take_profit = units 51_500;
  spread_bps = units 2;
}

-- a stand-in for the percentile
abbrev pub first_of_sorted : List ℤ → ℤ → ℤ
first_of_sorted xs q = units 0

abbrev pub held : Position ℤ
held = record {
  exchange = "binance";
  symbol = "BTC/USDT";
  direction = "long";
  size = ratio 4 100;
  entry_price = units 50_000;
  current_price = units 50_500;
  stop_loss = units 49_250;
  take_profit = units 51_500;
  open_time = 400;
  pnl = units 0;
  pnl_pct = units 0;
  trailing_active = false;
  trailing_stop = units 0;
  breakeven_moved = false;
  highest_since_entry = units 50_500;
  lowest_since_entry = units 50_000;
}

abbrev pub invested : RiskManager ℤ
invested = record start { positions = ("binance:BTC/USDT", held) ∷ [] }
