-- ===== src/ConfigRoutes.antt =====
-- interface/routes/config.py: the handlers of the configuration API. The state is the attached parts,
-- each of which may be missing, and the module's variables. `percentile`, `mean` and `percent` are as in
-- RiskManager.Reports.
pub mod Settings
pub mod Live
pub mod Readback
mod Tests
use cto_test_ai_trading_bot.Prelude.{
  ℕ, zero, suc, ◌+◌, ◌*◌, String, Bool, true, false, not, Option, none, some, List, [], ◌∷◌, map,
  ◌&&◌, if◌then◌else◌, take, length, push_bounded, str_eq,
}
use mathlib.Core.List.{reverse}
use cto_test_ai_trading_bot.Prelude.Int.{ℤ, pos, negsuc}
use cto_test_ai_trading_bot.Prelude.Dict.{get_or, Dict, lookup, insert}
use cto_test_ai_trading_bot.Prelude.Number.{
  Number, ◌⊕◌, ◌⊗◌, ◌⊘◌, ◌≺◌, ratio, zero_num, larger, smaller,
}
use cto_test_ai_trading_bot.Order.{Order}
use cto_test_ai_trading_bot.OrderManager.{OrderManager}
use cto_test_ai_trading_bot.OrderManager.Queries.{get_open_orders}
use cto_test_ai_trading_bot.RiskManager.{RiskManager}
use cto_test_ai_trading_bot.RiskManager.Reports.{RiskSnapshot, get_risk_snapshot}
use cto_test_ai_trading_bot.Config.{
  Value, Entries, table, end, entry, find, get_value, truthy, paper_mode,
}
use cto_test_ai_trading_bot.Http as Http
use cto_test_ai_trading_bot.Http.{ok, http_error}
use cto_test_ai_trading_bot.OrderRoutes.{slice}

pub data TradingMode : Type 0 where
  paper live simulation : TradingMode

pub record AlgoConfig (A : Type 0) : Type 0 where
  pub enabled : Bool
  pub max_position_size : A
  pub max_risk_per_trade : A
  pub max_daily_loss : A
  pub max_positions : ℤ

pub data ConnectionStatus : Type 0 where
  disabled connected degraded : ConnectionStatus

pub record VenueConfig (A : Type 0) : Type 0 where
  pub name : String
  pub enabled : Bool
  pub api_keys_configured : Bool
  pub connection_status : ConnectionStatus
  pub latency_ms : A

-- an entry of the history, by its type and payload
pub data Change (A : Type 0) : Type 0 where
  trading_mode_change : TradingMode → (confirmation : Bool) → Change A
  algo_config_change : AlgoConfig A → Change A
  venue_toggle : String → Bool → Change A
  reload_requested : Change A

pub record ConfigState (A : Type 0) : Type 0 where
  pub config : Option (Value A)
  pub risk_manager : Option (RiskManager A)
  pub order_manager : Option (OrderManager A)
  pub trading_mode : TradingMode
  pub algo_config : AlgoConfig A
  pub venue_overrides : Dict Bool
  pub config_history : List (ℕ × Change A)

-- the `detail` of an HTTP error; `crashed` is the text of another exception
pub data Detail : Type 0 where
  confirmation_required crashed : Detail

abbrev pub Response : Type 0 → Type 0
Response = Http.Response Detail

-- a venue of the configuration, as `_effective_venues` gives it
pub record VenueData : Type 0 where
  pub enabled : Bool
  pub has_api_key : Bool
  pub has_api_secret : Bool

unfoldable pub is_live : TradingMode → Bool
is_live live = true
is_live _ = false

unfoldable pub connection_status : VenueData → ConnectionStatus
connection_status d =
    if not d.enabled
    then disabled
    else if d.has_api_key && d.has_api_secret
    then connected
    else degraded

-- `int(max(1, n))`
unfoldable pub at_least_one : ℤ → ℕ
at_least_one (pos zero) = 1
at_least_one (pos (suc n)) = suc n
at_least_one (negsuc n) = 1

-- `for order in orders: d[v] = d.get(v, 0) + 1`
unfoldable pub count_orders : {A : Type 0} → List (Order A) → Dict ℕ → Dict ℕ
count_orders [] d = d
count_orders (o ∷ os) d =
    let v = if str_eq o.venue "" then "unknown" else o.venue in
    count_orders os (insert v (elim (lookup v d) [ none ↦ 1 | some n ↦ n + 1 ]) d)

module _ {A : Type 0} where
  -- `_record_change`
  unfoldable pub record_change : ℕ → Change A → ConfigState A → ConfigState A
  record_change now change s = record s {
    config_history = push_bounded 1000 (now, change) s.config_history;
  }

  unfoldable pub set_trading_mode :
      TradingMode → Bool → ℕ → ConfigState A → ConfigState A × Response TradingMode
  unfolding is_live record_change
  set_trading_mode mode confirmation now s =
      if is_live mode && not confirmation then (s, http_error 400 confirmation_required) else (
        record_change now (trading_mode_change mode confirmation)
            (record s { trading_mode = mode }),
        ok mode,
      )

  unfoldable pub toggle_venue : String → Bool → ℕ → ConfigState A → ConfigState A × Response Bool
  unfolding record_change
  toggle_venue venue enabled now s = (
    record_change now (venue_toggle venue enabled)
        (record s { venue_overrides = insert venue enabled s.venue_overrides }),
    ok enabled,
  )

  unfoldable pub reload_config : ℕ → ConfigState A → ConfigState A
  unfolding record_change
  reload_config now s = record_change now reload_requested s

  -- the number of changes, and the newest `limit` of them
  unfoldable pub get_config_history : ℤ → ConfigState A → ℕ × List (ℕ × Change A)
  get_config_history limit s = (length s.config_history, slice limit (reverse s.config_history))

module _ {A : Type 0} ⦃num : Number A⦄ where
  abbrev pub one : A
  one = ratio 1 1

  -- `_ALGO_CONFIG` and `_TRADING_MODE` as the module is loaded
  unfoldable pub init :
      Option (Value A) → Option (RiskManager A) → Option (OrderManager A) → ConfigState A
  init config risk_manager order_manager = record {
    config = config;
    risk_manager = risk_manager;
    order_manager = order_manager;
    trading_mode = paper;
    algo_config = record {
      enabled = true;
      max_position_size = ratio 10 1;
      max_risk_per_trade = ratio 2 100;
      max_daily_loss = ratio 5000 1;
      max_positions = pos 5;
    };
    venue_overrides = [];
    config_history = [];
  }
