-- ===== src/ConfigRoutes/Tests.antt =====
-- interface/routes/config.py: runs of the handlers, and their theorems at concrete inputs.
use cto_test_ai_trading_bot.Prelude.{
  ℕ, ◌≡◌, refl, true, false, none, some, List, [], ◌∷◌, length, ◌>>=◌,
}
use cto_test_ai_trading_bot.Prelude.Int.{ℤ, pos, ◌+ℤ◌, ◌-ℤ◌}
use cto_test_ai_trading_bot.Prelude.Fixed.{fixed, fixed_times, fixed_over}
use cto_test_ai_trading_bot.Prelude.Dict.{lookup, insert}
use cto_test_ai_trading_bot.Prelude.Number.{ratio, larger, smaller, ◌⊗◌, ◌⊘◌}
use cto_test_ai_trading_bot.RiskManager.Examples.{units, start, first_of_sorted}
use cto_test_ai_trading_bot.Config.{
  Value, Entries, flag, number, table, end, entry, find, section, get_value, truthy,
}
use cto_test_ai_trading_bot.Http.{ok}
use cto_test_ai_trading_bot.ConfigRoutes
use cto_test_ai_trading_bot.ConfigRoutes.{
  AlgoConfig, ConfigState, VenueConfig, paper, live, is_live, at_least_one, toggle_venue,
  connection_status, degraded, record_change, set_trading_mode, count_orders, one, reload_config,
}
use cto_test_ai_trading_bot.ConfigRoutes.Settings.{
  venues_of, effective_venues, venue_config, get_venue_configs, set_algo_config, get_algo_config,
}
use cto_test_ai_trading_bot.ConfigRoutes.Live.{
  Call, IsConfirmed, set_mode, toggle, reload, perform, run, run_live,
}
use cto_test_ai_trading_bot.ConfigRoutes.Readback.{
  set_enabled, effective_venues-toggle_venue, get-set_algo_config,
}

abbrev exchanges : Entries ℤ
exchanges =
    entry "binance" (table (entry "enabled" (flag true) (entry "api_key" (units_value 7) end)))
      (entry "comment" (units_value 1) (entry "kraken" (table end) end))
  where
    units_value : ℕ → Value ℤ
    units_value n = number (units n)

abbrev attached : ConfigState ℤ
attached =
    ConfigRoutes.init (some (table (entry "exchanges" (table exchanges) end))) (some start) none

program : Unit {0}
unfolding ◌+ℤ◌ ◌-ℤ◌ fixed_times fixed_over lookup insert larger smaller find section get_value
    truthy ConfigRoutes.init is_live at_least_one toggle_venue venues_of effective_venues
    connection_status venue_config get_venue_configs set_algo_config get_algo_config record_change
    set_trading_mode count_orders perform run reload_config
program = tt

-- an entry that is no table is passed over, and a venue without a secret is degraded
degraded_binance :
    (v : VenueConfig ℤ) × (vs : List (VenueConfig ℤ)) × (get_venue_configs attached ≡ ok (v ∷ vs))
    × (v.connection_status ≡ degraded)
    × (length vs ≡ 1)
unfolding program
degraded_binance = (_, _, refl, refl, refl)

abbrev requests : List (Call ℤ)
requests =
    set_mode live false 1000
    ∷ toggle "kraken" true 2000
    ∷ set_mode live true 3000
    ∷ reload 4000
    ∷ []

run_live_example : IsConfirmed requests
unfolding program
run_live_example = run_live requests attached refl refl

effective_venues-toggle_venue_example :
    effective_venues (toggle_venue "kraken" true 1000 attached).0
    ≡ (effective_venues attached >>= λ vs. some (set_enabled "kraken" true vs))
effective_venues-toggle_venue_example = effective_venues-toggle_venue "kraken" true 1000 attached

-- an algorithm that is switched off, without any position
abbrev algo : AlgoConfig ℤ
algo = record {
  enabled = false;
  max_position_size = units 5000;
  max_risk_per_trade = ratio 1 100;
  max_daily_loss = units 1000;
  max_positions = pos 0;
}

abbrev mean : List ℤ → ℤ
mean xs = units 0

abbrev percent : ℤ → ℕ
percent x = 0

get-set_algo_config_case :
    let size = algo.max_position_size ⊘ larger one (start.equity ⊗ start.config.leverage) in
    let pct = smaller one (larger (ratio 1 10_000) size) in
    let loss =
      larger (ratio 1 1000) (smaller one (algo.max_daily_loss ⊘ larger one start.equity)) in
    (get_algo_config first_of_sorted mean percent 2000 (set_algo_config algo 1000 attached).0).1
    ≡ record {
      enabled = true;
      max_position_size = start.equity ⊗ pct ⊗ start.config.leverage;
      max_risk_per_trade = pct;
      max_daily_loss = loss ⊗ start.equity;
      max_positions = pos (at_least_one algo.max_positions);
    }
unfolding program
get-set_algo_config_case =
    get-set_algo_config first_of_sorted mean percent algo 1000 2000 start attached refl refl
