-- ===== src/ConfigRoutes/Settings.antt =====
-- interface/routes/config.py: the venues, the trading mode and the parameters of the algorithms.
use cto_test_ai_trading_bot.Prelude.{
  ℕ, String, Bool, true, false, Option, none, some, List, [], ◌∷◌, map, ◌&&◌, if◌then◌else◌,
}
use cto_test_ai_trading_bot.Prelude.Int.{pos}
use cto_test_ai_trading_bot.Prelude.Dict.{Dict, lookup}
use cto_test_ai_trading_bot.Prelude.Number.{
  Number, ◌⊕◌, ◌⊗◌, ◌⊘◌, ◌≺◌, ratio, zero_num, larger, smaller,
}
use cto_test_ai_trading_bot.OrderManager.Queries.{get_open_orders}
use cto_test_ai_trading_bot.RiskManager.{RiskManager}
use cto_test_ai_trading_bot.RiskManager.Reports.{RiskSnapshot, get_risk_snapshot}
use cto_test_ai_trading_bot.Config.{Entries, table, end, entry, find, get_value, truthy, paper_mode}
use cto_test_ai_trading_bot.Http.{internal_error, ok}
use cto_test_ai_trading_bot.ConfigRoutes.{
  TradingMode, AlgoConfig, VenueConfig, connection_status, algo_config_change, ConfigState,
  Response, VenueData, at_least_one, count_orders, record_change, one, crashed,
}

module _ {A : Type 0} ⦃num : Number A⦄ where
  -- `venue_cfg.get(key)`, as a truth value
  abbrev setting : String → Entries A → Bool
  setting key es = elim (find key es) [ none ↦ false | some v ↦ truthy v ]

  -- the loop of `_effective_venues`; an entry that is no table is passed over
  unfoldable pub venues_of : Dict Bool → Entries A → List (String × VenueData)
  venues_of overrides end = []
  venues_of overrides (entry venue (table es) rest) =
      (
        venue,
        record {
          enabled = elim (lookup venue overrides) [ none ↦ setting "enabled" es | some b ↦ b ];
          has_api_key = setting "api_key" es;
          has_api_secret = setting "api_secret" es;
        },
      )
      ∷ venues_of overrides rest
  venues_of overrides (entry venue _ rest) = venues_of overrides rest

  -- `none` where the section "exchanges" has no method `items`
  unfoldable pub effective_venues : ConfigState A → Option (List (String × VenueData))
  unfolding venues_of
  effective_venues s = elim s.config [
    | none ↦ some []
    | some c ↦ elim (get_value ("exchanges" ∷ []) (table end) c) [
      | table es ↦ some (venues_of s.venue_overrides es)
      | v ↦ if truthy v then none else some []
    ]
  ]

  unfoldable pub venue_config : Dict ℕ → String × VenueData → VenueConfig A
  unfolding connection_status
  venue_config counts (venue, d) = record {
    name = venue;
    enabled = d.enabled;
    api_keys_configured = d.has_api_key && d.has_api_secret;
    connection_status = connection_status d;
    latency_ms =
        ratio 30 1
        ⊕ smaller (ratio 70 1)
            (ratio (elim (lookup venue counts) [ none ↦ 0 | some n ↦ n ]) 1 ⊗ ratio 3 1);
  }

  abbrev open_counts : ConfigState A → Dict ℕ
  open_counts s = elim s.order_manager [
    | none ↦ []
    | some m ↦ count_orders (get_open_orders none m) []
  ]

  unfoldable pub get_venue_configs : ConfigState A → Response (List (VenueConfig A))
  unfolding venue_config
  get_venue_configs s = elim (effective_venues s) [
    | none ↦ internal_error [] crashed
    | some venues ↦ ok (map (venue_config (open_counts s)) venues)
  ]

  -- `bool(_CONFIG.paper_mode) if _CONFIG else True`
  unfoldable pub get_trading_mode : ConfigState A → Response (TradingMode × Bool)
  get_trading_mode s = elim s.config [
    | none ↦ ok (s.trading_mode, true)
    | some c ↦ elim (paper_mode c) [
      | none ↦ internal_error [] crashed
      | some b ↦ ok (s.trading_mode, b)
    ]
  ]

  -- what `set_algo_config` changes of the risk manager
  unfoldable pub apply_algo : AlgoConfig A → RiskManager A → RiskManager A
  apply_algo c m =
      let size = c.max_position_size ⊘ larger one (m.equity ⊗ m.config.leverage) in
      let pct = smaller one (larger (ratio 1 10_000) size) in
      let loss = larger (ratio 1 1000) (smaller one (c.max_daily_loss ⊘ larger one m.equity)) in
      record m {
        config = record m.config {
          max_position_pct = if zero_num ≺ m.equity then pct else m.config.max_position_pct;
          max_open = at_least_one c.max_positions;
        };
        circuit_breaker = record m.circuit_breaker { max_daily_loss = loss };
      }

  unfoldable pub set_algo_config : AlgoConfig A → ℕ → ConfigState A → ConfigState A × AlgoConfig A
  unfolding apply_algo
  set_algo_config c now s = (
    record_change now (algo_config_change c) (record s {
      algo_config = c;
      risk_manager = elim s.risk_manager [ none ↦ none | some m ↦ some (apply_algo c m) ];
    }),
    c,
  )

  module _ (percentile : List A → A → A) (mean : List A → A) (percent : A → ℕ) where
    -- what `get_algo_config` reports of a risk manager
    unfoldable pub algo_of : RiskManager A → RiskSnapshot A → AlgoConfig A
    algo_of m snap = record {
      enabled = true;
      max_position_size = snap.equity ⊗ m.config.max_position_pct ⊗ m.config.leverage;
      max_risk_per_trade = m.config.max_position_pct;
      max_daily_loss = m.circuit_breaker.max_daily_loss ⊗ snap.equity;
      max_positions = pos m.config.max_open;
    }

    unfoldable pub get_algo_config : ℕ → ConfigState A → ConfigState A × AlgoConfig A
    unfolding algo_of
    get_algo_config now s = elim s.risk_manager [
      | none ↦ (s, s.algo_config)
      | some m ↦
          let (m', snap) = get_risk_snapshot percentile mean percent now m in
          (record s { risk_manager = some m' }, algo_of m' snap)
    ]
