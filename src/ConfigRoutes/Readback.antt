-- ===== src/ConfigRoutes/Readback.antt =====
-- interface/routes/config.py: what is read after a venue was toggled, or the algorithm configured.
use cto_test_ai_trading_bot.Prelude.{
  ℕ, ◌≡◌, refl, ap, String, Bool, true, Option, none, some, List, [], ◌∷◌, map, arith,
  if◌then◌else◌, ◌>>=◌, str_eq,
}
use mathlib.Core.Path.{ap₂}
use cto_test_ai_trading_bot.Prelude.Int.{pos}
use cto_test_ai_trading_bot.Prelude.Dict.{Dict, insert, lookup-insert}
use cto_test_ai_trading_bot.Prelude.Number.{
  Number, IsLt, ◌⊗◌, ◌⊘◌, ratio, zero_num, smaller, larger,
}
use cto_test_ai_trading_bot.RiskBreaker.{tripped}
use cto_test_ai_trading_bot.RiskManager.{RiskManager}
use cto_test_ai_trading_bot.RiskManager.Reports.{get_risk_snapshot}
use cto_test_ai_trading_bot.Config.{
  Value, Entries, null, flag, number, text, items, table, end, entry, get_value, truthy,
}
use cto_test_ai_trading_bot.ConfigRoutes.{
  AlgoConfig, ConfigState, VenueData, at_least_one, record_change, toggle_venue, one,
}
use cto_test_ai_trading_bot.ConfigRoutes.Settings.{
  venues_of, effective_venues, apply_algo, set_algo_config, algo_of, get_algo_config,
}

abbrev pub set_enabled : String → Bool → List (String × VenueData) → List (String × VenueData)
set_enabled venue b =
    map (λ e. (e.0, if str_eq venue e.0 then record (e.1) { enabled = b } else e.1))

module _ {A : Type 0} ⦃num : Number A⦄ where
  venues_of-insert :
      (venue : String) (b : Bool) (d : Dict Bool) (es : Entries A)
      → venues_of (insert venue b d) es ≡ set_enabled venue b (venues_of d es)
  unfolding venues_of
  venues_of-insert venue b d end = refl
  venues_of-insert venue b d (entry k (table fields) es) =
      ap₂ ◌∷◌ (ground (arith, lookup-insert venue k b d)) (venues_of-insert venue b d es)
  venues_of-insert venue b d (entry k null es) = venues_of-insert venue b d es
  venues_of-insert venue b d (entry k (flag c) es) = venues_of-insert venue b d es
  venues_of-insert venue b d (entry k (number a) es) = venues_of-insert venue b d es
  venues_of-insert venue b d (entry k (text t) es) = venues_of-insert venue b d es
  venues_of-insert venue b d (entry k (items vs) es) = venues_of-insert venue b d es

  -- After a venue was toggled, the venues are read as before, but for the one of that name, which is
  -- enabled as it was asked. Where the section "exchanges" is no table, reading fails as before.
  pub effective_venues-toggle_venue :
      (venue : String) (b : Bool) (now : ℕ) (s : ConfigState A)
      → effective_venues (toggle_venue venue b now s).0
        ≡ (effective_venues s >>= λ vs. some (set_enabled venue b vs))
  unfolding effective_venues toggle_venue record_change
  effective_venues-toggle_venue venue b now s =
      elim s.config
        as (λ c.
          effective_venues (toggle_venue venue b now (record s { config = c })).0
          ≡ (effective_venues (record s { config = c }) >>= λ vs. some (set_enabled venue b vs))) [
            | none ↦ refl
            | some c ↦ toggled (get_value ("exchanges" ∷ []) (table end) c)
          ]
    where
      toggled :
          (v : Value A)
          → (elim v as (λ _. Option (List (String × VenueData))) [
            | table es ↦ some (venues_of (insert venue b s.venue_overrides) es)
            | v ↦ if truthy v then none else some []
          ])
            ≡ ((elim v as (λ _. Option (List (String × VenueData))) [
              | table es ↦ some (venues_of s.venue_overrides es)
              | v ↦ if truthy v then none else some []
            ])
                >>= λ vs. some (set_enabled venue b vs))
      toggled (table es) = ap some (venues_of-insert venue b s.venue_overrides es)
      toggled null = ground arith
      toggled (flag c) = ground arith
      toggled (number a) = ground arith
      toggled (text t) = ground arith
      toggled (items vs) = ground arith

  module _ (percentile : List A → A → A) (mean : List A → A) (percent : A → ℕ) where
    -- What is read after the algorithm was configured, with a risk manager that has equity: `enabled`
    -- is true, whatever was set; the number of positions is the one that was set, at least 1; the
    -- position size and the loss are those of the clamped shares of the equity, and the risk per
    -- trade is the share of the position size, whatever was set.
    pub get-set_algo_config :
        (c : AlgoConfig A) (now later : ℕ) (m : RiskManager A) (s : ConfigState A)
        → s.risk_manager ≡ some m
        → IsLt zero_num m.equity
        → let size = c.max_position_size ⊘ larger one (m.equity ⊗ m.config.leverage) in
          let pct = smaller one (larger (ratio 1 10_000) size) in
          let loss = larger (ratio 1 1000) (smaller one (c.max_daily_loss ⊘ larger one m.equity)) in
          (get_algo_config percentile mean percent later (set_algo_config c now s).0).1 ≡ record {
            enabled = true;
            max_position_size = m.equity ⊗ pct ⊗ m.config.leverage;
            max_risk_per_trade = pct;
            max_daily_loss = loss ⊗ m.equity;
            max_positions = pos (at_least_one c.max_positions);
          }
    unfolding get_algo_config set_algo_config apply_algo algo_of record_change get_risk_snapshot
        tripped
    get-set_algo_config c now later m s attached funded = ground arith
