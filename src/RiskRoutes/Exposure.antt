-- ===== src/RiskRoutes/Exposure.antt =====
-- interface/routes/risk.py: the exposure tables against sums over the positions.
use cto_test_ai_trading_bot.Prelude.{◌≡◌, refl, ap, ◌∙◌, String, some, [], ◌∷◌, foldl, arith}
use cto_test_ai_trading_bot.Prelude.Dict.{get_or, Dict, lookup, values}
use cto_test_ai_trading_bot.Prelude.Number.{Number, zero_num, total}
use cto_test_ai_trading_bot.RiskManager.{RiskManager}
use cto_test_ai_trading_bot.Http.{ok, as_internal, require}
use cto_test_ai_trading_bot.Http.Tally.{amounts_of, tally-total, tally_from}
use cto_test_ai_trading_bot.RiskRoutes.{ExposureBreakdown, exposure, get_exposure_breakdown}

module _ {A : Type 0} ⦃num : Number A⦄ where
  sides : Dict A
  sides = ("long", zero_num) ∷ ("short", zero_num) ∷ []

  sides_zero : (k : String) → get_or zero_num k sides ≡ zero_num
  unfolding sides lookup
  sides_zero k = ground arith

  -- The breakdown changes nothing, and in each of its tables the entry of a text, or zero where it
  -- has none, is the sum of the exposures of the positions with that symbol, venue or side, in the
  -- order of the positions.
  pub get_exposure_breakdown_lem :
      (k : String) (m : RiskManager A)
      → (b : ExposureBreakdown A) × (get_exposure_breakdown (some m) ≡ (some m, ok b))
        × (get_or zero_num k b.by_symbol
            ≡ total (amounts_of (λ p. p.symbol) exposure k (values m.positions)))
        × (get_or zero_num k b.by_venue
            ≡ total (amounts_of (λ p. p.exchange) exposure k (values m.positions)))
        × (get_or zero_num k b.by_side
            ≡ total (amounts_of (λ p. p.direction) exposure k (values m.positions)))
  unfolding get_exposure_breakdown require as_internal total sides
  get_exposure_breakdown_lem k m =
      let ps = values m.positions in
      (
        _,
        refl,
        tally-total (λ p. p.symbol) exposure k ps,
        tally-total (λ p. p.exchange) exposure k ps,
        tally_from (λ p. p.direction) exposure k ps sides
            ∙ ap (λ a. foldl num.plus a (amounts_of (λ p. p.direction) exposure k ps))
                (sides_zero k),
      )
