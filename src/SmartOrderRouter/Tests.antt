-- ===== src/SmartOrderRouter/Tests.antt =====
-- execution/smart_order_router.py: runs of the router on numbers with eight decimals, and its theorems
-- at concrete inputs.
use cto_test_ai_trading_bot.Prelude.{
  ℕ, ◌≡◌, refl, true, false, Option, none, some, [], ◌∷◌, arith, inl,
}
use cto_test_ai_trading_bot.Prelude.Int.{ℤ, ◌+ℤ◌, ◌-ℤ◌}
use cto_test_ai_trading_bot.Prelude.Fixed.{fixed, fixed_times, fixed_over, fixed-IsOrdered}
use cto_test_ai_trading_bot.Prelude.Number.{ratio, total, larger, smaller, divide}
use cto_test_ai_trading_bot.Order.{buy}
use cto_test_ai_trading_bot.SmartOrderRouter
use cto_test_ai_trading_bot.SmartOrderRouter.{
  SmartOrderRouter, Executors, Venue, VenueScore, Snapshot, RoutingDecision, Route, binance, bybit,
  okx, hyperliquid, has_executor, active_venues, same_venue, venue_fee, venue_latency,
  venue_reliability, no_score, spread_of, weigh, scored, calculate_venue_score,
}
use cto_test_ai_trading_bot.SmartOrderRouter.Methods.{
  Placed, returned, status_of, insert_by_score, sort_by_score, calculate_estimated_cost,
  get_expected_price, new_route, make_routes, decide, refresh_scores_if_needed, route_order,
  score_all, execute_routes, execute_routed_order,
}
use cto_test_ai_trading_bot.SmartOrderRouter.Decision.{
  IsRouting, route_order-IsRouting, refresh_scores_lem,
}

program : Unit {0}
unfolding ◌+ℤ◌ ◌-ℤ◌ fixed_times fixed_over total larger smaller divide SmartOrderRouter.init
    has_executor active_venues same_venue venue_fee venue_latency venue_reliability no_score
    spread_of weigh scored calculate_venue_score status_of insert_by_score sort_by_score
    calculate_estimated_cost get_expected_price new_route make_routes decide
    refresh_scores_if_needed route_order execute_routes execute_routed_order
program = tt

-- a number that is greater than all in the examples
abbrev infinity : ℤ
infinity = ratio 1_000_000_000 1

abbrev executors : Executors
executors = record { binance_executor = true; bybit_executor = false; okx_executor = true }

abbrev empty : SmartOrderRouter ℤ
empty = SmartOrderRouter.init executors

abbrev book_with : ℕ → Snapshot ℤ
book_with quantity = record {
  bids = record { price = ratio 100 1; quantity = ratio quantity 1 } ∷ [];
  asks = record { price = ratio 101 1; quantity = ratio quantity 1 } ∷ [];
}

abbrev books : Venue → Option (Snapshot ℤ)
books binance = some (book_with 3)
books bybit = none
books okx = some (book_with 50)
books hyperliquid = none

abbrev routing : SmartOrderRouter ℤ × Option (RoutingDecision ℤ)
routing = route_order infinity books books 60_000 buy (ratio 5 1) 2 (ratio 1 10) empty

-- five units fit into the book of the second venue, and the venue is taken for all of them
abbrev decision : RoutingDecision ℤ
decision = elim routing.1 [
  | none ↦ record {
    routes = [];
    total_quantity = ratio 0 1;
    expected_avg_price = ratio 0 1;
    total_cost = ratio 0 1;
    recommended_venue = hyperliquid;
    confidence = ratio 0 1;
  }
  | some d ↦ d
]

routed : routing.1 ≡ some decision
unfolding program
routed = refl

whole : decision.total_quantity ≡ ratio 5 1
unfolding program
whole = refl

route_order-IsRouting_example :
    IsRouting
      (ratio 5 1)
      2
      (ratio 1 10)
      (refresh_scores_if_needed infinity books 60_000 empty).venue_scores
      decision
unfolding program
route_order-IsRouting_example =
    route_order-IsRouting fixed-IsOrdered infinity books books 60_000 buy (ratio 5 1) 2 (ratio 1 10)
      empty decision refl

abbrev no_books : Venue → Option (Snapshot ℤ)
no_books v = none

abbrev score_of : Venue → Venue × VenueScore ℤ
score_of v = (v, calculate_venue_score infinity empty.routing_weights books v)

refresh_scores_lem_case :
    let r' = refresh_scores_if_needed infinity books 60_000 empty in
    (r' ≡ record empty {
      venue_scores = score_of binance ∷ score_of okx ∷ [];
      last_score_refresh = 60_000;
    })
    × (refresh_scores_if_needed infinity no_books 89_999 r' ≡ r')
    × ((refresh_scores_if_needed infinity no_books 90_000 r').venue_scores
        ≡ score_all infinity no_books empty)
unfolding program
refresh_scores_lem_case =
    refresh_scores_lem infinity books no_books 60_000 89_999 90_000 empty (score_of binance)
      (score_of okx ∷ []) (inl refl) refl (omega arith) (omega arith)

abbrev place_all : Route ℤ → Placed
place_all x = returned true
