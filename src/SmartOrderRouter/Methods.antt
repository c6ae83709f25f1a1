-- ===== src/SmartOrderRouter/Methods.antt =====
-- execution/smart_order_router.py: the methods of `SmartOrderRouter`. Those under its lock are one
-- step. `top` is the snapshot that `_get_expected_price` reads. `max_venues` is not negative.
use cto_test_ai_trading_bot.Prelude.{
  ℕ, ◌+◌, Bool, true, false, Option, none, some, List, [], ◌∷◌, map, foldl, ltb, ◌&&◌,
  if◌then◌else◌, keep, take,
}
use cto_test_ai_trading_bot.Prelude.Number.{
  Number, ◌⊕◌, ◌⊖◌, ◌⊗◌, ◌⊘◌, ◌≺◌, ◌≼◌, ratio, zero_num, smaller, total, absolute,
}
use cto_test_ai_trading_bot.Order.{OrderSide, buy, sell}
use cto_test_ai_trading_bot.SmartOrderRouter.{
  SmartOrderRouter, Venue, VenueScore, Route, RoutingDecision, Weights, Snapshot, Level, same_venue,
  active_venues, has_executor, calculate_venue_score,
}

-- How a call of `place_order` of an executor ends: with a result that is true or false as a test,
-- or with an exception
pub data Placed : Type 0 where
  returned : Bool → Placed
  raised : Placed

pub data ExecutionStatus : Type 0 where
  success failed error : ExecutionStatus

-- the status of a result
unfoldable pub status_of : Placed → ExecutionStatus
status_of (returned true) = success
status_of (returned false) = failed
status_of raised = error

module _ {A : Type 0} ⦃num : Number A⦄ where
  -- `d[venue] = score`
  unfoldable pub insert_score :
      Venue → VenueScore A → List (Venue × VenueScore A) → List (Venue × VenueScore A)
  unfolding same_venue
  insert_score v s [] = (v, s) ∷ []
  insert_score v s (e ∷ d) = if same_venue e.0 v then (v, s) ∷ d else e ∷ insert_score v s d

  -- `list.sort(key=score, reverse=True)`: stable, the greatest score first
  unfoldable pub insert_by_score :
      Venue × VenueScore A → List (Venue × VenueScore A) → List (Venue × VenueScore A)
  insert_by_score x [] = x ∷ []
  insert_by_score x (y ∷ ys) =
      if (x.1).score ≺ (y.1).score then y ∷ insert_by_score x ys else x ∷ y ∷ ys

  unfoldable pub sort_by_score : List (Venue × VenueScore A) → List (Venue × VenueScore A)
  unfolding insert_by_score
  sort_by_score [] = []
  sort_by_score (x ∷ xs) = insert_by_score x (sort_by_score xs)

  unfoldable pub calculate_estimated_cost : VenueScore A → A → A → A
  calculate_estimated_cost s quantity expected_price =
      let price = if expected_price ≼ zero_num then zero_num else expected_price in
      if quantity ≼ zero_num
      then zero_num
      else (s.spread ⊘ ratio 2 1) ⊗ quantity ⊕ price ⊗ quantity ⊗ s.fee

  abbrev pub first_price : List (Level A) → A
  first_price [] = zero_num
  first_price (l ∷ _) = l.price

  -- `_get_expected_price` for a venue that has an executor
  unfoldable pub get_expected_price : (Venue → Option (Snapshot A)) → OrderSide → Venue → A
  get_expected_price top side v = elim (top v) [
    | none ↦ zero_num
    | some s ↦ elim side [ buy ↦ first_price s.asks | sell ↦ first_price s.bids ]
  ]

  unfoldable pub new_route : Venue → VenueScore A → A → A → Route A
  unfolding calculate_estimated_cost
  new_route v s quantity price = record {
    venue = v;
    quantity = quantity;
    expected_fill_price = price;
    estimated_cost = calculate_estimated_cost s quantity price;
    execution_time_ms = s.latency_ms;
    score = s.score;
  }

  -- the loop over the selected venues, with the quantity that remains; `price` is the expected
  -- price at a venue
  unfoldable pub make_routes : (Venue → A) → A → List (Venue × VenueScore A) → List (Route A)
  unfolding new_route
  make_routes price remaining [] = []
  make_routes price remaining (x ∷ xs) =
      let quantity = smaller remaining ((x.1).liquidity ⊗ ratio 8 10) in
      let rest = make_routes price (remaining ⊖ quantity) xs in
      if remaining ≼ zero_num then [] else new_route x.0 x.1 quantity (price x.0) ∷ rest

  -- the end of `route_order`, for the selected venues and their routes
  unfoldable pub decide : List (Venue × VenueScore A) → List (Route A) → Option (RoutingDecision A)
  decide [] routes = none
  decide (best ∷ _) routes =
      let total_qty = total (map (λ r. r.quantity) routes) in
      if total_qty ≼ zero_num
      then none
      else some record {
        routes = routes;
        total_quantity = total_qty;
        expected_avg_price =
            total (map (λ r. r.quantity ⊗ r.expected_fill_price) routes) ⊘ total_qty;
        total_cost = total (map (λ r. r.estimated_cost) routes);
        recommended_venue = best.0;
        confidence = (best.1).score;
      }

  -- the test of a venue in `route_order`
  abbrev pub is_suitable : A → A → Venue × VenueScore A → Bool
  is_suitable quantity min_score e = (quantity ≼ (e.1).liquidity) && (min_score ≼ (e.1).score)

  abbrev pub available : A → A → List (Venue × VenueScore A) → List (Venue × VenueScore A)
  available quantity min_score scores = keep (is_suitable quantity min_score) scores

  module _ (infinity : A) where
    unfoldable pub initialize :
        (Venue → Option (Snapshot A)) → SmartOrderRouter A → SmartOrderRouter A
    unfolding insert_score
    initialize book r = record r {
      venue_scores =
          foldl (λ d v. insert_score v (calculate_venue_score infinity r.routing_weights book v) d)
            r.venue_scores (active_venues r.executors);
    }

    abbrev pub score_all :
        (Venue → Option (Snapshot A)) → SmartOrderRouter A → List (Venue × VenueScore A)
    score_all book r =
        map (λ v. (v, calculate_venue_score infinity r.routing_weights book v))
          (active_venues r.executors)

    abbrev pub has_scores : SmartOrderRouter A → Bool
    has_scores r = elim r.venue_scores [ [] ↦ false | _ ∷ _ ↦ true ]

    unfoldable pub refresh_scores_if_needed :
        (Venue → Option (Snapshot A)) → ℕ → SmartOrderRouter A → SmartOrderRouter A
    refresh_scores_if_needed book now r =
        if has_scores r && ltb now (r.last_score_refresh + 30_000)
        then r
        else elim (score_all book r) [
          | [] ↦ r
          | e ∷ es ↦ record r { venue_scores = e ∷ es; last_score_refresh = now }
        ]

    unfoldable pub route_order :
        (Venue → Option (Snapshot A))
        → (Venue → Option (Snapshot A))
        → ℕ
        → OrderSide
        → A
        → ℕ
        → A
        → SmartOrderRouter A
        → SmartOrderRouter A × Option (RoutingDecision A)
    unfolding refresh_scores_if_needed sort_by_score make_routes get_expected_price decide
    route_order book top now side quantity max_venues min_score r =
        let r' = refresh_scores_if_needed book now r in
        let selected =
          take max_venues (sort_by_score (available quantity min_score r'.venue_scores)) in
        (r', decide selected (make_routes (get_expected_price top side) quantity selected))

  -- `execute_routed_order`; `place` is how the executor of a route ends
  unfoldable pub execute_routes :
      (Route A → Placed) → SmartOrderRouter A → List (Route A) → List (Route A × ExecutionStatus)
  unfolding has_executor status_of
  execute_routes place r [] = []
  execute_routes place r (x ∷ xs) =
      let rest = execute_routes place r xs in
      if has_executor x.venue r.executors then (x, status_of (place x)) ∷ rest else rest

  unfoldable pub execute_routed_order :
      (Route A → Placed) → RoutingDecision A → SmartOrderRouter A → List (Route A × ExecutionStatus)
  unfolding execute_routes
  execute_routed_order place d r = execute_routes place r d.routes

  -- `none` is the ValueError
  unfoldable pub update_routing_weights :
      Weights A → SmartOrderRouter A → Option (SmartOrderRouter A)
  update_routing_weights w r =
      let sum = total (
        w.liquidity_weight ∷ w.spread_weight ∷ w.fee_weight ∷ w.latency_weight
        ∷ w.reliability_weight ∷ []) in
      if ratio 1 100 ≺ absolute (sum ⊖ ratio 1 1)
      then none
      else some (record r { routing_weights = w })
