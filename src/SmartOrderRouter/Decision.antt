-- ===== src/SmartOrderRouter/Decision.antt =====
-- execution/smart_order_router.py: the decision of `route_order`, and when scores are renewed.
use cto_test_ai_trading_bot.Prelude.{
  ℕ, ◌+◌, ◌≤◌, ◌<◌, ◌≡◌, refl, sym, ap, ◌∙◌, ◌⊎◌, false, Option, some, List, [], ◌∷◌, arith, inr,
  ltb, ◌&&◌, length, map, keep, All, take,
}
use mathlib.Core.Path.{subst}
use mathlib.Core.List.{Perm}
use cto_test_ai_trading_bot.Prelude.Number.{◌≼◌, Number, IsOrdered, IsLe, IsLt, zero_num}
use cto_test_ai_trading_bot.Order.{OrderSide}
use cto_test_ai_trading_bot.SmartOrderRouter.{
  SmartOrderRouter, Venue, VenueScore, RoutingDecision, Snapshot, active_venues,
}
use cto_test_ai_trading_bot.SmartOrderRouter.Methods.{
  sort_by_score, make_routes, decide, available, refresh_scores_if_needed, has_scores, score_all,
  route_order, get_expected_price,
}
use cto_test_ai_trading_bot.SmartOrderRouter.Routing.{
  IsRouted, IsDecided, first_venue, IsDescending, sort-Perm, sort-IsDescending,
  sort_by_score-IsBest, make_routes-IsRouted, length-make_routes, length-take-le, take-first,
  decide_lem, first_venue-make_routes,
}

map-cons :
    {X Y : Type 0} (f g : X → Y) (xs : List X) (y : Y) (ys : List Y)
    → map f xs ≡ y ∷ ys
    → (z : Y) × (zs : List Y) × (map g xs ≡ z ∷ zs)
map-cons f g [] y ys e = absurd (cc)
map-cons f g (x ∷ xs) y ys e = (g x, map g xs, refl)

module _ {A : Type 0} ⦃num : Number A⦄ where
  -- the venues that `route_order` selects
  abbrev pub selected : A → ℕ → A → List (Venue × VenueScore A) → List (Venue × VenueScore A)
  selected quantity max_venues min_score scores =
      take max_venues (sort_by_score (available quantity min_score scores))

  -- the venues that have the liquidity for the order and reach the minimum score
  abbrev pub eligible : A → A → List (Venue × VenueScore A) → List (Venue × VenueScore A)
  eligible quantity min_score =
      keep (λ e. (quantity ≼ (e.1).liquidity) && (min_score ≼ (e.1).score))

  abbrev pub IsRouting : A → ℕ → A → List (Venue × VenueScore A) → RoutingDecision A → Type 0
  IsRouting quantity max_venues min_score scores d =
      ((ranked : List (Venue × VenueScore A)) × Perm ranked (eligible quantity min_score scores)
        × IsDescending ranked
        × IsRouted quantity (take max_venues ranked) d.routes)
      × All (λ e. IsLe (e.1).score d.confidence) (eligible quantity min_score scores)
      × (length d.routes ≤ max_venues)
      × (first_venue d.routes ≡ some d.recommended_venue)
      × IsLt zero_num d.total_quantity

  routing_lem :
      IsOrdered num
      → (price : Venue → A) (quantity : A) (max_venues : ℕ) (min_score : A)
        (scores xs : List (Venue × VenueScore A)) (d : RoutingDecision A)
      → selected quantity max_venues min_score scores ≡ xs
      → decide xs (make_routes price quantity xs) ≡ some d
      → IsRouting quantity max_venues min_score scores d
  unfolding IsDecided decide
  routing_lem ord price quantity max_venues min_score scores [] d s e = absurd (cc)
  routing_lem ord price quantity max_venues min_score scores (x ∷ xs) d s e =
      let routes = make_routes price quantity (x ∷ xs) in
      let (same, venue, score, positive, sum) = decide_lem (x ∷ xs) routes d e in
      let (ys, sorted) =
        take-first max_venues x (sort_by_score (available quantity min_score scores)) xs s in
      let best = sort_by_score-IsBest ord x (available quantity min_score scores) ys sorted in
      let routed : IsRouted quantity (x ∷ xs) routes =
        make_routes-IsRouted ord price quantity (x ∷ xs) in
      let few = length-take-le max_venues (sort_by_score (available quantity min_score scores)) in
      let all = available quantity min_score scores in
      (
        (sort_by_score all, sort-Perm all, sort-IsDescending ord all, rw (s, same) routed),
        subst (λ c. All (λ f. IsLe (f.1).score c) all) (sym score) best,
        omega (arith, ap length same, length-make_routes price quantity (x ∷ xs), few, ap length s),
        ap first_venue same
            ∙ first_venue-make_routes ord price quantity x xs
                (subst (λ t. IsLt zero_num t) sum positive)
            ∙ ap some (sym venue),
        positive,
      )

  -- A decision of `route_order` recommends the venue of its first route, and no venue that has the
  -- liquidity for the order and reaches the minimum score has a greater score than the decision's
  -- confidence. These venues can be ranked from the greatest score to the smallest such that the routes
  -- follow the first `max_venues` of them in turn; each route takes a quantity of what remains at most,
  -- and at most four fifths of the liquidity of its venue. There are at most `max_venues` routes, and the
  -- total quantity is positive. No score is NaN.
  pub route_order-IsRouting :
      IsOrdered num
      → (infinity : A) (book top : Venue → Option (Snapshot A)) (now : ℕ) (side : OrderSide)
        (quantity : A) (max_venues : ℕ) (min_score : A) (r : SmartOrderRouter A)
        (d : RoutingDecision A)
      → (route_order infinity book top now side quantity max_venues min_score r).1 ≡ some d
      → IsRouting quantity max_venues min_score
          (refresh_scores_if_needed infinity book now r).venue_scores
          d
  unfolding route_order
  route_order-IsRouting ord infinity book top now side quantity max_venues min_score r d e =
      let scores = (refresh_scores_if_needed infinity book now r).venue_scores in
      routing_lem ord (get_expected_price top side) quantity max_venues min_score scores
        (selected quantity max_venues min_score scores) d refl e

  refresh_due :
      (infinity : A) (book : Venue → Option (Snapshot A)) (now : ℕ) (r : SmartOrderRouter A)
      (e : Venue × VenueScore A) (es : List (Venue × VenueScore A))
      → (has_scores infinity r ≡ false) ⊎ (r.last_score_refresh + 30_000 ≤ now)
      → score_all infinity book r ≡ e ∷ es
      → refresh_scores_if_needed infinity book now r
        ≡ record r { venue_scores = e ∷ es; last_score_refresh = now }
  unfolding refresh_scores_if_needed
  refresh_due infinity book now r e es due scored =
      let needed : (has_scores infinity r && ltb now (r.last_score_refresh + 30_000)) ≡ false =
        ground arith in
      rw (needed, scored)

  -- When the scores are due, because there are none or they are thirty seconds old, and some venue
  -- has an executor, they are renewed from the order books; then they are kept for thirty seconds,
  -- whatever the books say, and renewed after that.
  pub refresh_scores_lem :
      (infinity : A) (book book' : Venue → Option (Snapshot A)) (now soon later : ℕ)
      (r : SmartOrderRouter A) (e : Venue × VenueScore A) (es : List (Venue × VenueScore A))
      → (has_scores infinity r ≡ false) ⊎ (r.last_score_refresh + 30_000 ≤ now)
      → score_all infinity book r ≡ e ∷ es
      → soon < now + 30_000
      → now + 30_000 ≤ later
      → let r' = refresh_scores_if_needed infinity book now r in
        (r' ≡ record r { venue_scores = e ∷ es; last_score_refresh = now })
        × (refresh_scores_if_needed infinity book' soon r' ≡ r')
        × ((refresh_scores_if_needed infinity book' later r').venue_scores
            ≡ score_all infinity book' r)
  unfolding refresh_scores_if_needed
  refresh_scores_lem infinity book book' now soon later r e es due scored before after =
      let r' = record r { venue_scores = e ∷ es; last_score_refresh = now } in
      let first = refresh_due infinity book now r e es due scored in
      let (e', es', again) = map-cons _ _ (active_venues r.executors) e es scored in
      let kept : refresh_scores_if_needed infinity book' soon r' ≡ r' = ground arith in
      let renewed = refresh_due infinity book' later r' e' es' (inr after) again in
      (
        first,
        subst (λ x. refresh_scores_if_needed infinity book' soon x ≡ x) (sym first) kept,
        ap (λ x. (refresh_scores_if_needed infinity book' later x).venue_scores) first
            ∙ ap (λ (x : SmartOrderRouter A). x.venue_scores) renewed
            ∙ sym again,
      )
