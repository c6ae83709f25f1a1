-- ===== src/SmartOrderRouter/Routing.antt =====
-- execution/smart_order_router.py: what a routing decision promises.
use cto_test_ai_trading_bot.Prelude.{
  ℕ, zero, suc, ◌≤◌, ◌≡◌, refl, sym, true, false, Option, none, some, List, [], ◌∷◌, map, arith,
  if◌then◌else◌, Bool-cases, inl, inr, length, All, take,
}
use mathlib.Core.Path.{subst}
use mathlib.Core.List.{Perm}
use mathlib.Core.List.Perm
use cto_test_ai_trading_bot.Prelude.Number.{
  Number, IsOrdered, IsLe, IsLt, ◌⊖◌, ◌⊗◌, ◌≺◌, ratio, zero_num, smaller, smaller-le_left,
  smaller-le_right, total,
}
use cto_test_ai_trading_bot.SmartOrderRouter.{Venue, VenueScore, Route, RoutingDecision}
use cto_test_ai_trading_bot.SmartOrderRouter.Methods.{
  insert_by_score, sort_by_score, make_routes, new_route, decide,
}

module _ {A : Type 0} ⦃num : Number A⦄ where
  -- no score of the list is greater than that of `x`
  abbrev pub IsBest : Venue × VenueScore A → List (Venue × VenueScore A) → Type 0
  IsBest x = All (λ y. IsLe (y.1).score (x.1).score)

  -- from the greatest score to the smallest
  abbrev pub IsDescending : List (Venue × VenueScore A) → Type 0
  IsDescending [] = Unit
  IsDescending (x ∷ xs) = IsBest x xs × IsDescending xs

  -- The routes follow the venues: each takes no more than what remains, and no more than four fifths
  -- of the liquidity of its venue.
  abbrev pub IsRouted : A → List (Venue × VenueScore A) → List (Route A) → Type 0
  IsRouted remaining xs [] = Unit
  IsRouted remaining [] (r ∷ rs) = true ≡ false
  IsRouted remaining (x ∷ xs) (r ∷ rs) =
      IsLt zero_num remaining
      × (r.venue ≡ x.0)
      × (r.score ≡ (x.1).score)
      × IsLe r.quantity remaining
      × IsLe r.quantity ((x.1).liquidity ⊗ ratio 8 10)
      × IsRouted (remaining ⊖ r.quantity) xs rs

  abbrev pub first_venue : List (Route A) → Option Venue
  first_venue [] = none
  first_venue (r ∷ rs) = some r.venue

  All-insert :
      (P : Venue × VenueScore A → Type 0) (x : Venue × VenueScore A)
      (ys : List (Venue × VenueScore A))
      → P x
      → All P ys
      → All P (insert_by_score x ys)
  unfolding insert_by_score
  All-insert P x [] p h = (p, tt)
  All-insert P x (y ∷ ys) p h = elim (Bool-cases ((x.1).score ≺ (y.1).score)) [
    | inl less ↦ rw less (h.0, All-insert P x ys p h.1)
    | inr more ↦ rw more (p, h)
  ]

  All-uninsert :
      (P : Venue × VenueScore A → Type 0) (x : Venue × VenueScore A)
      (ys : List (Venue × VenueScore A))
      → All P (insert_by_score x ys)
      → P x × All P ys
  unfolding insert_by_score
  All-uninsert P x [] h = h
  All-uninsert P x (y ∷ ys) h = elim (Bool-cases ((x.1).score ≺ (y.1).score)) [
    | inl less ↦
        let split : P y × All P (insert_by_score x ys) =
          subst (λ b. All P (if b then y ∷ insert_by_score x ys else x ∷ y ∷ ys)) less h in
        let rest = All-uninsert P x ys split.1 in (rest.0, (split.0, rest.1))
    | inr more ↦ subst (λ b. All P (if b then y ∷ insert_by_score x ys else x ∷ y ∷ ys)) more h
  ]

  All-unsort :
      (P : Venue × VenueScore A → Type 0) (xs : List (Venue × VenueScore A))
      → All P (sort_by_score xs)
      → All P xs
  unfolding sort_by_score
  All-unsort P [] h = tt
  All-unsort P (x ∷ xs) h =
      let rest = All-uninsert P x (sort_by_score xs) h in (rest.0, All-unsort P xs rest.1)

  pub All-sort :
      (P : Venue × VenueScore A → Type 0) (xs : List (Venue × VenueScore A))
      → All P xs
      → All P (sort_by_score xs)
  unfolding sort_by_score
  All-sort P [] h = tt
  All-sort P (x ∷ xs) h = All-insert P x (sort_by_score xs) h.0 (All-sort P xs h.1)

  IsBest-trans :
      IsOrdered num
      → (x y : Venue × VenueScore A) (zs : List (Venue × VenueScore A))
      → IsLe (y.1).score (x.1).score
      → IsBest y zs
      → IsBest x zs
  IsBest-trans ord x y [] h b = tt
  IsBest-trans ord x y (z ∷ zs) h b =
      (ord.le_trans (z.1).score (y.1).score (x.1).score b.0 h, IsBest-trans ord x y zs h b.1)

  insert-IsDescending :
      IsOrdered num
      → (x : Venue × VenueScore A) (ys : List (Venue × VenueScore A)) → IsDescending ys
      → IsDescending (insert_by_score x ys)
  unfolding insert_by_score
  insert-IsDescending ord x [] h = (tt, tt)
  insert-IsDescending ord x (y ∷ ys) h = elim (Bool-cases ((x.1).score ≺ (y.1).score)) [
    | inl less ↦ rw less (
      All-insert _ x ys (ord.lt_asymm (x.1).score (y.1).score less) h.0,
      insert-IsDescending ord x ys h.1,
    )
    | inr more ↦ rw more ((more, IsBest-trans ord x y ys more h.0), h)
  ]

  pub sort-IsDescending :
      IsOrdered num → (xs : List (Venue × VenueScore A)) → IsDescending (sort_by_score xs)
  unfolding sort_by_score
  sort-IsDescending ord [] = tt
  sort-IsDescending ord (x ∷ xs) =
      insert-IsDescending ord x (sort_by_score xs) (sort-IsDescending ord xs)

  insert-Perm :
      (x : Venue × VenueScore A) (ys : List (Venue × VenueScore A))
      → Perm (insert_by_score x ys) (x ∷ ys)
  unfolding insert_by_score
  insert-Perm x [] = Perm.rfl
  insert-Perm x (y ∷ ys) = elim (Bool-cases ((x.1).score ≺ (y.1).score)) [
    | inl less ↦ rw less (Perm.trans (Perm.cons y (insert-Perm x ys)) (Perm.swap x y ys))
    | inr more ↦ rw more Perm.rfl
  ]

  pub sort-Perm : (xs : List (Venue × VenueScore A)) → Perm (sort_by_score xs) xs
  unfolding sort_by_score
  sort-Perm [] = Perm.rfl
  sort-Perm (x ∷ xs) = Perm.trans (insert-Perm x (sort_by_score xs)) (Perm.cons x (sort-Perm xs))

  -- the first of the sorted venues has the greatest score of all
  pub sort_by_score-IsBest :
      IsOrdered num
      → (x : Venue × VenueScore A) (xs ys : List (Venue × VenueScore A)) → sort_by_score xs ≡ x ∷ ys
      → IsBest x xs
  sort_by_score-IsBest ord x xs ys e =
      let down : IsDescending (x ∷ ys) = subst IsDescending e (sort-IsDescending ord xs) in
      All-unsort _ xs (subst (IsBest x) (sym e) (ord.lt_irrefl (x.1).score, down.0))

  pub make_routes-IsRouted :
      IsOrdered num
      → (price : Venue → A) (remaining : A) (xs : List (Venue × VenueScore A))
      → IsRouted remaining xs (make_routes price remaining xs)
  unfolding make_routes new_route
  make_routes-IsRouted ord price remaining [] = tt
  make_routes-IsRouted ord price remaining (x ∷ xs) = elim (Bool-cases (zero_num ≺ remaining)) [
    | inl left ↦
        let quantity = smaller remaining ((x.1).liquidity ⊗ ratio 8 10) in
        rw left (
          left,
          refl,
          refl,
          smaller-le_left ord remaining ((x.1).liquidity ⊗ ratio 8 10),
          smaller-le_right ord remaining ((x.1).liquidity ⊗ ratio 8 10),
          make_routes-IsRouted ord price (remaining ⊖ quantity) xs,
        )
    | inr done ↦ rw done tt
  ]

  pub length-make_routes :
      (price : Venue → A) (remaining : A) (xs : List (Venue × VenueScore A))
      → length (make_routes price remaining xs) ≤ length xs
  unfolding make_routes
  length-make_routes price remaining [] = omega arith
  length-make_routes price remaining (x ∷ xs) =
      let quantity = smaller remaining ((x.1).liquidity ⊗ ratio 8 10) in
      ground (arith, length-make_routes price (remaining ⊖ quantity) xs)

  pub length-take-le : (n : ℕ) (xs : List (Venue × VenueScore A)) → length (take n xs) ≤ n
  length-take-le zero xs = omega arith
  length-take-le (suc n) [] = omega arith
  length-take-le (suc n) (x ∷ xs) = omega (arith, length-take-le n xs)

  -- the first of the selected venues is the first of the sorted ones
  pub take-first :
      (n : ℕ) (x : Venue × VenueScore A) (xs ys : List (Venue × VenueScore A))
      → take n xs ≡ x ∷ ys
      → (zs : List (Venue × VenueScore A)) × (xs ≡ x ∷ zs)
  take-first zero x xs ys e = absurd (cc)
  take-first (suc n) x [] ys e = absurd (cc)
  take-first (suc n) x (y ∷ xs) ys e = (xs, ground arith)

  -- What a decision over selected venues says
  unfoldable pub IsDecided :
      List (Venue × VenueScore A) → List (Route A) → RoutingDecision A → Type 0
  IsDecided [] routes d = true ≡ false
  IsDecided (x ∷ _) routes d =
      (d.routes ≡ routes)
      × (d.recommended_venue ≡ x.0)
      × (d.confidence ≡ (x.1).score)
      × IsLt zero_num d.total_quantity
      × (d.total_quantity ≡ total (map (λ r. r.quantity) routes))

  pub decide_lem :
      (selected : List (Venue × VenueScore A)) (routes : List (Route A)) (d : RoutingDecision A)
      → decide selected routes ≡ some d
      → IsDecided selected routes d
  unfolding decide IsDecided
  decide_lem [] routes d e = cc
  decide_lem (x ∷ xs) routes d e =
      (ground arith, ground arith, ground arith, ground arith, ground arith)

  pub first_venue-make_routes :
      IsOrdered num
      → (price : Venue → A) (remaining : A) (x : Venue × VenueScore A)
        (xs : List (Venue × VenueScore A))
      → IsLt zero_num (total (map (λ r. r.quantity) (make_routes price remaining (x ∷ xs))))
      → first_venue (make_routes price remaining (x ∷ xs)) ≡ some x.0
  unfolding make_routes new_route total
  first_venue-make_routes ord price remaining x xs h = elim (Bool-cases (zero_num ≺ remaining)) [
    | inl left ↦ rw left
    | inr done ↦ ground (arith, ord.lt_irrefl zero_num)
  ]
