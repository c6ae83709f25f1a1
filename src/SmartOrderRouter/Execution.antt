-- ===== src/SmartOrderRouter/Execution.antt =====
-- execution/smart_order_router.py: every scored venue has an executor, so a decision is executed in
-- full.
use cto_test_ai_trading_bot.Prelude.{
  ℕ, ◌≡◌, sym, Bool, true, false, Option, some, List, [], ◌∷◌, map, foldl, arith, if◌then◌else◌,
  Bool-cases, inl, inr, All, keep,
}
use mathlib.Core.Path.{subst}
use cto_test_ai_trading_bot.Prelude.Number.{Number}
use cto_test_ai_trading_bot.Order.{OrderSide}
use cto_test_ai_trading_bot.SmartOrderRouter.{
  SmartOrderRouter, Executors, Venue, binance, bybit, okx, VenueScore, Weights, Snapshot,
  has_executor, active_venues, same_venue,
}
use cto_test_ai_trading_bot.SmartOrderRouter.Methods.{
  insert_score, initialize, refresh_scores_if_needed, score_all, route_order,
  update_routing_weights,
}

keep-All : {X : Type 0} (test : X → Bool) (xs : List X) → All (λ x. test x ≡ true) (keep test xs)
keep-All test [] = tt
keep-All test (x ∷ xs) = elim (Bool-cases (test x)) [
  | inl kept ↦
      subst (λ b. All (λ x. test x ≡ true) (if b then x ∷ keep test xs else keep test xs))
        (sym kept) (kept, keep-All test xs)
  | inr left_out ↦
      subst (λ b. All (λ x. test x ≡ true) (if b then x ∷ keep test xs else keep test xs))
        (sym left_out) (keep-All test xs)
]

active_venues-IsExecutable : (e : Executors) → All (λ v. has_executor v e ≡ true) (active_venues e)
unfolding active_venues
active_venues-IsExecutable e = keep-All (λ v. has_executor v e) (binance ∷ bybit ∷ okx ∷ [])

module _ {A : Type 0} ⦃num : Number A⦄ where
  -- every scored venue has an executor
  abbrev pub IsExecutable : Executors → List (Venue × VenueScore A) → Type 0
  IsExecutable e = All (λ x. has_executor x.0 e ≡ true)

  pub IsValid : SmartOrderRouter A → Type 0
  IsValid r = IsExecutable r.executors r.venue_scores

  insert_score-IsExecutable :
      (e : Executors) (v : Venue) (s : VenueScore A) (d : List (Venue × VenueScore A))
      → has_executor v e ≡ true
      → IsExecutable e d
      → IsExecutable e (insert_score v s d)
  unfolding insert_score
  insert_score-IsExecutable e v s [] p h = (p, tt)
  insert_score-IsExecutable e v s (x ∷ d) p h = elim (Bool-cases (same_venue x.0 v)) [
    | inl same ↦ rw same (p, h.1)
    | inr other ↦ rw other (h.0, insert_score-IsExecutable e v s d p h.1)
  ]

  foldl-IsExecutable :
      (e : Executors) (f : Venue → VenueScore A) (vs : List Venue) (d : List (Venue × VenueScore A))
      → All (λ v. has_executor v e ≡ true) vs
      → IsExecutable e d
      → IsExecutable e (foldl (λ d v. insert_score v (f v) d) d vs)
  foldl-IsExecutable e f [] d p h = h
  foldl-IsExecutable e f (v ∷ vs) d p h =
      foldl-IsExecutable e f vs (insert_score v (f v) d) p.1
        (insert_score-IsExecutable e v (f v) d p.0 h)

  map-IsExecutable :
      (e : Executors) (f : Venue → VenueScore A) (vs : List Venue)
      → All (λ v. has_executor v e ≡ true) vs
      → IsExecutable e (map (λ v. (v, f v)) vs)
  map-IsExecutable e f [] p = tt
  map-IsExecutable e f (v ∷ vs) p = (p.0, map-IsExecutable e f vs p.1)

  refresh_with-IsValid :
      (r : SmartOrderRouter A) (now : ℕ) (b : Bool) (d : List (Venue × VenueScore A))
      → IsValid r
      → IsExecutable r.executors d
      → IsValid (
          if b then r else elim d [
            | [] ↦ r
            | e ∷ es ↦ record r { venue_scores = e ∷ es; last_score_refresh = now }
          ])
  unfolding IsValid
  refresh_with-IsValid r now true d h p = h
  refresh_with-IsValid r now false [] h p = h
  refresh_with-IsValid r now false (e ∷ es) h p = p

  pub refresh_scores-IsValid :
      (infinity : A) (book : Venue → Option (Snapshot A)) (now : ℕ) (r : SmartOrderRouter A)
      → IsValid r
      → IsValid (refresh_scores_if_needed infinity book now r)
  unfolding refresh_scores_if_needed
  refresh_scores-IsValid infinity book now r h =
      refresh_with-IsValid r now _ (score_all infinity book r) h (
        map-IsExecutable r.executors _ (active_venues r.executors)
          (active_venues-IsExecutable r.executors))

  initialize-IsValid :
      (infinity : A) (book : Venue → Option (Snapshot A)) (r : SmartOrderRouter A)
      → IsValid r
      → IsValid (initialize infinity book r)
  unfolding initialize IsValid
  initialize-IsValid infinity book r h =
      foldl-IsExecutable r.executors _ (active_venues r.executors) r.venue_scores
        (active_venues-IsExecutable r.executors) h

  -- One call of a method that changes the router
  pub data Step (r : SmartOrderRouter A) : SmartOrderRouter A → Type 0 where
    initialized :
        (infinity : A) (book : Venue → Option (Snapshot A)) → Step r (initialize infinity book r)
    ordered :
        (infinity : A) (book top : Venue → Option (Snapshot A)) (now : ℕ) (side : OrderSide)
        (quantity : A) (max_venues : ℕ) (min_score : A)
        → Step r (route_order infinity book top now side quantity max_venues min_score r).0
    reweighted :
        (w : Weights A) {r' : SmartOrderRouter A} → update_routing_weights w r ≡ some r' → Step r r'

  pub data Reach (r : SmartOrderRouter A) : SmartOrderRouter A → Type 0 where
    here : Reach r r
    next : {s t : SmartOrderRouter A} → Reach r s → Step s t → Reach r t

  Step-IsValid : {r s : SmartOrderRouter A} → Step r s → IsValid r → IsValid s
  unfolding route_order update_routing_weights IsValid
  Step-IsValid {r} (initialized infinity book) h = initialize-IsValid infinity book r h
  Step-IsValid {r} (ordered infinity book top now side quantity max_venues min_score) h =
      refresh_scores-IsValid infinity book now r h
  Step-IsValid {r} {s} (reweighted w e) h =
      let same : s ≡ record r { routing_weights = w } = ground arith in subst IsValid (sym same) h

  pub calls-IsExecutable : {r s : SmartOrderRouter A} → IsValid r → Reach r s → IsValid s
  calls-IsExecutable h here = h
  calls-IsExecutable h (next r s) = Step-IsValid s (calls-IsExecutable h r)
