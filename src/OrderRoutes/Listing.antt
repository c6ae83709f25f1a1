-- ===== src/OrderRoutes/Listing.antt =====
-- interface/routes/orders.py: which orders `get_orders` lists, and in which order.
use cto_test_ai_trading_bot.Prelude.{
  ℕ, ◌≤◌, ◌≡◌, refl, String, Option, none, some, List, [], ◌∷◌, map, leb, take, arith, All,
  Bool-cases, inl, inr,
}
use mathlib.Core.List.{Perm}
use mathlib.Core.List.Perm
use cto_test_ai_trading_bot.Prelude.Int.{pos}
use cto_test_ai_trading_bot.Order.{Order}
use cto_test_ai_trading_bot.OrderManager.{OrderManager}
use cto_test_ai_trading_bot.Http.{ok, internal_error, as_internal, require}
use cto_test_ai_trading_bot.OrderRoutes.{
  order_manager_unavailable, require_order_manager, to_response, insert_newest, newest_first, slice,
  matching, get_orders,
}

module _ {A : Type 0} where
  abbrev pub IsNoNewer : Order A → Order A → Type 0
  IsNoNewer o p = p.created_at ≤ o.created_at

  -- from the newest to the oldest
  abbrev pub IsNewestFirst : List (Order A) → Type 0
  IsNewestFirst [] = Unit
  IsNewestFirst (o ∷ os) = All (IsNoNewer o) os × IsNewestFirst os

  insert_newest-All :
      (o p : Order A) (os : List (Order A))
      → IsNoNewer p o
      → All (IsNoNewer p) os
      → All (IsNoNewer p) (insert_newest o os)
  unfolding insert_newest
  insert_newest-All o p [] h hs = (h, tt)
  insert_newest-All o p (q ∷ os) h hs = ground (arith, insert_newest-All o p os h hs.1)

  All-older :
      (o p : Order A) (os : List (Order A))
      → IsNoNewer o p
      → All (IsNoNewer p) os
      → All (IsNoNewer o) os
  All-older o p [] h hs = tt
  All-older o p (q ∷ os) h hs = (omega (arith, hs.0), All-older o p os h hs.1)

  insert_newest-IsNewestFirst :
      (o : Order A) (os : List (Order A)) → IsNewestFirst os → IsNewestFirst (insert_newest o os)
  unfolding insert_newest
  insert_newest-IsNewestFirst o [] h = (tt, tt)
  insert_newest-IsNewestFirst o (p ∷ os) h = elim (Bool-cases (leb p.created_at o.created_at)) [
    | inl newer ↦
        let le : p.created_at ≤ o.created_at = ground arith in
        rw newer ((le, All-older o p os le h.0), h)
    | inr older ↦
        rw older (insert_newest-All o p os (ground arith) h.0, insert_newest-IsNewestFirst o os h.1)
  ]

  insert_newest-Perm : (o : Order A) (os : List (Order A)) → Perm (insert_newest o os) (o ∷ os)
  unfolding insert_newest
  insert_newest-Perm o [] = Perm.rfl
  insert_newest-Perm o (p ∷ os) = elim (Bool-cases (leb p.created_at o.created_at)) [
    | inl newer ↦ rw newer Perm.rfl
    | inr older ↦ rw older (Perm.trans (Perm.cons p (insert_newest-Perm o os)) (Perm.swap o p os))
  ]

  newest_first-IsNewestFirst : (os : List (Order A)) → IsNewestFirst (newest_first os)
  unfolding newest_first
  newest_first-IsNewestFirst [] = tt
  newest_first-IsNewestFirst (o ∷ os) =
      insert_newest-IsNewestFirst o (newest_first os) (newest_first-IsNewestFirst os)

  newest_first-Perm : (os : List (Order A)) → Perm (newest_first os) os
  unfolding newest_first
  newest_first-Perm [] = Perm.rfl
  newest_first-Perm (o ∷ os) =
      Perm.trans (insert_newest-Perm o (newest_first os)) (Perm.cons o (newest_first-Perm os))

  -- The listing with a limit of n is the first n of a rearrangement of the matching orders, from
  -- the newest to the oldest. Without a manager it is an internal error, not the 503 that the
  -- helper raises.
  pub get_orders_lem :
      (venue symbol status : Option String) (n : ℕ) (m : OrderManager A)
      → ((sorted : List (Order A)) × (get_orders venue symbol status (pos n) (some m)
            ≡ ok (map to_response (take n sorted)))
          × Perm sorted (matching venue symbol status m)
          × IsNewestFirst sorted)
        × (get_orders {A = A} venue symbol status (pos n) none
            ≡ internal_error (503 ∷ []) order_manager_unavailable)
  unfolding get_orders as_internal require_order_manager require slice
  get_orders_lem venue symbol status n m =
      let found = matching venue symbol status m in
      ((newest_first found, refl, newest_first-Perm found, newest_first-IsNewestFirst found), refl)
