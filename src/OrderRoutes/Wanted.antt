-- ===== src/OrderRoutes/Wanted.antt =====
-- interface/routes/orders.py: which orders `cancel_all_open_orders` cancels, by what they are.
use cto_test_ai_trading_bot.Prelude.{
  ℕ, ◌≡◌, refl, ap, ◌∙◌, String, Bool, true, false, Option, none, some, List, [], ◌∷◌,
  if◌then◌else◌, ◌>>=◌, ◌&&◌, ◌||◌, Bool-cases, inl, inr, length, keep, arith, All, str_eq, eq_iff,
}
use cto_test_ai_trading_bot.Prelude.Dict.{Dict, lookup, values}
use cto_test_ai_trading_bot.Prelude.Sets.{string_eq, has}
use cto_test_ai_trading_bot.Prelude.Number.{Number}
use cto_test_ai_trading_bot.Idempotency.Keys.{IsUnique}
use cto_test_ai_trading_bot.Order.{Order, is_active, cancelled}
use cto_test_ai_trading_bot.OrderManager.{OrderManager}
use cto_test_ai_trading_bot.OrderManager.Queries as Queries
use cto_test_ai_trading_bot.OrderManager.Invariant.{IsValid}
use cto_test_ai_trading_bot.Http.{ok, as_internal, narrow, require}
use cto_test_ai_trading_bot.OrderRoutes.{require_order_manager, open_matching}
use cto_test_ai_trading_bot.OrderRoutes.Selecting.{All-map, entries_found}
use cto_test_ai_trading_bot.OrderRoutes.CancelAll.{
  ids, IsReachable, cancelled_if, open_targets, cancel_each_lem,
}
use cto_test_ai_trading_bot.OrderRoutes.Changes.{cancel_each, cancel_all_open_orders}

-- a filter of a query: none, the empty text, or the text that is asked for
abbrev allows : Option String → String → Bool
allows none t = true
allows (some s) t = str_eq s "" || str_eq t s

module _ {A : Type 0} where
  -- the orders that a request is about: the active ones of the venue and of the symbol
  unfoldable pub is_wanted : Option String → Option String → Order A → Bool
  is_wanted venue symbol o = (is_active o.status && allows venue o.venue) && allows symbol o.symbol

  -- the order after the request
  abbrev pub after_request : Option String → Option String → Order A → Order A
  after_request venue symbol o =
      if is_wanted venue symbol o then record o { status = cancelled } else o

module _ {A : Type 0} ⦃num : Number A⦄ where
  keep_all :
      (os : List (Order A)) (p q : Order A → Bool)
      → ((o : Order A) → q o ≡ p o)
      → keep p os ≡ keep q os
  keep_all [] p q h = refl
  keep_all (o ∷ os) p q h = ground (arith, h o, keep_all os p q h)

  keep-keep :
      (p q : Order A → Bool) (os : List (Order A)) → keep q (keep p os) ≡ keep (λ o. p o && q o) os
  keep-keep p q [] = refl
  keep-keep p q (o ∷ os) = ground (arith, keep-keep p q os)

  on_exchange-keep :
      (venue : Option String) (p : Order A → Bool) (os : List (Order A))
      → Queries.on_exchange venue (keep p os) ≡ keep (λ o. p o && allows venue o.venue) os
  on_exchange-keep none p os = keep_all os _ _ (λ o. ground arith)
  on_exchange-keep (some e) p os = elim (Bool-cases (str_eq e "")) [
    | inl empty ↦ rw empty (keep_all os _ _ (λ o. ground (arith, empty)))
    | inr asked ↦
        rw asked
          (keep-keep p (λ o. str_eq o.venue e) os ∙ keep_all os _ _ (λ o. ground (arith, asked)))
  ]

  narrow-keep :
      (symbol : Option String) (p : Order A → Bool) (os : List (Order A))
      → narrow symbol (λ s o. str_eq o.symbol s) (keep p os)
        ≡ keep (λ o. p o && allows symbol o.symbol) os
  unfolding narrow
  narrow-keep none p os = keep_all os _ _ (λ o. ground arith)
  narrow-keep (some e) p os = elim (Bool-cases (str_eq e "")) [
    | inl empty ↦ rw empty (keep_all os _ _ (λ o. ground (arith, empty)))
    | inr asked ↦
        rw asked
          (keep-keep p (λ o. str_eq o.symbol e) os ∙ keep_all os _ _ (λ o. ground (arith, asked)))
  ]

  has-ids-keep :
      (p : Order A → Bool) (id : String) (d : Dict (Order A))
      → All (λ e. (e.1).order_id ≡ e.0) d
      → IsUnique d
      → has id (ids (keep p (values d))) ≡ elim (lookup id d) [ none ↦ false | some o ↦ p o ]
  unfolding has lookup
  has-ids-keep p id [] keyed u = refl
  has-ids-keep p id ((k, o) ∷ d) keyed u =
      ground (arith, has-ids-keep p id d keyed.1 u.1, keyed.0, u.0, eq_iff k id)

  open_matching-keep :
      (venue symbol : Option String) (m : OrderManager A)
      → open_matching venue symbol m ≡ keep (is_wanted venue symbol) (values m.orders)
  unfolding open_matching Queries.get_open_orders is_wanted
  open_matching-keep venue symbol m =
      ap (narrow symbol (λ s o. str_eq o.symbol s))
        (on_exchange-keep venue (λ o. is_active o.status) (values m.orders))
      ∙ narrow-keep symbol (λ o. is_active o.status && allows venue o.venue) (values m.orders)

  cancelled_if-lookup :
      (venue symbol : Option String) (found : Option (Order A)) (b : Bool)
      → b ≡ (elim found [ none ↦ false | some o ↦ is_wanted venue symbol o ])
      → cancelled_if b found ≡ (found >>= λ o. some (after_request venue symbol o))
  cancelled_if-lookup venue symbol none b e = refl
  cancelled_if-lookup venue symbol (some o) b e = ground (arith, e)

  -- For a valid manager in which no id stands twice and the client id of every active order leads to
  -- that order, the handler cancels the orders that are active and have the venue and the symbol of the
  -- query, where a missing or empty venue or symbol allows all. All of these are cancelled and no other
  -- order changes, and the response has their number.
  pub cancel_all_open_orders_lem :
      (now : ℕ) (venue symbol : Option String) (m : OrderManager A)
      → IsValid m
      → IsUnique m.orders
      → IsReachable m
      → (m' : OrderManager A) × (cancel_all_open_orders now venue symbol (some m)
          ≡ (some m', ok (length (keep (is_wanted venue symbol) (values m.orders)))))
        × ((id : String)
            → lookup id m'.orders
              ≡ (lookup id m.orders >>= λ o. some (after_request venue symbol o)))
  unfolding cancel_all_open_orders as_internal require_order_manager require
  cancel_all_open_orders_lem now venue symbol m v u reach =
      let os = open_matching venue symbol m in
      let same = open_matching-keep venue symbol m in
      let (targets, distinct) = open_targets venue symbol m v u reach in
      let (counted, cancels) = cancel_each_lem now os m distinct targets in
      let keyed = All-map (λ e h. v.keyed e.0 e.1 h) m.orders (entries_found m.orders u) in
      (
        (cancel_each now os m).0,
        ap (λ n. (some (cancel_each now os m).0, ok n)) (counted ∙ ap length same),
        λ id.
            cancels id
            ∙ cancelled_if-lookup venue symbol (lookup id m.orders) _ (
                ap (λ l. has id (ids l)) same
                ∙ has-ids-keep (is_wanted venue symbol) id m.orders keyed u),
      )
