-- ===== src/OrderRoutes/CancelAll.antt =====
-- interface/routes/orders.py: `cancel_all_open_orders` over the order manager.
use cto_test_ai_trading_bot.Prelude.{
  ℕ, ◌≡◌, refl, ap, ◌∙◌, String, Bool, true, false, Option, none, some, List, [], ◌∷◌, map,
  if◌then◌else◌, length, keep, arith, All, All-keep, str_eq, eq_iff,
}
use cto_test_ai_trading_bot.Prelude.Dict.{Dict, lookup, insert, values, lookup-insert}
use cto_test_ai_trading_bot.Prelude.Sets.{string_eq, has, IsSetList}
use cto_test_ai_trading_bot.Prelude.Number.{Number}
use cto_test_ai_trading_bot.Idempotency.Keys.{IsUnique}
use cto_test_ai_trading_bot.Order.{Order, is_active, cancelled}
use cto_test_ai_trading_bot.OrderManager.{OrderManager, get_order, record_audit}
use cto_test_ai_trading_bot.OrderManager.Methods.{cancel_order, update_order}
use cto_test_ai_trading_bot.OrderManager.Queries as Queries
use cto_test_ai_trading_bot.OrderManager.Invariant.{IsValid}
use cto_test_ai_trading_bot.Http.{narrow}
use cto_test_ai_trading_bot.OrderRoutes.{open_matching}
use cto_test_ai_trading_bot.OrderRoutes.Selecting.{
  All-map, All-keep_test, keep-IsSetList, contains-keys, entries_found,
}
use cto_test_ai_trading_bot.OrderRoutes.Changes.{cancel_each}

module _ {A : Type 0} ⦃num : Number A⦄ where
  abbrev pub ids : List (Order A) → List String
  ids = map (λ o. o.order_id)

  -- Every active order has a client id, and the client id leads to the order.
  abbrev pub IsReachable : OrderManager A → Type 0
  IsReachable m =
      (id : String) (o : Order A)
      → lookup id m.orders ≡ some o
      → is_active o.status ≡ true
      → (str_eq o.client_order_id "" ≡ false)
        × (lookup o.client_order_id m.client_order_map ≡ some id)

  abbrev pub cancelled_if : Bool → Option (Order A) → Option (Order A)
  cancelled_if b none = none
  cancelled_if b (some o) = if b then some (record o { status = cancelled }) else some o

  abbrev IsTarget : OrderManager A → Order A → Type 0
  IsTarget m o =
      (str_eq o.client_order_id "" ≡ false)
      × (lookup o.client_order_id m.client_order_map ≡ some o.order_id)
      × (lookup o.order_id m.orders ≡ some o)
      × (is_active o.status ≡ true)

  cancel_target :
      (now : ℕ) (o : Order A) (m : OrderManager A)
      → IsTarget m o
      → let (m', reply) = cancel_order o.client_order_id now m in
        (reply.success ≡ true)
        × (m'.orders ≡ insert o.order_id (record o { status = cancelled }) m.orders)
        × (m'.client_order_map ≡ m.client_order_map)
  unfolding cancel_order get_order update_order record_audit
  cancel_target now o m t = (ground (arith, t), ground (arith, t), ground (arith, t))

  still_targets :
      (o : Order A) (m m' : OrderManager A) (os : List (Order A))
      → m'.orders ≡ insert o.order_id (record o { status = cancelled }) m.orders
      → m'.client_order_map ≡ m.client_order_map
      → has o.order_id (ids os) ≡ false
      → All (IsTarget m) os
      → All (IsTarget m') os
  unfolding has
  still_targets o m m' [] p q h ts = tt
  still_targets o m m' (a ∷ os) p q h ts = (
    (
      ts.0.0,
      rw q ts.0.1,
      ground (
        arith,
        ts.0,
        ap (lookup a.order_id) p,
        lookup-insert o.order_id a.order_id (record o { status = cancelled }) m.orders,
        eq_iff a.order_id o.order_id,
        eq_iff o.order_id a.order_id,
      ),
      ts.0.3,
    ),
    still_targets o m m' os p q (ground arith) ts.1,
  )

  pub cancel_each_lem :
      (now : ℕ) (os : List (Order A)) (m : OrderManager A)
      → IsSetList (ids os)
      → All (IsTarget m) os
      → let (m', count) = cancel_each now os m in
        (count ≡ length os)
        × ((id : String)
            → lookup id m'.orders ≡ cancelled_if (has id (ids os)) (lookup id m.orders))
  unfolding cancel_each has
  cancel_each_lem now [] m u ts = (refl, λ id. ground arith)
  cancel_each_lem now (o ∷ os) m u ts =
      let (m1, reply) = cancel_order o.client_order_id now m in
      let (success, saved, mapped) = cancel_target now o m ts.0 in
      let (counted, rest) =
        cancel_each_lem now os m1 u.1 (still_targets o m m1 os saved mapped u.0 ts.1) in
      (
        ground (arith, ts.0.0, success, counted),
        λ id. ground (
          arith,
          ts.0,
          rest id,
          u.0,
          ap (lookup id) saved,
          lookup-insert o.order_id id (record o { status = cancelled }) m.orders,
          eq_iff o.order_id id,
        ),
      )

  values_found :
      (m : OrderManager A) (os : Dict (Order A))
      → ((id : String) (o : Order A) → lookup id m.orders ≡ some o → o.order_id ≡ id)
      → All (λ e. lookup e.0 m.orders ≡ some e.1) os
      → All (λ o. lookup o.order_id m.orders ≡ some o) (values os)
        × (ids (values os) ≡ map (λ e. e.0) os)
  values_found m [] keyed h = (tt, refl)
  values_found m ((k, o) ∷ os) keyed h =
      let (rest, same) = values_found m os keyed h.1 in
      let key = keyed k o h.0 in
      ((ap (λ i. lookup i m.orders) key ∙ h.0, rest), ground (arith, key, same))

  ids-IsSetList : (d : Dict (Order A)) → IsUnique d → IsSetList (map (λ e. e.0) d)
  ids-IsSetList [] u = tt
  ids-IsSetList ((k, o) ∷ d) u = (contains-keys k d ∙ u.0, ids-IsSetList d u.1)

  narrow_targets :
      (v : Option String) (p : String → Order A → Bool) (os : List (Order A)) (m : OrderManager A)
      → All (IsTarget m) os × IsSetList (ids os)
      → All (IsTarget m) (narrow v p os) × IsSetList (ids (narrow v p os))
  unfolding narrow
  narrow_targets none p os m h = h
  narrow_targets (some v) p os m h =
      ground (
        arith,
        h,
        All-keep (IsTarget m) (p v) os h.0,
        keep-IsSetList (λ o. o.order_id) (p v) os h.1,
      )

  exchange_targets :
      (e : Option String) (os : List (Order A)) (m : OrderManager A)
      → All (IsTarget m) os × IsSetList (ids os)
      → All (IsTarget m) (Queries.on_exchange e os) × IsSetList (ids (Queries.on_exchange e os))
  exchange_targets none os m h = h
  exchange_targets (some e) os m h = ground (
    arith,
    h,
    All-keep (IsTarget m) (λ o. str_eq o.venue e) os h.0,
    keep-IsSetList (λ o. o.order_id) (λ o. str_eq o.venue e) os h.1,
  )

  All-both {κ μ} :
      (P : Order A → Type κ) (Q : Order A → Type μ) (os : List (Order A))
      → All P os
      → All Q os
      → All (λ o. P o × Q o) os
  All-both P Q [] p q = tt
  All-both P Q (o ∷ os) p q = ((p.0, q.0), All-both P Q os p.1 q.1)

  pub open_targets :
      (venue symbol : Option String) (m : OrderManager A)
      → IsValid m
      → IsUnique m.orders
      → IsReachable m
      → let os = open_matching venue symbol m in All (IsTarget m) os × IsSetList (ids os)
  unfolding open_matching Queries.get_open_orders
  open_targets venue symbol m v u reach =
      let all = values m.orders in
      let active : Order A → Bool = λ o. is_active o.status in
      let (found, same) = values_found m m.orders v.keyed (entries_found m.orders u) in
      let distinct : IsSetList (ids all) = rw same (ids-IsSetList m.orders u) in
      let targets =
        All-map
          (λ o h. let (named, mapped) = reach o.order_id o h.0 h.1 in (named, mapped, h.0, h.1))
          (keep active all)
          (All-both _ _ (keep active all) (All-keep _ active all found)
            (All-keep_test active all)) in
      narrow_targets symbol (λ s o. str_eq o.symbol s) (Queries.on_exchange venue (keep active all))
        m
        (exchange_targets venue (keep active all) m
          (targets, keep-IsSetList (λ o. o.order_id) active all distinct))
