-- ===== src/OrderRoutes/Changes.antt =====
-- interface/routes/orders.py: the handlers that cancel and create orders.
use cto_test_ai_trading_bot.Prelude.{
  ℕ, ◌+◌, String, Bool, true, Option, none, some, List, [], ◌∷◌, ◌&&◌, if◌then◌else◌, str_eq,
}
use cto_test_ai_trading_bot.Prelude.Dict.{lookup, values}
use cto_test_ai_trading_bot.Prelude.Number.{Number, ◌≺◌, zero_num}
use cto_test_ai_trading_bot.Order.{Order, Metadata, text, flag, time, nothing}
use cto_test_ai_trading_bot.Http.{ok, http_error, threw, internal_error, as_internal, first_where}
use cto_test_ai_trading_bot.OrderManager.{OrderManager, Reply}
use cto_test_ai_trading_bot.OrderManager.Methods.{Request, place_order}
use cto_test_ai_trading_bot.OrderManager.Methods as Methods
use cto_test_ai_trading_bot.OrderRoutes.{
  OrderRequest, Outside, OrderResponse, because, Response, require_order_manager, map_order_type,
  map_side, to_response, cancelled_response, open_matching, not_found, invalid_request,
}

module _ {A : Type 0} ⦃num : Number A⦄ where
  unfoldable pub cancel_found :
      ℕ → String → Option (Order A) → OrderManager A → OrderManager A × Response String
  unfolding cancelled_response
  cancel_found now order_id none m = (m, http_error 404 not_found)
  cancel_found now order_id (some o) m =
      if str_eq o.client_order_id ""
      then (m, http_error 404 not_found)
      else cancelled_response order_id (Methods.cancel_order o.client_order_id now m)

  unfoldable pub cancel_order :
      ℕ → String → String → Option (OrderManager A) → Option (OrderManager A) × Response String
  unfolding cancel_found
  cancel_order now order_id venue = require_order_manager λ m.
      cancel_found now order_id
        (first_where (λ o. str_eq o.order_id order_id && str_eq o.venue venue) (values m.orders)) m

  -- the loop of `cancel_all_open_orders`
  unfoldable pub cancel_each : ℕ → List (Order A) → OrderManager A → OrderManager A × ℕ
  cancel_each now [] m = (m, 0)
  cancel_each now (o ∷ os) m =
      if str_eq o.client_order_id ""
      then cancel_each now os m
      else let (m1, reply) = Methods.cancel_order o.client_order_id now m in
        let (m2, count) = cancel_each now os m1 in (m2, if reply.success then count + 1 else count)

  abbrev cancel_matching : ℕ → Option String → Option String → OrderManager A → OrderManager A × ℕ
  cancel_matching now venue symbol m = cancel_each now (open_matching venue symbol m) m

  unfoldable pub cancel_all_open_orders :
      ℕ
      → Option String
      → Option String
      → Option (OrderManager A)
      → Option (OrderManager A) × Response ℕ
  unfolding cancel_each
  cancel_all_open_orders now venue symbol manager =
      let (manager', reply) =
        require_order_manager
          (λ m. let (m', count) = cancel_matching now venue symbol m in (m', ok count)) manager in
      (manager', as_internal reply)

  -- the constraints `gt=0` of the request's fields
  unfoldable pub is_accepted : OrderRequest A → Bool
  is_accepted r = (zero_num ≺ r.quantity) && elim r.price [ none ↦ true | some p ↦ zero_num ≺ p ]

  abbrev pub optional_text : Option String → Metadata A
  optional_text none = nothing
  optional_text (some t) = text t

  -- the call of `manager.place_order`
  unfoldable pub to_call : OrderRequest A → Option String → Outside A → Request A
  unfolding map_side map_order_type
  to_call r idempotency_key out = record {
    exchange = r.venue;
    symbol = r.symbol;
    side = map_side r.side;
    quantity = r.quantity;
    price = elim r.price [ none ↦ zero_num | some p ↦ p ];
    order_type = map_order_type r.order_type;
    client_order_id = r.client_order_id;
    metadata =
        ("time_in_force", text r.time_in_force)
        ∷ ("reduce_only", flag r.reduce_only)
        ∷ ("client_order_id", optional_text r.client_order_id)
        ∷ ("idempotency_key", optional_text idempotency_key)
        ∷ ("api_created_at", time out.now)
        ∷ [];
    now = out.now;
    generated_client_id = out.generated_client_id;
    generated_order_id = out.generated_order_id;
    breaker = out.breaker;
    router = out.router;
    exchanges = out.exchanges;
  }

  -- the order of a reply of the manager, which gives it by its id
  unfoldable pub order_of : OrderManager A → Reply → Option (Order A)
  order_of m reply = elim reply.order [ none ↦ none | some id ↦ lookup id m.orders ]

  unfoldable pub answer : Reply → Option (Order A) → Response (OrderResponse A)
  answer reply none = http_error 400 (because reply.reason)
  answer reply (some o) =
      if reply.success then ok (to_response o) else http_error 400 (because reply.reason)

  unfoldable pub create_with :
      OrderRequest A
      → Option String
      → Outside A
      → OrderManager A
      → OrderManager A × Response (OrderResponse A)
  unfolding answer
  create_with r idempotency_key out m =
      let (m', reply) = place_order (to_call r idempotency_key out) m in
      (m', answer reply (order_of m' reply))

  unfoldable pub create_order :
      OrderRequest A
      → Option String
      → Outside A
      → Option (OrderManager A)
      → Option (OrderManager A) × Response (OrderResponse A)
  create_order r idempotency_key out = require_order_manager (create_with r idempotency_key out)

  -- the request on its way to `create_order`
  unfoldable pub post_order :
      OrderRequest A
      → Option String
      → Outside A
      → Option (OrderManager A)
      → Option (OrderManager A) × Response (OrderResponse A)
  unfolding is_accepted create_order
  post_order r idempotency_key out manager =
      if is_accepted r
      then create_order r idempotency_key out manager
      else (manager, http_error 422 invalid_request)

  -- the loop of `create_batch_orders`, which an exception of `create_order` leaves
  unfoldable pub create_each :
      List (OrderRequest A × Outside A)
      → Option (OrderManager A)
      → Option (OrderManager A) × Response (List (OrderResponse A))
  create_each [] manager = (manager, ok [])
  create_each ((r, out) ∷ rest) manager =
      let (manager1, first) = create_order r none out manager in
      let (manager2, others) = create_each rest manager1 in
      elim first [
        | http_error code detail ↦ (manager1, http_error code detail)
        | threw detail ↦ (manager1, threw detail)
        | internal_error codes detail ↦ (manager1, internal_error codes detail)
        | ok result ↦ (
          manager2,
          elim others [
            | http_error code detail ↦ http_error code detail
            | threw detail ↦ threw detail
            | internal_error codes detail ↦ internal_error codes detail
            | ok results ↦ ok (result ∷ results)
          ],
        )
      ]

  unfoldable pub create_batch_orders :
      List (OrderRequest A × Outside A)
      → Option (OrderManager A)
      → Option (OrderManager A) × Response (List (OrderResponse A))
  unfolding create_each
  create_batch_orders orders manager =
      let (manager', reply) = create_each orders manager in (manager', as_internal reply)
