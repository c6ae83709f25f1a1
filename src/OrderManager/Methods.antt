-- ===== src/OrderManager/Methods.antt =====
-- execution/order_manager.py: the methods of `OrderManager` that place, confirm, fill and cancel
-- orders.
use cto_test_ai_trading_bot.Prelude.{
  ℕ, String, Bool, true, false, Option, none, some, List, [], ◌∷◌, ◌++◌, map, ◌&&◌, if◌then◌else◌,
  str_eq,
}
use cto_test_ai_trading_bot.Prelude.Dict.{Dict, lookup, insert}
use cto_test_ai_trading_bot.Prelude.Number.{
  Number, ◌⊕◌, ◌⊖◌, ◌⊘◌, ◌≺◌, ratio, zero_num, absolute, total,
}
use cto_test_ai_trading_bot.Idempotency.{check_and_set, set_result}
use cto_test_ai_trading_bot.Order.{
  Order, OrderSide, OrderType, Metadata, pending, submitted, partially_filled, filled, cancelled,
  is_active, post_init, total_value,
}
use cto_test_ai_trading_bot.OrderManager.{
  OrderManager, Breaker, breaker_open, RouterReply, Reply, resolve_exchange, check_self_trade,
  record_audit, circuit_breaker_open, idempotent_retry, created, order_not_found, cancelled_ok,
  order_not_active, get_order,
}

-- The arguments of `place_order`, and what it reads from outside. `client_id` is the caller's id if
-- it gave one, else the one that `generate_client_order_id` makes.
pub record Request (A : Type 0) : Type 0 where
  pub exchange : String
  pub symbol : String
  pub side : OrderSide
  pub quantity : A
  pub price : A
  pub order_type : OrderType
  pub client_order_id : Option String
  pub metadata : Dict (Metadata A)
  pub now : ℕ
  pub generated_client_id : String
  pub generated_order_id : String
  pub breaker : Breaker
  pub router : Option (RouterReply A)
  pub exchanges : List (String × Bool)

-- `if not client_order_id: client_order_id = self.generate_client_order_id(…)`
unfoldable pub choose_client_id : Option String → String → String
choose_client_id none generated = generated
choose_client_id (some id) generated = if str_eq id "" then generated else id

-- `d[(venue, id)] = order`
unfoldable pub insert_pair :
    String → String → String → List (String × String × String) → List (String × String × String)
insert_pair v e id [] = (v, e, id) ∷ []
insert_pair v e id (x ∷ xs) =
    if str_eq x.0 v && str_eq x.1 e then (v, e, id) ∷ xs else x ∷ insert_pair v e id xs

module _ {A : Type 0} ⦃num : Number A⦄ where
  abbrev pub client_id : Request A → String
  client_id r = choose_client_id r.client_order_id r.generated_client_id

  -- `Order(…)` in `place_order`
  unfoldable pub new_order : Request A → String → Dict (Metadata A) → Order A
  unfolding post_init
  new_order r venue metadata = post_init (record {
    order_id = r.generated_order_id;
    client_order_id = client_id r;
    symbol = r.symbol;
    side = r.side;
    order_type = r.order_type;
    quantity = r.quantity;
    price = r.price;
    status = pending;
    filled_quantity = zero_num;
    remaining_quantity = zero_num;
    avg_fill_price = zero_num;
    cumulative_quantity = zero_num;
    average_fill_price = zero_num;
    total_fee = zero_num;
    created_at = r.now;
    updated_at = r.now;
    submitted_at = none;
    filled_at = none;
    exchange_order_id = none;
    venue = venue;
    stages = [];
    fills = [];
    metadata = metadata;
  })

  -- the block "Store order"
  unfoldable pub store_order : Order A → ℕ → OrderManager A → OrderManager A
  unfolding record_audit
  store_order o now m = record_audit "ORDER_CREATED" o now (record m {
    orders = insert o.order_id o m.orders;
    client_order_map = insert o.client_order_id o.order_id m.client_order_map;
    pending_orders = insert o.order_id o.order_id m.pending_orders;
    idempotency = set_result o.client_order_id o.order_id [] m.idempotency;
  })

  -- from the check for self-trades on, for the venue that was chosen
  unfoldable pub create_order :
      Request A → String × Dict (Metadata A) → OrderManager A → OrderManager A × Reply
  create_order r (venue, metadata) m = elim (check_self_trade venue r.symbol r.side r.now m) [
    | some reason ↦ (m, record { success = false; order = none; reason = reason })
    | none ↦
        let o = new_order r venue metadata in
        (
          store_order o r.now m,
          record { success = true; order = some o.order_id; reason = created },
        )
  ]

  -- from the answer of the idempotency check on: `duplicate` is that answer, and `cached` what
  -- `client_order_map` holds
  unfoldable pub place_checked :
      Request A → Bool → Option String → OrderManager A → OrderManager A × Reply
  unfolding create_order
  place_checked r true (some id) m =
      (m, record { success = true; order = some id; reason = idempotent_retry })
  place_checked r true none m =
      create_order r (resolve_exchange r.exchanges r.router r.exchange r.metadata) m
  place_checked r false cached m =
      create_order r (resolve_exchange r.exchanges r.router r.exchange r.metadata) m

  unfoldable pub place_order : Request A → OrderManager A → OrderManager A × Reply
  unfolding place_checked
  place_order r m =
      if breaker_open r.breaker
      then (m, record { success = false; order = none; reason = circuit_breaker_open })
      else let checked = check_and_set (client_id r) r.now m.idempotency in
        place_checked r checked.1 (lookup (client_id r) m.client_order_map)
          (record m { idempotency = checked.0 })

  -- a write through the reference that `client_order_map` holds
  unfoldable pub update_order : Order A → OrderManager A → OrderManager A
  update_order o m = record m { orders = insert o.order_id o m.orders }

  unfoldable pub confirm_order_submission :
      String → String → ℕ → OrderManager A → OrderManager A × Option (Order A)
  unfolding update_order record_audit
  confirm_order_submission client_order_id exchange_order_id now m =
      elim (get_order client_order_id m) [
        | none ↦ (m, none)
        | some o ↦
            let o' = record o {
              exchange_order_id = some exchange_order_id;
              status = submitted;
              submitted_at = some now;
            } in
            let m' = update_order o' m in
            (
              record_audit "ORDER_SUBMITTED" o' now (record m' {
                exchange_order_map =
                    insert_pair o'.venue exchange_order_id o'.order_id m'.exchange_order_map;
              }),
              some o',
            )
      ]

  -- the order with a fill: `fills`, the sums over them, and the status
  unfoldable pub apply_fill : String → A → A → A → ℕ → Order A → Order A
  apply_fill fill_id quantity price fee now o =
      let fills =
        o.fills
        ++ record {
          fill_id = fill_id;
          timestamp = now;
          quantity = quantity;
          price = price;
          fee = fee;
        }
          ∷ [] in
      let cumulative = o.cumulative_quantity ⊕ quantity in
      let whole = absolute (cumulative ⊖ o.quantity) ≺ ratio 1 100_000_000 in
      record o {
        fills = fills;
        cumulative_quantity = cumulative;
        total_fee = o.total_fee ⊕ fee;
        average_fill_price =
            if zero_num ≺ cumulative then total (map total_value fills) ⊘ cumulative else zero_num;
        status =
            if whole then filled else if zero_num ≺ cumulative then partially_filled else o.status;
        filled_at = if whole then some now else o.filled_at;
      }

  unfoldable pub record_fill :
      String → String → A → A → A → ℕ → OrderManager A → OrderManager A × Option (Order A)
  unfolding update_order record_audit
  record_fill client_order_id fill_id quantity price fee now m =
      elim (get_order client_order_id m) [
        | none ↦ (m, none)
        | some o ↦
            let o' = apply_fill fill_id quantity price fee now o in
            (record_audit "ORDER_FILL" o' now (update_order o' m), some o')
      ]

  unfoldable pub cancel_order : String → ℕ → OrderManager A → OrderManager A × Reply
  unfolding update_order record_audit
  cancel_order client_order_id now m = elim (get_order client_order_id m) [
    | none ↦ (m, record { success = false; order = none; reason = order_not_found })
    | some o ↦
        if is_active o.status
        then (
          record_audit "ORDER_CANCELLED" (record o { status = cancelled }) now
              (update_order (record o { status = cancelled }) m),
          record { success = true; order = some o.order_id; reason = cancelled_ok },
        )
        else (
          m,
          record { success = false; order = some o.order_id; reason = order_not_active o.status },
        )
  ]
