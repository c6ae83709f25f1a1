-- ===== src/OrderRoutes.antt =====
-- interface/routes/orders.py: the handlers of the orders API, over the order manager. The state is the
-- attached manager, if there is one. What a call of the manager reads from outside is an argument, as
-- there; a limit below zero counts from the end, as in Python.
pub mod Changes
pub mod Listing
pub mod CancelAll
pub mod Wanted
mod Selecting
pub mod Batch
mod Tests
use cto_test_ai_trading_bot.Prelude.{
  ℕ, ◌+◌, ◌-◌, String, Bool, true, false, Option, none, some, List, [], ◌∷◌, map, ◌&&◌, leb, ltb,
  if◌then◌else◌, length, keep, take, str_eq,
}
use cto_test_ai_trading_bot.Prelude.Int.{ℤ, pos, negsuc}
use cto_test_ai_trading_bot.Prelude.Dict.{Dict, lookup, values}
use cto_test_ai_trading_bot.Prelude.Text.{codes, lower, same_codes}
use cto_test_ai_trading_bot.Prelude.Number.{Number, ◌≺◌, zero_num}
use cto_test_ai_trading_bot.Order.{
  Order, OrderStatus, Metadata, text, flag, time, nothing, pending, submitted, opened,
  partially_filled, filled, cancelled, rejected, expired,
}
use cto_test_ai_trading_bot.Order as Om
use cto_test_ai_trading_bot.Http as Http
use cto_test_ai_trading_bot.Http.{ok, http_error, as_internal, narrow, first_where}
use cto_test_ai_trading_bot.OrderManager.{OrderManager, Breaker, RouterReply, Reply, Reason}
use cto_test_ai_trading_bot.OrderManager.Methods.{Request, place_order}
use cto_test_ai_trading_bot.OrderManager.Methods as Methods
use cto_test_ai_trading_bot.OrderManager.Queries as Queries

pub data OrderSide : Type 0 where
  buy sell : OrderSide

pub data OrderType : Type 0 where
  market limit stop : OrderType

pub record OrderRequest (A : Type 0) : Type 0 where
  pub symbol : String
  pub side : OrderSide
  pub order_type : OrderType
  pub quantity : A
  pub price : Option A
  pub time_in_force : String
  pub venue : String
  pub reduce_only : Bool
  pub client_order_id : Option String

-- What the handler and the manager read from outside during one request
pub record Outside (A : Type 0) : Type 0 where
  pub now : ℕ
  pub generated_client_id : String
  pub generated_order_id : String
  pub breaker : Breaker
  pub router : Option (RouterReply A)
  pub exchanges : List (String × Bool)

pub record OrderResponse (A : Type 0) : Type 0 where
  pub order_id : String
  pub client_order_id : String
  pub symbol : String
  pub side : OrderSide
  pub order_type : OrderType
  pub quantity : A
  pub price : A
  pub filled_quantity : A
  pub remaining_quantity : A
  pub avg_fill_price : A
  pub status : OrderStatus
  pub venue : String
  pub created_at : ℕ
  pub updated_at : ℕ

-- the `detail` of an HTTP error
pub data Detail : Type 0 where
  order_manager_unavailable not_found invalid_request : Detail
  because : Reason → Detail

abbrev pub Response : Type 0 → Type 0
Response = Http.Response Detail

-- `_require_order_manager`
unfoldable pub require_order_manager :
    {M B : Type 0} → (M → M × Response B) → Option M → Option M × Response B
require_order_manager = Http.require order_manager_unavailable

unfoldable pub map_order_type : OrderType → Om.OrderType
map_order_type market = Om.market
map_order_type limit = Om.limit
map_order_type stop = Om.limit

unfoldable pub map_side : OrderSide → Om.OrderSide
map_side buy = Om.buy
map_side sell = Om.sell

unfoldable pub response_side : Om.OrderSide → OrderSide
response_side Om.buy = buy
response_side Om.sell = sell

unfoldable pub response_type : Om.OrderType → OrderType
response_type Om.market = market
response_type _ = limit

-- the value of the status, a text
unfoldable pub status_text : OrderStatus → String
status_text pending = "pending"
status_text submitted = "submitted"
status_text opened = "open"
status_text partially_filled = "partially_filled"
status_text filled = "filled"
status_text cancelled = "cancelled"
status_text rejected = "rejected"
status_text expired = "expired"

-- `a.lower() == b.lower()`
unfoldable pub same_lower : String → String → Bool
same_lower a b = same_codes (map lower (codes a)) (map lower (codes b))

-- `xs[:limit]`
unfoldable pub slice : {T : Type 0} → ℤ → List T → List T
slice (pos n) xs = take n xs
slice (negsuc n) xs = take (length xs - (n + 1)) xs

module _ {A : Type 0} where
  unfoldable pub to_response : Order A → OrderResponse A
  unfolding response_side response_type
  to_response o = record {
    order_id = o.order_id;
    client_order_id = o.client_order_id;
    symbol = o.symbol;
    side = response_side o.side;
    order_type = response_type o.order_type;
    quantity = o.quantity;
    price = o.price;
    filled_quantity = o.filled_quantity;
    remaining_quantity = o.remaining_quantity;
    avg_fill_price = o.avg_fill_price;
    status = o.status;
    venue = o.venue;
    created_at = o.created_at;
    updated_at = o.updated_at;
  }

  -- `sorted(orders, key=created_at, reverse=True)`, which keeps the order of equal times
  unfoldable pub insert_newest : Order A → List (Order A) → List (Order A)
  insert_newest o [] = o ∷ []
  insert_newest o (p ∷ ps) =
      if leb p.created_at o.created_at then o ∷ p ∷ ps else p ∷ insert_newest o ps

  unfoldable pub newest_first : List (Order A) → List (Order A)
  newest_first [] = []
  newest_first (o ∷ os) = insert_newest o (newest_first os)

  unfoldable pub matching :
      Option String → Option String → Option String → OrderManager A → List (Order A)
  unfolding narrow
  matching venue symbol status m =
      narrow status (λ s o. same_lower (status_text o.status) s)
        (narrow symbol (λ s o. str_eq o.symbol s)
          (narrow venue (λ v o. str_eq o.venue v) (values m.orders)))

  unfoldable pub get_orders :
      Option String
      → Option String
      → Option String
      → ℤ
      → Option (OrderManager A)
      → Response (List (OrderResponse A))
  get_orders venue symbol status count manager =
      as_internal
        (require_order_manager
          (λ m.
            (m, ok (map to_response (slice count (newest_first (matching venue symbol status m))))))
          manager).1

  unfoldable pub get_order : String → Option (OrderManager A) → Response (OrderResponse A)
  unfolding first_where
  get_order order_id manager =
      (require_order_manager
        (λ m. (
          m,
          elim (first_where (λ o. str_eq o.order_id order_id) (values m.orders)) [
            | none ↦ http_error 404 not_found
            | some o ↦ ok (to_response o)
          ],
        ))
        manager).1

  -- what `manager.cancel_order` makes of the response
  unfoldable pub cancelled_response :
      String → OrderManager A × Reply → OrderManager A × Response String
  cancelled_response order_id (m, reply) =
      (m, if reply.success then ok order_id else http_error 400 (because reply.reason))

module _ {A : Type 0} ⦃num : Number A⦄ where
  unfoldable pub open_matching : Option String → Option String → OrderManager A → List (Order A)
  unfolding narrow
  open_matching venue symbol m =
      narrow symbol (λ s o. str_eq o.symbol s) (Queries.get_open_orders venue m)

  unfoldable pub get_open_orders :
      Option String → Option String → Option (OrderManager A) → Response (List (OrderResponse A))
  get_open_orders venue symbol manager =
      as_internal
        (require_order_manager (λ m. (m, ok (map to_response (open_matching venue symbol m))))
          manager).1
