-- ===== src/OrderManager.antt =====
-- execution/order_manager.py: class `OrderManager`. The dictionaries of the program hold references
-- to shared `Order` objects. Here `orders` is the store, under the order ids, and the other maps
-- hold order ids, so a change of an order is seen through each of them.
-- Each method runs under the manager's lock and is one step. Its arguments are also what it reads
-- from outside: the clock (`now`, in milliseconds), the ids that `uuid4` makes, the answer of the
-- attached router, and the entries of the "exchanges" section of the configuration.
pub mod Methods
pub mod Queries
pub mod Invariant
pub mod Books
pub mod Placing
pub mod Retry
pub mod Lifecycle
mod Tests
use cto_test_ai_trading_bot.Prelude.{
  ℕ, ◌+◌, ◌≡◌, String, Bool, true, false, Option, none, some, List, [], ◌∷◌, ◌++◌, map, ◌&&◌, ◌||◌,
  not, ltb, leb, if◌then◌else◌, length, keep, push_bounded, str_eq, is_some,
}
use cto_test_ai_trading_bot.Prelude.Dict.{Dict, lookup, insert, values}
use cto_test_ai_trading_bot.Prelude.Text.{is_word}
use cto_test_ai_trading_bot.Prelude.Number.{
  Number, ◌⊕◌, ◌⊖◌, ◌⊗◌, ◌⊘◌, ◌≺◌, ratio, zero_num, absolute, total,
}
use cto_test_ai_trading_bot.CircuitBreaker.{CircuitState, is_opened}
use cto_test_ai_trading_bot.Idempotency
use cto_test_ai_trading_bot.Idempotency.{IdempotencyManager, check_and_set, set_result}
use cto_test_ai_trading_bot.Order.{
  Order, OrderFill, OrderSide, OrderType, OrderStatus, Metadata, text, routing, pending, submitted,
  partially_filled, filled, cancelled, is_active, is_filled, same_side, post_init, total_value,
}

pub record AuditEntry (A : Type 0) : Type 0 where
  pub timestamp : ℕ
  pub event_type : String
  pub client_order_id : String
  pub exchange_order_id : Option String
  pub symbol : String
  pub status : OrderStatus
  pub cumulative_quantity : A
  pub average_fill_price : A

pub record OrderManager (A : Type 0) : Type 0 where
  pub orders : Dict (Order A)
  pub client_order_map : Dict String
  -- the keys are pairs of a venue and the id that the exchange gave
  pub exchange_order_map : List (String × String × String)
  pub pending_orders : Dict String
  pub idempotency : IdempotencyManager String String
  pub self_trade_window_ms : ℕ
  pub audit_log : List (AuditEntry A)
  pub max_audit_log_size : ℕ

-- The breaker that the manager is given: one with `get_state` (core/circuit_breaker.py), one with
-- the property `tripped` (the breaker of the risk manager, whose reading is given), or neither.
pub data Breaker : Type 0 where
  with_state : CircuitState → Breaker
  with_tripped : Bool → Breaker
  no_breaker : Breaker

unfoldable pub breaker_open : Breaker → Bool
breaker_open (with_state s) = is_opened s
breaker_open (with_tripped b) = b
breaker_open no_breaker = false

-- How a call of `smart_router.route_order` ends: with an exception, with `None`, or with a decision,
-- whose venue is the empty text if it has none.
pub data RouterReply (A : Type 0) : Type 0 where
  failed : String → RouterReply A
  no_decision : RouterReply A
  decided : (venue : String) → (confidence expected_avg_price : A) → RouterReply A

-- The reason texts that the methods return
pub data Reason : Type 0 where
  circuit_breaker_open idempotent_retry created order_not_found cancelled_ok : Reason
  opposing_order_open : String → Reason
  order_not_active : OrderStatus → Reason

-- (success, order, reason); the order is given by its id
pub record Reply : Type 0 where
  pub success : Bool
  pub order : Option String
  pub reason : Reason

-- `_default_exchange`: the first exchange that is enabled
unfoldable pub default_exchange : List (String × Bool) → String
default_exchange [] = "binance"
default_exchange ((id, enabled) ∷ rest) = if enabled then id else default_exchange rest

unfoldable pub wants_routing : String → Bool
wants_routing exchange =
    is_word exchange "auto" || is_word exchange "best" || is_word exchange "router"

module _ {A : Type 0} where
  unfoldable pub init : OrderManager A
  unfolding Idempotency.init
  init = record {
    orders = [];
    client_order_map = [];
    exchange_order_map = [];
    pending_orders = [];
    idempotency = Idempotency.init 86_400_000 50_000;
    self_trade_window_ms = 60_000;
    audit_log = [];
    max_audit_log_size = 100_000;
  }

  abbrev with_mode : String → String → Dict (Metadata A) → Dict (Metadata A)
  with_mode mode exchange metadata =
      insert "requested_exchange" (text exchange) (insert "routing_mode" (text mode) metadata)

  -- the answer of the router, for a request of automatic routing
  unfoldable pub take_decision :
      List (String × Bool) → String → RouterReply A → Dict (Metadata A) → String × Dict (Metadata A)
  take_decision config exchange (failed error) metadata = (
    default_exchange config,
    insert "requested_exchange" (text exchange) (
        insert "routing_error" (text error)
          (insert "routing_mode" (text "fallback_error") metadata)),
  )
  take_decision config exchange no_decision metadata =
      (default_exchange config, with_mode "fallback_no_decision" exchange metadata)
  take_decision config exchange (decided venue confidence price) metadata =
      if str_eq venue ""
      then (default_exchange config, with_mode "fallback_invalid_decision" exchange metadata)
      else (
        venue,
        insert "routing_decision" (routing venue confidence price)
            (with_mode "smart_router" exchange metadata),
      )

  -- `_resolve_exchange`; the router is `none` if none is attached
  unfoldable pub resolve_exchange :
      List (String × Bool)
      → Option (RouterReply A)
      → String
      → Dict (Metadata A)
      → String × Dict (Metadata A)
  unfolding take_decision
  resolve_exchange config router exchange metadata =
      if not (wants_routing exchange) then (exchange, metadata) else elim router [
        | none ↦ (default_exchange config, with_mode "fallback_no_router" exchange metadata)
        | some reply ↦ take_decision config exchange reply metadata
      ]

  unfoldable pub get_order : String → OrderManager A → Option (Order A)
  get_order client_order_id m = elim (lookup client_order_id m.client_order_map) [
    | none ↦ none
    | some order_id ↦ lookup order_id m.orders
  ]

  -- the open orders of the venue and symbol
  abbrev pub is_open_at : String → String → Order A → Bool
  is_open_at exchange symbol o =
      str_eq o.venue exchange && str_eq o.symbol symbol && is_active o.status

  -- the loop of `_check_self_trade` over them: the first that opposes and is young
  unfoldable pub find_opposing : ℕ → ℕ → OrderSide → List (Order A) → Option Reason
  find_opposing now window side [] = none
  find_opposing now window side (o ∷ os) =
      if not (same_side o.side side) && ltb now (o.created_at + window)
      then some (opposing_order_open o.client_order_id)
      else find_opposing now window side os

  unfoldable pub check_self_trade : String → String → OrderSide → ℕ → OrderManager A → Option Reason
  check_self_trade exchange symbol side now m =
      find_opposing now m.self_trade_window_ms side
        (keep (is_open_at exchange symbol) (values m.orders))

  unfoldable pub record_audit : String → Order A → ℕ → OrderManager A → OrderManager A
  record_audit event o now m = record m {
    audit_log =
        push_bounded m.max_audit_log_size
          (record {
            timestamp = now;
            event_type = event;
            client_order_id = o.client_order_id;
            exchange_order_id = o.exchange_order_id;
            symbol = o.symbol;
            status = o.status;
            cumulative_quantity = o.cumulative_quantity;
            average_fill_price = o.average_fill_price;
          })
          m.audit_log;
  }
