-- ===== src/Order.antt =====
-- execution/order_manager.py: the order and its parts, with the methods of `Order`. `A` is the type
-- of the floats; times are milliseconds of the clock. The fields `time_in_force`, `reduce_only`,
-- `user_id`, `tags` and `error_message`, which no method here reads or writes, are left out.
pub mod Fills
mod Tests
use cto_test_ai_trading_bot.Prelude.{
  ℕ, String, Bool, true, false, Option, none, some, List, [], ◌∷◌, ◌++◌, map, if◌then◌else◌, not,
}
use cto_test_ai_trading_bot.Prelude.Dict.{Dict}
use cto_test_ai_trading_bot.Prelude.Number.{
  Number, ◌⊕◌, ◌⊖◌, ◌⊗◌, ◌⊘◌, ◌≺◌, ◌≼◌, zero_num, equal, larger,
}

pub data OrderStatus : Type 0 where
  pending submitted opened partially_filled filled cancelled rejected expired : OrderStatus

pub data OrderSide : Type 0 where
  buy sell : OrderSide

pub data OrderType : Type 0 where
  limit market post_only ioc : OrderType

pub data OrderLifecycleStage : Type 0 where
  validation risk_check submission acknowledgement partial_fill complete_fill cancellation
        completion :
      OrderLifecycleStage

pub record OrderStage : Type 0 where
  pub stage : OrderLifecycleStage
  pub timestamp : ℕ

pub record OrderFill (A : Type 0) : Type 0 where
  pub fill_id : String
  pub timestamp : ℕ
  pub quantity : A
  pub price : A
  pub fee : A

-- What `metadata` holds: what the callers put in (texts, flags, times and `None`), texts of the
-- routing, and the routing decision
pub data Metadata (A : Type 0) : Type 0 where
  text : String → Metadata A
  flag : Bool → Metadata A
  time : ℕ → Metadata A
  nothing : Metadata A
  routing : (venue : String) → (confidence expected_avg_price : A) → Metadata A

pub record Order (A : Type 0) : Type 0 where
  pub order_id : String
  pub client_order_id : String
  pub symbol : String
  pub side : OrderSide
  pub order_type : OrderType
  pub quantity : A
  pub price : A
  pub status : OrderStatus
  pub filled_quantity : A
  pub remaining_quantity : A
  pub avg_fill_price : A
  pub cumulative_quantity : A
  pub average_fill_price : A
  pub total_fee : A
  pub created_at : ℕ
  pub updated_at : ℕ
  pub submitted_at : Option ℕ
  pub filled_at : Option ℕ
  pub exchange_order_id : Option String
  pub venue : String
  pub stages : List OrderStage
  pub fills : List (OrderFill A)
  pub metadata : Dict (Metadata A)

-- `status in [PENDING, SUBMITTED, OPEN, PARTIALLY_FILLED]`
unfoldable pub is_active : OrderStatus → Bool
is_active pending = true
is_active submitted = true
is_active opened = true
is_active partially_filled = true
is_active _ = false

unfoldable pub is_filled : OrderStatus → Bool
is_filled filled = true
is_filled _ = false

unfoldable pub same_side : OrderSide → OrderSide → Bool
same_side buy buy = true
same_side sell sell = true
same_side _ _ = false

module _ {A : Type 0} ⦃num : Number A⦄ where
  -- `__post_init__`
  unfoldable pub post_init : Order A → Order A
  post_init o =
      if equal o.remaining_quantity zero_num
      then record o { remaining_quantity = o.quantity }
      else o

  unfoldable pub total_value : OrderFill A → A
  total_value f = f.quantity ⊗ f.price

  unfoldable pub add_stage : OrderLifecycleStage → ℕ → Order A → Order A
  add_stage stage now o = record o {
    stages = o.stages ++ record { stage = stage; timestamp = now } ∷ [];
    updated_at = now;
  }

  unfoldable pub update_fill : A → A → ℕ → Order A → Order A
  unfolding add_stage
  update_fill fill_qty fill_price now o =
      let value = (o.avg_fill_price ⊗ o.filled_quantity) ⊕ (fill_price ⊗ fill_qty) in
      let done = o.filled_quantity ⊕ fill_qty in
      let o' = record o {
        filled_quantity = done;
        remaining_quantity = larger zero_num (o.quantity ⊖ done);
        avg_fill_price = if zero_num ≺ done then value ⊘ done else o.avg_fill_price;
        updated_at = now;
      } in
      if o.quantity ≼ done
      then add_stage complete_fill now (record o' { status = filled })
      else add_stage partial_fill now (record o' { status = partially_filled })
