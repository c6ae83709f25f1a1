-- ===== src/CexExecutor.antt =====
-- execution/cex_executor.py: the live path of `CEXExecutor`. What the client of the exchange answers is
-- an argument; what it is asked to do is an output. Other handlers may run while the path awaits, so
-- the risk manager is the one that it finds at the end.
pub mod Live
mod Tests
use cto_test_ai_trading_bot.Prelude.{
  ℕ, String, Bool, true, false, Option, none, some, List, [], ◌∷◌, ◌++◌, ◌||◌, if◌then◌else◌,
  str_eq,
}
use cto_test_ai_trading_bot.Prelude.Number.{Number, ◌⊘◌, ◌≺◌, zero_num, divide}
use cto_test_ai_trading_bot.Position.{TradingSignal, is_long}
use cto_test_ai_trading_bot.RiskManager.{RiskManager}
use cto_test_ai_trading_bot.RiskManager.Methods.{open_position}

-- the value under a key of a dictionary of the client: the key is missing, or holds `None`
pub data Entry (A : Type 0) : Type 0 where
  missing : Entry A
  null : Entry A
  number : A → Entry A

-- the entries of an order that the code reads; the status is `none` if it is missing or `None`
pub record OrderInfo (A : Type 0) : Type 0 where
  pub status : Option String
  pub filled : Entry A
  pub average : Entry A
  pub price : Entry A

-- What the client is asked to do
pub data Action (A : Type 0) : Type 0 where
  limit_order : (side : String) → (amount price : A) → Action A
  cancel_order : Action A
  market_order : (side : String) → (amount : A) → Action A

-- The answers of the client: to the orders, and to `fetch_order` in each attempt; `none` is an
-- exception. An exception of `cancel_order` is caught and changes nothing.
pub record Answers (A : Type 0) : Type 0 where
  pub limit_answer : Option (OrderInfo A)
  pub fetch_answers : List (Option (OrderInfo A))
  pub market_answer : Option (OrderInfo A)

pub record OrderResult (A : Type 0) : Type 0 where
  pub symbol : String
  pub direction : String
  pub price : A
  pub quantity : A
  pub status : Option String

-- how the polling ends
pub data Polled (A : Type 0) : Type 0 where
  fetched : OrderInfo A → Polled A
  timed_out : Polled A
  failed : Polled A

pub data LiveEvent : Type 0 where
  order_filled order_failed : LiveEvent

-- What `_live_execute` leaves: the actions, the result if there is one, the event, and the manager
pub record Outcome (A : Type 0) : Type 0 where
  pub actions : List (Action A)
  pub result : Option (OrderResult A)
  pub event : Option LiveEvent
  pub manager : RiskManager A

-- `status in ("closed", "filled")`
unfoldable pub is_done : Option String → Bool
is_done none = false
is_done (some status) = str_eq status "closed" || str_eq status "filled"

module _ {A : Type 0} ⦃num : Number A⦄ where
  -- `float(d.get(key, default))`, where the default may itself have raised
  unfoldable pub float_or : Option A → Entry A → Option A
  float_or default missing = default
  float_or default null = none
  float_or default (number x) = some x

  -- the loop of `_wait_for_fill`, over the answers of its attempts
  unfoldable pub poll : List (Option (OrderInfo A)) → Polled A
  unfolding is_done float_or
  poll [] = timed_out
  poll (none ∷ rest) = poll rest
  poll (some f ∷ rest) =
      let later = poll rest in
      if is_done f.status then fetched f else elim (float_or (some zero_num) f.filled) [
        | none ↦ failed
        | some q ↦ if zero_num ≺ q then fetched f else later
      ]

  unfoldable pub side_of : TradingSignal A → String
  side_of s = if is_long s.direction then "buy" else "sell"

  -- `_wait_for_fill`, for how the polling ended: the order, `none` for an exception, and the actions
  unfoldable pub wait_for_fill :
      TradingSignal A → A → Answers A → Polled A → Option (OrderInfo A) × List (Action A)
  unfolding side_of
  wait_for_fill s amount answers (fetched f) = (some f, [])
  wait_for_fill s amount answers failed = (none, [])
  wait_for_fill s amount answers timed_out =
      (answers.market_answer, cancel_order ∷ market_order (side_of s) amount ∷ [])

  -- the order that `_live_execute` ends up with
  unfoldable pub place_live :
      TradingSignal A → Bool → A → Answers A → Option (OrderInfo A) × List (Action A)
  unfolding side_of wait_for_fill poll
  place_live s true amount answers = (answers.market_answer, market_order (side_of s) amount ∷ [])
  place_live s false amount answers = elim answers.limit_answer [
    | none ↦ (none, limit_order (side_of s) amount s.price ∷ [])
    | some _ ↦
        let (order, actions) = wait_for_fill s amount answers (poll answers.fetch_answers) in
        (order, limit_order (side_of s) amount s.price ∷ actions)
  ]

  -- `OrderResult(…)`; `none` is an exception of a conversion
  unfoldable pub result_of : TradingSignal A → A → OrderInfo A → Option (OrderResult A)
  unfolding float_or
  result_of s amount order = elim (float_or (float_or (some s.price) order.price) order.average) [
    | none ↦ none
    | some price ↦ elim (float_or (some amount) order.filled) [
      | none ↦ none
      | some quantity ↦ some record {
        symbol = s.symbol;
        direction = s.direction;
        price = price;
        quantity = quantity;
        status = order.status;
      }
    ]
  ]

  -- from the result on
  unfoldable pub conclude :
      TradingSignal A → A → ℕ → RiskManager A → List (Action A) → Option (OrderResult A) → Outcome A
  unfolding is_done
  conclude s size now m actions none = record {
    actions = actions;
    result = none;
    event = none;
    manager = m;
  }
  conclude s size now m actions (some r) =
      if is_done r.status
      then record {
        actions = actions;
        result = some r;
        event = some order_filled;
        manager = open_position s size now m;
      }
      else record { actions = actions; result = some r; event = some order_failed; manager = m }

  -- the order and the actions, if the amount could be computed
  unfoldable pub finish :
      TradingSignal A
      → A
      → ℕ
      → RiskManager A
      → A
      → Option (OrderInfo A) × List (Action A)
      → Outcome A
  unfolding conclude result_of
  finish s size now m amount (none, actions) = conclude s size now m actions none
  finish s size now m amount (some order, actions) =
      conclude s size now m actions (result_of s amount order)

  -- `_live_execute` with a client; `emergency` is the metadata entry "emergency_exit"
  unfoldable pub live_execute :
      TradingSignal A → A → Bool → Answers A → ℕ → RiskManager A → Outcome A
  unfolding finish conclude place_live
  live_execute s size emergency answers now m = elim (divide size s.price) [
    | none ↦ conclude s size now m [] none
    | some amount ↦ finish s size now m amount (place_live s emergency amount answers)
  ]
