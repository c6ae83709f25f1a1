-- ===== src/EventBus.antt =====
-- core/event_bus.py: the event bus. `H` is the type of the handlers and `P` that of the payloads. What a
-- handler does for a payload is an argument: the calls that it makes of the bus, and whether it then
-- raises. A call of `publish` that finds the queue full waits until `run` takes an event; inside a
-- handler, which `run` itself awaits, that is for ever. What other tasks call while a handler waits is
-- counted among the calls of that handler.
pub mod Dispatch
pub mod Queue
mod Tests
use cto_test_ai_trading_bot.Prelude.{
  ℕ, zero, suc, ◌+◌, String, Bool, true, false, Option, none, some, List, [], ◌∷◌, ◌++◌, leb,
  if◌then◌else◌, length,
}
use cto_test_ai_trading_bot.Prelude.Dict.{Dict, lookup, insert}
use cto_test_ai_trading_bot.Prelude.Sets.{Eq, same}

pub record EventBus (H P : Type 0) : Type 0 where
  pub handlers : Dict (List H)
  pub queue : List (String × P)
  pub maxsize : ℕ
  pub running : Bool

-- the calls that a handler makes of the bus
pub data Action (H P : Type 0) : Type 0 where
  subscribing : String → H → Action H P
  unsubscribing : String → H → Action H P
  publishing : String → P → Action H P
  publishing_nowait : String → P → Action H P

-- the handler at a place of the list that the loop runs over, which is the list of the bus itself
unfoldable pub handler_at : {H : Type 0} → ℕ → List H → Option H
handler_at n [] = none
handler_at zero (h ∷ hs) = some h
handler_at (suc n) (h ∷ hs) = handler_at n hs

-- `handlers.remove(handler)`: the first that is equal, if there is one
unfoldable pub remove : {H : Type 0} ⦃eq : Eq H⦄ → H → List H → List H
remove h [] = []
remove h (g ∷ hs) = if same g h then hs else g ∷ remove h hs

module _ {H P : Type 0} where
  unfoldable pub init : EventBus H P
  init = record { handlers = []; queue = []; maxsize = 10_000; running = false }

  -- `self._handlers.get(event_type, [])`
  abbrev pub subscribers : String → EventBus H P → List H
  subscribers event_type b = elim (lookup event_type b.handlers) [ none ↦ [] | some hs ↦ hs ]

  unfoldable pub subscribe : String → H → EventBus H P → EventBus H P
  subscribe event_type handler b = record b {
    handlers = insert event_type (subscribers event_type b ++ handler ∷ []) b.handlers;
  }

  -- the put of `publish` and `publish_nowait`; `none` for a full queue
  unfoldable pub put : String → P → EventBus H P → Option (EventBus H P)
  put event_type payload b =
      if leb b.maxsize (length b.queue)
      then none
      else some (record b { queue = b.queue ++ (event_type, payload) ∷ [] })

  -- an event for a full queue is dropped
  unfoldable pub publish_nowait : String → P → EventBus H P → EventBus H P
  unfolding put
  publish_nowait event_type payload b = elim (put event_type payload b) [ none ↦ b | some b' ↦ b' ]

  unfoldable pub stop : EventBus H P → EventBus H P
  stop b = record b { running = false }

module _ {H P : Type 0} ⦃eq : Eq H⦄ where
  unfoldable pub unsubscribe : String → H → EventBus H P → EventBus H P
  unfolding remove
  unsubscribe event_type handler b = elim (lookup event_type b.handlers) [
    | none ↦ b
    | some hs ↦ record b { handlers = insert event_type (remove handler hs) b.handlers }
  ]

  -- a call that a handler makes; `none` if it never returns
  unfoldable pub act : Action H P → EventBus H P → Option (EventBus H P)
  unfolding subscribe unsubscribe put publish_nowait
  act (subscribing e h) b = some (subscribe e h b)
  act (unsubscribing e h) b = some (unsubscribe e h b)
  act (publishing e p) b = put e p b
  act (publishing_nowait e p) b = some (publish_nowait e p b)

  -- the calls of one handler; the flag says that all of them returned
  unfoldable pub act_all : List (Action H P) → EventBus H P → EventBus H P × Bool
  unfolding act
  act_all [] b = (b, true)
  act_all (a ∷ later) b = elim (act a b) [ none ↦ (b, false) | some b' ↦ act_all later b' ]

  module _ (script : H → P → List (Action H P)) where
    -- `for handler in handlers: …`, from a place of the list on: the handlers that were called, and
    -- whether the loop came to its end. An exception of a handler is caught. Handlers that subscribe
    -- for the event lengthen the loop, so it runs on fuel.
    unfoldable pub dispatch :
        (fuel : ℕ) → String → P → ℕ → EventBus H P → EventBus H P × List H × Bool
    unfolding act_all handler_at
    dispatch zero event_type payload i b = (b, [], false)
    dispatch (suc fuel) event_type payload i b = elim (handler_at i (subscribers event_type b)) [
      | none ↦ (b, [], true)
      | some h ↦
          let (b', returned) = act_all (script h payload) b in
          let (b'', called, ended) = dispatch fuel event_type payload (i + 1) b' in
          if returned then (b'', h ∷ called, ended) else (b', h ∷ [], false)
    ]

    -- one round of the loop of `run`: `none` for a timeout, when the queue is empty
    unfoldable pub run_once : (fuel : ℕ) → EventBus H P → EventBus H P × Option (List H × Bool)
    unfolding dispatch
    run_once fuel b = elim b.queue [
      | [] ↦ (b, none)
      | e ∷ rest ↦
          let (b', called, ended) = dispatch fuel e.0 e.1 0 (record b { queue = rest }) in
          (b', some (called, ended))
    ]
