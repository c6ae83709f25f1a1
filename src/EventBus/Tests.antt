-- ===== src/EventBus/Tests.antt =====
-- core/event_bus.py: a bus with three handlers of ticks, at concrete events.
use cto_test_ai_trading_bot.Prelude.{
  ℕ, ◌≤◌, ◌≡◌, refl, String, true, List, [], ◌∷◌, arith, length, ◌<◌, str_eq, if◌then◌else◌,
}
use cto_test_ai_trading_bot.Prelude.Dict.{lookup, insert}
use cto_test_ai_trading_bot.Prelude.Sets.{string_eq}
use cto_test_ai_trading_bot.EventBus.{
  EventBus, Action, subscribers, unsubscribing, publishing_nowait, init, subscribe, put, act_all,
  dispatch, run_once,
}
use cto_test_ai_trading_bot.EventBus.Queue.{Call, offering, serving, replay, run, run-replay}
use cto_test_ai_trading_bot.EventBus.Dispatch.{is_quiet, dispatch_quiet, dispatch_skips}

-- `relay` forwards a tick without waiting, `once` unsubscribes itself, `log` does nothing
abbrev script : String → ℕ → List (Action String ℕ)
script h p =
    if str_eq h "relay"
    then publishing_nowait "SIGNAL" p ∷ []
    else if str_eq h "once"
    then unsubscribing "TICK" "once" ∷ []
    else []

program : Unit {0}
unfolding init subscribe put act_all run_once is_quiet lookup insert replay
program = tt

abbrev relaying : EventBus String ℕ
relaying = subscribe "TICK" "log" (subscribe "TICK" "relay" init)

abbrev leaving : EventBus String ℕ
leaving = subscribe "TICK" "log" (subscribe "TICK" "relay" (subscribe "TICK" "once" init))

dispatch_quiet_example :
    ((dispatch script 3 "TICK" 7 0 relaying).1 ≡ "relay" ∷ "log" ∷ [])
    × ((dispatch script 3 "TICK" 7 0 relaying).2 ≡ true)
unfolding program
dispatch_quiet_example =
    dispatch_quiet script 3 "TICK" 7 relaying ((refl, tt), (tt, tt)) (omega arith)

dispatch_skips_example :
    ((dispatch script 3 "TICK" 7 0 leaving).1 ≡ "once" ∷ "log" ∷ [])
    × ((dispatch script 3 "TICK" 7 0 leaving).2 ≡ true)
unfolding program
dispatch_skips_example =
    dispatch_skips script 3 "TICK" 7 leaving "once" "relay" ("log" ∷ []) refl refl (tt, tt)
      (omega arith)

-- the tick is delivered, and what its handler published waits for its own round
abbrev posts : String → ℕ → List (String × ℕ)
posts h p = if str_eq h "relay" then ("SIGNAL", p) ∷ [] else []

abbrev calls : List (Call ℕ)
calls = offering "TICK" 7 ∷ serving ∷ serving ∷ serving ∷ []

few : (e : String) → length (subscribers e relaying) < 3
unfolding program
few e = ground arith

relayed :
    (replay posts 10_000 (λ e. subscribers e relaying) calls []).1
    ≡ ("relay", "TICK", 7) ∷ ("log", "TICK", 7) ∷ []
unfolding program
relayed = refl

run-replay_example :
    (run posts 3 calls relaying ≡ (
      record relaying { queue = (replay posts 10_000 (λ e. subscribers e relaying) calls []).0 },
      (replay posts 10_000 (λ e. subscribers e relaying) calls []).1,
    ))
    × (length (run posts 3 calls relaying).0.queue ≤ (run posts 3 calls relaying).0.maxsize)
unfolding program
run-replay_example = run-replay posts 3 calls relaying few (omega arith)
