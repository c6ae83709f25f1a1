-- ===== src/CircuitBreaker/Tests.antt =====
-- core/circuit_breaker.py: runs of the breaker, and its theorems at concrete inputs.
use cto_test_ai_trading_bot.Prelude.{
  ◌+◌, ◌≡◌, refl, ◌⊎◌, true, none, some, [], ◌∷◌, arith, leb, if◌then◌else◌, ◌>>=◌,
}
use cto_test_ai_trading_bot.CircuitBreaker.{
  CircuitBreaker, closed, opened, half_open, returned, raised, init, admit, complete, call,
  run_close_task, reset, admitted, completed, here, next,
}
use cto_test_ai_trading_bot.CircuitBreaker.Invariant.{
  IsValid, init-IsValid, Reach-IsValid, Arrow, Step-Arrow,
}
use cto_test_ai_trading_bot.CircuitBreaker.Recovery.{
  fail_all, fail_all-threshold, probed, recovery, half_open_failure,
}

abbrev broken : CircuitBreaker
broken = record {
  failure_threshold = 3;
  recovery_timeout = 60;
  state = opened;
  failure_count = 3;
  last_failure_time = 100;
  success_count = 0;
  half_open_success_threshold = 2;
  total_calls = 3;
  success_calls = 0;
  failure_calls = 3;
  pending_closes = 0;
}

three_failures : fail_all (80 ∷ 90 ∷ 100 ∷ []) (init 3 60) ≡ broken
unfolding fail_all complete init
three_failures = refl

recovered : run_close_task (probed 160 170 broken) ≡ record broken {
  state = closed;
  failure_count = 0;
  success_count = 2;
  total_calls = 5;
  success_calls = 2;
}
unfolding run_close_task complete
recovered = refl

-- two calls that fail, in any interleaving with a rejected one
Reach-IsValid_example : IsValid (complete 20 (raised true) (complete 10 (raised true) (init 2 60)))
Reach-IsValid_example =
    Reach-IsValid (init-IsValid 2 60 (omega arith))
      (next (next here (completed 10 (raised true))) (completed 20 (raised true)))

Step-Arrow_example :
    Arrow broken.state half_open ⊎ (record broken { state = half_open } ≡ reset broken)
unfolding admit
Step-Arrow_example = Step-Arrow {b = broken} (admitted 160 refl)

fail_all-threshold_case :
    (fail_all (5 ∷ 6 ∷ []) (init 3 60)).state
    ≡ (if leb (init 3 60).failure_threshold ((init 3 60).failure_count + 2) then opened else closed)
unfolding init
fail_all-threshold_case = fail_all-threshold (5 ∷ 6 ∷ []) (init 3 60) refl (omega arith)

recovery_example :
    ((do c ← call 160 returned broken; call 170 returned c) ≡ some (probed 160 170 broken))
    × ((probed 160 170 broken).state ≡ half_open)
    × ((probed 160 170 broken).pending_closes ≡ 0 + 1)
    × ((run_close_task (probed 160 170 broken)).state ≡ closed)
    × ((run_close_task (probed 160 170 broken)).failure_count ≡ 0)
recovery_example = recovery 160 170 broken refl refl (omega arith)

abbrev probing : CircuitBreaker
probing = record broken { state = half_open }

reopened : admit 259 (complete 200 (raised true) probing) ≡ none
reopened = half_open_failure 200 259 probing refl (omega arith)
