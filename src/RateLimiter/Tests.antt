-- ===== src/RateLimiter/Tests.antt =====
-- execution/rate_limiter.py: runs of the limiter, and its theorem at a concrete input.
use cto_test_ai_trading_bot.Prelude.{ℕ, List, ◌≡◌, refl, none, some, [], ◌∷◌, arith}
use cto_test_ai_trading_bot.RateLimiter
use cto_test_ai_trading_bot.RateLimiter.{RateLimiter, expire, sleep_time, take_place, acquire}
use cto_test_ai_trading_bot.RateLimiter.Window.{Run, start, took}

program : Unit {0}
unfolding RateLimiter.init expire sleep_time take_place acquire
program = tt

abbrev holding : List ℕ → RateLimiter
holding calls = record { max_calls = 2; period = 10_000; calls = calls }

-- two calls in ten seconds
run : Run 2 10_000 (holding (1000 ∷ 3000 ∷ [])) (1000 ∷ 3000 ∷ []) 3000
unfolding program
run =
    took 2999 1 (took 999 1 start (omega arith) (omega arith) refl) (omega arith) (omega arith) refl

slept : sleep_time 2 10_000 4000 (1000 ∷ 3000 ∷ []) ≡ some 7000
unfolding program
slept = refl

-- A call at the very end of the period finds the oldest call still there and does not sleep: then
-- there is room for any number of calls at that time, if the clock does not move.
crowded :
    acquire 11_000 0 (holding (1000 ∷ 3000 ∷ 11_000 ∷ 11_000 ∷ []))
    ≡ some (holding (1000 ∷ 3000 ∷ 11_000 ∷ 11_000 ∷ 11_000 ∷ []), 11_000)
unfolding program
crowded = refl

-- a limiter that allows no call raises
raised : acquire 1000 0 (RateLimiter.init 0 10_000) ≡ none
unfolding program
raised = refl
