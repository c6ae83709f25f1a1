-- ===== src/RateLimiter.antt =====
-- execution/rate_limiter.py: class `RateLimiter`. Times are milliseconds of the monotonic clock. One call
-- of `acquire` holds the lock; it reads the clock, and again when it takes its place,
-- after the sleep if there is one.
pub mod Window
mod Tests
use cto_test_ai_trading_bot.Prelude.{
  ℕ, ◌+◌, ◌-◌, Option, none, some, List, [], ◌∷◌, ◌++◌, ltb, leb, ◌==◌, if◌then◌else◌, length,
}

pub record RateLimiter : Type 0 where
  pub max_calls : ℕ
  pub period : ℕ
  pub calls : List ℕ

unfoldable pub init : ℕ → ℕ → RateLimiter
init max_calls period = record { max_calls = max_calls; period = period; calls = [] }

-- `while self._calls and self._calls[0] < cutoff: self._calls.popleft()`, where `cutoff` is
-- `now - period`
unfoldable pub expire : ℕ → ℕ → List ℕ → List ℕ
expire now period [] = []
expire now period (t ∷ ts) =
    let rest = expire now period ts in if ltb (t + period) now then rest else t ∷ ts

-- the time to sleep; `none` where the code reads the first of no calls (an IndexError)
unfoldable pub sleep_time : ℕ → ℕ → ℕ → List ℕ → Option ℕ
sleep_time max_calls period now [] = if max_calls == 0 then none else some 0
sleep_time max_calls period now (t ∷ ts) =
    if leb max_calls (length (t ∷ ts)) then some (t + period - now) else some 0

-- The end of `acquire`, for the calls that are left in the table: the limiter read the clock at `now`,
-- sleeps, and takes a place at the time of the clock, which is `delay` after the end of the sleep, or
-- after `now` if it does not sleep. `none` is the IndexError.
unfoldable pub take_place : (now delay : ℕ) → RateLimiter → List ℕ → Option (RateLimiter × ℕ)
unfolding sleep_time
take_place now delay l calls = elim (sleep_time l.max_calls l.period now calls) [
  | none ↦ none
  | some slept ↦
      some (record l { calls = calls ++ (now + slept + delay) ∷ [] }, now + slept + delay)
]

unfoldable pub acquire : (now delay : ℕ) → RateLimiter → Option (RateLimiter × ℕ)
unfolding expire take_place
acquire now delay l = take_place now delay l (expire now l.period l.calls)
