-- ===== src/RateLimiter/Window.antt =====
-- execution/rate_limiter.py: how many calls fall into one period.
use cto_test_ai_trading_bot.Prelude.{
  ℕ, ◌+◌, ◌≤◌, ◌<◌, ◌≡◌, some, false, List, [], ◌∷◌, ◌++◌, leb, ◌⊎◌, length, keep, All,
}
use cto_test_ai_trading_bot.RateLimiter.{RateLimiter, init, expire, acquire}

-- The place that a call takes is later than the end of the period of the oldest call, if it finds the
-- table full.
abbrev IsLate : (max_calls period woken : ℕ) → List ℕ → Type 0
IsLate max_calls period woken [] = Unit
IsLate max_calls period woken (t ∷ ts) =
    (leb max_calls (length (t ∷ ts)) ≡ false) ⊎ (t + period < woken)

-- A run of calls from a new limiter: the limiter, the times at which the calls took their places, from
-- the oldest, and the last of them. The clock does not run backwards, and it has moved when a call reads
-- it the second time.
pub data Run (max_calls period : ℕ) : RateLimiter → List ℕ → ℕ → Type 0 where
  start : Run max_calls period (init max_calls period) [] 0
  took :
      {l l' : RateLimiter} {times : List ℕ} {last woken : ℕ} (now delay : ℕ)
      → Run max_calls period l times last
      → last ≤ now
      → 0 < delay
      → acquire now delay l ≡ some (l', woken)
      → Run max_calls period l' (times ++ woken ∷ []) woken

-- the calls of the period that ends at `woken`
abbrev pub recent : (period woken : ℕ) → List ℕ → List ℕ
recent period woken times = keep (λ t. leb woken (t + period)) times

module _ (max_calls period : ℕ) where
  -- what the calls that the limiter still holds are, among all of them
  record IsWindow (l : RateLimiter) (times : List ℕ) (last : ℕ) : Type 0 where
    same_max : l.max_calls ≡ max_calls
    same_period : l.period ≡ period
    gone : List ℕ
    split : times ≡ gone ++ l.calls
    past : All (λ t. t + period < last) gone
    few : length (expire last period l.calls) ≤ max_calls
