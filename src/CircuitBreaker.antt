-- ===== src/CircuitBreaker.antt =====
-- core/circuit_breaker.py: the circuit breaker with half-open recovery testing.
-- A call is two steps, `admit` and `complete`, since the protected function may await in between.
-- The tasks that `record_success` creates are counted in `pending_closes` and run later, one by
-- one, by `run_close_task`. The bodies under the lock contain no await, so each is one step. Times
-- are ticks of one clock, and `now - t >= d` is written `t + d <= now`.
pub mod Invariant
pub mod Recovery
mod Tests
use cto_test_ai_trading_bot.Prelude.{
  ℕ, ◌+◌, ◌-◌, ◌≡◌, Bool, true, false, Option, none, some, leb, ltb, if◌then◌else◌,
}

pub data CircuitState : Type 0 where
  closed opened half_open : CircuitState

pub record CircuitBreaker : Type 0 where
  pub failure_threshold : ℕ
  pub recovery_timeout : ℕ
  pub state : CircuitState
  pub failure_count : ℕ
  pub last_failure_time : ℕ
  pub success_count : ℕ
  pub half_open_success_threshold : ℕ
  -- the entries of `_call_stats`
  pub total_calls : ℕ
  pub success_calls : ℕ
  pub failure_calls : ℕ
  -- tasks made by `asyncio.create_task(self._transition_to_closed())` that have not run
  pub pending_closes : ℕ

unfoldable pub init : ℕ → ℕ → CircuitBreaker
init threshold timeout = record {
  failure_threshold = threshold;
  recovery_timeout = timeout;
  state = closed;
  failure_count = 0;
  last_failure_time = 0;
  success_count = 0;
  half_open_success_threshold = 2;
  total_calls = 0;
  success_calls = 0;
  failure_calls = 0;
  pending_closes = 0;
}

abbrev pub is_opened : CircuitState → Bool
is_opened opened = true
is_opened _ = false

abbrev pub is_half_open : CircuitState → Bool
is_half_open half_open = true
is_half_open _ = false

abbrev pub is_closed : CircuitState → Bool
is_closed closed = true
is_closed _ = false

unfoldable pub transition_to_open : CircuitBreaker → CircuitBreaker
transition_to_open b =
    if is_opened b.state then b else record b { state = opened; success_count = 0 }

unfoldable pub transition_to_half_open : CircuitBreaker → CircuitBreaker
transition_to_half_open b =
    if is_opened b.state then record b { state = half_open; success_count = 0 } else b

unfoldable pub transition_to_closed : CircuitBreaker → CircuitBreaker
transition_to_closed b =
    if is_half_open b.state then record b { state = closed; failure_count = 0 } else b

unfoldable pub record_success : CircuitBreaker → CircuitBreaker
record_success b =
    if is_half_open b.state
    then record b {
      success_count = b.success_count + 1;
      pending_closes =
          if leb b.half_open_success_threshold (b.success_count + 1)
          then b.pending_closes + 1
          else b.pending_closes;
    }
    else if is_closed b.state
    then record b { failure_count = 0 }
    else b

unfoldable pub record_failure : ℕ → CircuitBreaker → CircuitBreaker
record_failure now b =
    let b' = record b { failure_count = b.failure_count + 1; last_failure_time = now } in
    if is_half_open b'.state
    then record b' { state = opened; success_count = 0 }
    else if leb b'.failure_threshold b'.failure_count
    then record b' { state = opened; success_count = 0 }
    else b'

-- `call` up to the call of the function; `none` is the exception "Circuit breaker is OPEN".
unfoldable pub admit : ℕ → CircuitBreaker → Option CircuitBreaker
unfolding transition_to_half_open
admit now b =
    if is_opened b.state
    then if leb (b.last_failure_time + b.recovery_timeout) now
      then some (transition_to_half_open b)
      else none
    else some b

-- How the protected function ends; an exception is an instance of `expected_exception` or not.
pub data Outcome : Type 0 where
  returned : Outcome
  raised : Bool → Outcome

-- `call` from the end of the function on
unfoldable pub complete : ℕ → Outcome → CircuitBreaker → CircuitBreaker
unfolding record_success record_failure
complete now returned b =
    let b' = record_success b in
    record b' { total_calls = b'.total_calls + 1; success_calls = b'.success_calls + 1 }
complete now (raised expected) b =
    let b' = if expected then record_failure now b else b in
    record b' { total_calls = b'.total_calls + 1; failure_calls = b'.failure_calls + 1 }

-- A call that nothing interrupts; the result is `none` if it is rejected.
unfoldable pub call : ℕ → Outcome → CircuitBreaker → Option CircuitBreaker
unfolding admit complete
call now out b = elim (admit now b) [ none ↦ none | some b' ↦ some (complete now out b') ]

-- The event loop runs one of the tasks that `record_success` has created.
unfoldable pub run_close_task : CircuitBreaker → CircuitBreaker
unfolding transition_to_closed
run_close_task b =
    let b' = transition_to_closed b in record b' { pending_closes = b'.pending_closes - 1 }

unfoldable pub reset : CircuitBreaker → CircuitBreaker
reset b = record b {
  state = closed;
  failure_count = 0;
  success_count = 0;
  last_failure_time = 0;
  total_calls = 0;
  success_calls = 0;
  failure_calls = 0;
}

-- One step of the breaker under any interleaving of its callers.
pub data Step (b : CircuitBreaker) : CircuitBreaker → Type 0 where
  admitted : {b' : CircuitBreaker} (now : ℕ) → admit now b ≡ some b' → Step b b'
  completed : (now : ℕ) (out : Outcome) → Step b (complete now out b)
  closing : ltb 0 b.pending_closes ≡ true → Step b (run_close_task b)
  forced_open : Step b (transition_to_open b)
  cleared : Step b (reset b)

pub data Reach (b : CircuitBreaker) : CircuitBreaker → Type 0 where
  here : Reach b b
  next : {c d : CircuitBreaker} → Reach b c → Step c d → Reach b d
