-- ===== src/CircuitBreaker/Recovery.antt =====
-- core/circuit_breaker.py: when the breaker opens, what it does while it is open, and how it
-- recovers.
use cto_test_ai_trading_bot.Prelude.{
  ℕ, ◌+◌, ◌≤◌, ◌<◌, ◌≡◌, true, List, [], ◌∷◌, none, some, arith, ltb, leb, if◌then◌else◌, length,
  ◌>>=◌,
}
use cto_test_ai_trading_bot.CircuitBreaker.{
  CircuitBreaker, closed, opened, half_open, returned, raised, admit, complete, call,
  run_close_task,
}

-- One expected failure after another, at the given times
unfoldable pub fail_all : List ℕ → CircuitBreaker → CircuitBreaker
unfolding complete
fail_all [] b = b
fail_all (now ∷ times) b = fail_all times (complete now (raised true) b)

complete_opened-count :
    (now : ℕ) (b : CircuitBreaker)
    → b.state ≡ opened
    → (complete now (raised true) b).state ≡ opened
unfolding complete
complete_opened-count now b h = ground arith

fail_all_opened :
    (times : List ℕ) (b : CircuitBreaker) → b.state ≡ opened → (fail_all times b).state ≡ opened
unfolding fail_all
fail_all_opened [] b h = h
fail_all_opened (now ∷ times) b h =
    fail_all_opened times (complete now (raised true) b) (complete_opened-count now b h)

-- A closed breaker that has fewer failures than its threshold is open after a run of expected
-- failures exactly when the run brings the count to the threshold; otherwise it is still closed.
pub fail_all-threshold :
    (times : List ℕ) (b : CircuitBreaker)
    → b.state ≡ closed
    → b.failure_count < b.failure_threshold
    → (fail_all times b).state
      ≡ (if leb b.failure_threshold (b.failure_count + length times) then opened else closed)
unfolding fail_all
fail_all-threshold [] b h lt = ground arith
fail_all-threshold (now ∷ times) b h lt =
    let c = complete now (raised true) b in
    ground (arith, fail_all_opened times c, fail_all-threshold times c)

-- While the breaker is open and the recovery timeout has not passed, every call is rejected; from
-- then on a call is let through, and the breaker is half-open with no successes counted.
pub call_opened :
    (now : ℕ) (b : CircuitBreaker)
    → b.state ≡ opened
    → admit now b ≡ (
        if ltb now (b.last_failure_time + b.recovery_timeout)
        then none
        else some (record b { state = half_open; success_count = 0 }))
unfolding admit
call_opened now b h = ground arith

-- the breaker after two calls that succeed, the first of which probes the open breaker
abbrev pub probed : ℕ → ℕ → CircuitBreaker → CircuitBreaker
probed t u b =
    complete u returned (complete t returned (record b { state = half_open; success_count = 0 }))

-- Once the timeout has passed, two calls that succeed are both let through and leave an open
-- breaker half-open with one more closing task; that task closes it and clears the failure count.
pub recovery :
    (t u : ℕ) (b : CircuitBreaker)
    → b.state ≡ opened
    → b.half_open_success_threshold ≡ 2
    → b.last_failure_time + b.recovery_timeout ≤ t
    → ((do c ← call t returned b; call u returned c) ≡ some (probed t u b))
      × ((probed t u b).state ≡ half_open)
      × ((probed t u b).pending_closes ≡ b.pending_closes + 1)
      × ((run_close_task (probed t u b)).state ≡ closed)
      × ((run_close_task (probed t u b)).failure_count ≡ 0)
unfolding call run_close_task
recovery t u b h two late = (ground arith, ground arith, ground arith, ground arith, ground arith)

-- One expected failure while half-open reopens the breaker, and the timeout runs anew from it.
pub half_open_failure :
    (now later : ℕ) (b : CircuitBreaker)
    → b.state ≡ half_open
    → later < now + b.recovery_timeout
    → admit later (complete now (raised true) b) ≡ none
unfolding complete admit
half_open_failure now later b h early = ground arith
