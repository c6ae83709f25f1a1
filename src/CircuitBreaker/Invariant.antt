-- ===== src/CircuitBreaker/Invariant.antt =====
-- core/circuit_breaker.py: what holds of the breaker under every interleaving of its callers, and
-- the transitions that its state can make.
use cto_test_ai_trading_bot.Prelude.{ℕ, ◌+◌, ◌≤◌, ◌<◌, ◌≡◌, refl, ◌≢◌, ◌⊎◌, inl, inr, some, arith}
use cto_test_ai_trading_bot.CircuitBreaker.{
  CircuitBreaker, CircuitState, closed, opened, half_open, Outcome, returned, raised, admit,
  complete, run_close_task, reset, transition_to_open, Step, admitted, completed, closing,
  forced_open, cleared, Reach, here, next, init,
}

pub record IsValid (b : CircuitBreaker) : Type 0 where
  pub threshold_positive : 0 < b.failure_threshold
  pub successes_wanted : b.half_open_success_threshold ≡ 2
  pub calls_counted : b.total_calls ≡ b.success_calls + b.failure_calls
  pub closed_below : b.state ≡ closed → b.failure_count < b.failure_threshold
  pub close_scheduled : b.state ≡ half_open → 2 ≤ b.success_count → 0 < b.pending_closes

admit-IsValid : (now : ℕ) (b b' : CircuitBreaker) → admit now b ≡ some b' → IsValid b → IsValid b'
unfolding admit
admit-IsValid now b b' e v = ground arith

complete-IsValid :
    (now : ℕ) (out : Outcome) (b : CircuitBreaker) → IsValid b → IsValid (complete now out b)
unfolding complete
complete-IsValid now returned b v = ground arith
complete-IsValid now (raised expected) b v = ground arith

run_close_task-IsValid : (b : CircuitBreaker) → IsValid b → IsValid (run_close_task b)
unfolding run_close_task
run_close_task-IsValid b v = ground arith

transition_to_open-IsValid : (b : CircuitBreaker) → IsValid b → IsValid (transition_to_open b)
unfolding transition_to_open
transition_to_open-IsValid b v = ground arith

reset-IsValid : (b : CircuitBreaker) → IsValid b → IsValid (reset b)
unfolding reset
reset-IsValid b v = ground arith

Step-IsValid : {b c : CircuitBreaker} → Step b c → IsValid b → IsValid c
Step-IsValid {b} {c} (admitted now e) v = admit-IsValid now b c e v
Step-IsValid {b} (completed now out) v = complete-IsValid now out b v
Step-IsValid {b} (closing h) v = run_close_task-IsValid b v
Step-IsValid {b} forced_open v = transition_to_open-IsValid b v
Step-IsValid {b} cleared v = reset-IsValid b v

-- However calls, completions, deferred closing tasks and resets interleave from a valid breaker on,
-- whose threshold is positive, the call statistics add up, a closed breaker has fewer failures than its threshold, and a half-open breaker with two
-- successes has a closing task that will run.
pub Reach-IsValid : {b c : CircuitBreaker} → IsValid b → Reach b c → IsValid c
Reach-IsValid v here = v
Reach-IsValid v (next r s) = Step-IsValid s (Reach-IsValid v r)

pub init-IsValid : (threshold timeout : ℕ) → 0 < threshold → IsValid (init threshold timeout)
unfolding init
init-IsValid threshold timeout h = ground arith

-- The arrows of the state diagram, and staying put. A closed breaker is never probed, and an open
-- one closes only through the half-open state.
abbrev pub Arrow : CircuitState → CircuitState → Type 0
Arrow closed s = (s ≡ closed) ⊎ (s ≡ opened)
Arrow opened s = (s ≡ opened) ⊎ (s ≡ half_open)
Arrow half_open s = Unit

Arrow-of :
    (s t : CircuitState) → (s ≡ closed → t ≢ half_open) → (s ≡ opened → t ≢ closed) → Arrow s t
Arrow-of closed closed p q = inl refl
Arrow-of closed opened p q = inr refl
Arrow-of closed half_open p q = absurd (p refl refl)
Arrow-of opened closed p q = absurd (q refl refl)
Arrow-of opened opened p q = inl refl
Arrow-of opened half_open p q = inr refl
Arrow-of half_open _ p q = tt

module _ (b : CircuitBreaker) where
  admit-Arrow : (now : ℕ) (c : CircuitBreaker) → admit now b ≡ some c → Arrow b.state c.state
  unfolding admit
  admit-Arrow now c e = Arrow-of b.state c.state (ground arith) (ground arith)

  complete-Arrow : (now : ℕ) (out : Outcome) → Arrow b.state (complete now out b).state
  unfolding complete
  complete-Arrow now returned =
      Arrow-of b.state (complete now returned b).state (ground arith) (ground arith)
  complete-Arrow now (raised x) =
      Arrow-of b.state (complete now (raised x) b).state (ground arith) (ground arith)

  run_close_task-Arrow : Arrow b.state (run_close_task b).state
  unfolding run_close_task
  run_close_task-Arrow = Arrow-of b.state (run_close_task b).state (ground arith) (ground arith)

  transition_to_open-Arrow : Arrow b.state (transition_to_open b).state
  unfolding transition_to_open
  transition_to_open-Arrow =
      Arrow-of b.state (transition_to_open b).state (ground arith) (ground arith)

-- Every step but `reset` follows an arrow of the state diagram: a closed breaker stays closed or
-- opens, and an open one stays open or becomes half-open.
pub Step-Arrow : {b c : CircuitBreaker} → Step b c → (Arrow b.state c.state) ⊎ (c ≡ reset b)
Step-Arrow {b} {c} (admitted now e) = inl (admit-Arrow b now c e)
Step-Arrow {b} (completed now out) = inl (complete-Arrow b now out)
Step-Arrow {b} (closing h) = inl (run_close_task-Arrow b)
Step-Arrow {b} forced_open = inl (transition_to_open-Arrow b)
Step-Arrow {b} cleared = inr refl
