-- ===== src/Retry/Attempts.antt =====
-- core/retry.py: how often an operation is tried, and what a failure leaves.
use cto_test_ai_trading_bot.Prelude.{ℕ, ◌+◌, ◌≤◌, ◌≡◌, String, Bool, true, false, not, length}
use cto_test_ai_trading_bot.Prelude.Number.{Number}
use cto_test_ai_trading_bot.Retry.{
  RetryPolicy, Outcome, Execution, returned, raised, success, failure, add_to_dlq,
}

module _ {A V : Type 0} ⦃num : Number A⦄ (outcome : ℕ → Outcome V) (random : ℕ → A) (name : String)
    (now : ℕ) where
  -- What an execution of a policy comes to, by how its last call ended: only a retryable exception in
  -- the last attempt, or one that is not retryable, is raised, and then one dead letter is written.
  abbrev pub IsConcluded : RetryPolicy A → Outcome V → Execution A V → Type 0
  IsConcluded p (returned v) x = (x.result ≡ success v) × (x.policy ≡ p)
  IsConcluded p (raised false e) x = (x.result ≡ failure e) × (x.policy ≡ add_to_dlq name e now p)
  IsConcluded p (raised true e) x =
      (x.calls ≡ p.max_attempts) × (x.result ≡ failure e) × (x.policy ≡ add_to_dlq name e now p)

  abbrev IsFinished : ℕ → RetryPolicy A → Execution A V → Type 0
  IsFinished k p x =
      (k ≤ x.calls)
      × (x.calls ≤ p.max_attempts)
      × (length x.delays + k ≡ x.calls)
      × IsConcluded p (outcome x.calls) x

  -- a value, or an exception that is not retried
  abbrev is_final : Outcome V → Bool
  is_final (returned v) = true
  is_final (raised retryable e) = not retryable
