-- ===== src/Retry.antt =====
-- core/retry.py: class `RetryPolicy`. `outcome k` is how the k-th call of the operation ends, `random k`
-- what `random.random()` gives before the next one, and `now` the clock when a letter is written.
pub mod Attempts
mod Tests
use cto_test_ai_trading_bot.Prelude.{
  ℕ, zero, suc, ◌+◌, ◌-◌, ◌^◌, String, Bool, true, false, List, [], ◌∷◌, ltb, if◌then◌else◌,
  push_bounded,
}
use cto_test_ai_trading_bot.Prelude.Number.{Number, ◌⊕◌, ◌⊗◌, ratio, smaller}

pub record DeadLetter : Type 0 where
  pub timestamp : ℕ
  pub operation_name : String
  pub error : String

pub record RetryPolicy (A : Type 0) : Type 0 where
  pub max_attempts : ℕ
  pub base_delay : A
  pub max_delay : A
  pub exponential_backoff : Bool
  pub jitter : Bool
  pub dead_letter_queue_size : ℕ
  pub dead_letter_queue : List DeadLetter

-- How a call ends: with a value, or with an exception, which `is_retryable` accepts or not.
pub data Outcome (V : Type 0) : Type 0 where
  returned : V → Outcome V
  raised : (retryable : Bool) → (error : String) → Outcome V

-- How the execution ends; `raised_none` is the TypeError of raising `None`, after no attempt.
pub data Result (V : Type 0) : Type 0 where
  success : V → Result V
  failure : String → Result V
  raised_none : Result V

-- the policy afterwards, the result, the number of calls, and the delays between them
pub record Execution (A V : Type 0) : Type 0 where
  pub policy : RetryPolicy A
  pub result : Result V
  pub calls : ℕ
  pub delays : List A

module _ {A : Type 0} where
  unfoldable pub add_to_dlq : String → String → ℕ → RetryPolicy A → RetryPolicy A
  add_to_dlq name error now p = record p {
    dead_letter_queue =
        push_bounded p.dead_letter_queue_size
          (record { timestamp = now; operation_name = name; error = error }) p.dead_letter_queue;
  }

module _ {A : Type 0} ⦃num : Number A⦄ where
  unfoldable pub calculate_delay : ℕ → A → RetryPolicy A → A
  calculate_delay attempt random p =
      let delay =
        if p.exponential_backoff
        then p.base_delay ⊗ ratio (2 ^ (attempt - 1)) 1
        else p.base_delay in
      let capped = smaller delay p.max_delay in
      if p.jitter then capped ⊗ (ratio 1 2 ⊕ random ⊗ ratio 1 2) else capped

  module _ {V : Type 0} (outcome : ℕ → Outcome V) (random : ℕ → A) (name : String) (now : ℕ) where
    -- the loop, for the attempts that are left, the number of the next one, and what to raise
    unfoldable pub attempt_from : ℕ → ℕ → Result V → RetryPolicy A → Execution A V
    unfolding calculate_delay add_to_dlq
    attempt_from zero k last p = record { policy = p; result = last; calls = k - 1; delays = [] }
    attempt_from (suc n) k last p = elim (outcome k) [
      | returned v ↦ record { policy = p; result = success v; calls = k; delays = [] }
      | raised false e ↦ record {
        policy = add_to_dlq name e now p;
        result = failure e;
        calls = k;
        delays = [];
      }
      | raised true e ↦
          let later = attempt_from n (k + 1) (failure e) p in
          if ltb k p.max_attempts
          then record later { delays = calculate_delay k (random k) p ∷ later.delays }
          else attempt_from n (k + 1) (failure e) (add_to_dlq name e now p)
    ]

    unfoldable pub execute_with_retry : RetryPolicy A → Execution A V
    unfolding attempt_from
    execute_with_retry p = attempt_from p.max_attempts 1 raised_none p
