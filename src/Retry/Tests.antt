-- ===== src/Retry/Tests.antt =====
-- core/retry.py: runs of the retry policy on numbers with eight decimals, and its theorem at a concrete
-- input.
use cto_test_ai_trading_bot.Prelude.{ℕ, ◌≡◌, refl, true, false, [], ◌==◌, if◌then◌else◌}
use cto_test_ai_trading_bot.Prelude.Int.{ℤ, ◌+ℤ◌}
use cto_test_ai_trading_bot.Prelude.Fixed.{fixed, fixed_times}
use cto_test_ai_trading_bot.Prelude.Number.{ratio, smaller}
use cto_test_ai_trading_bot.Retry.{
  RetryPolicy, Outcome, returned, raised, failure, calculate_delay, attempt_from,
  execute_with_retry,
}

program : Unit {0}
unfolding ◌+ℤ◌ fixed_times smaller calculate_delay attempt_from execute_with_retry
program = tt

abbrev policy : RetryPolicy ℤ
policy = record {
  max_attempts = 3;
  base_delay = ratio 1 1;
  max_delay = ratio 10 1;
  exponential_backoff = true;
  jitter = false;
  dead_letter_queue_size = 100;
  dead_letter_queue = [];
}

-- the third call succeeds
abbrev third : ℕ → Outcome ℕ
third k = if k == 3 then returned 7 else raised true "timeout"

abbrev never : ℕ → Outcome ℕ
never k = raised true "timeout"

abbrev no_random : ℕ → ℤ
no_random k = ratio 0 1

given_up : (execute_with_retry never no_random "op" 0 policy).result ≡ failure "timeout"
unfolding program
given_up = refl
