-- ===== src/HealthChecker/Overall.antt =====
-- monitoring/health_checks.py: the overall status is the worst of the components'.
use cto_test_ai_trading_bot.Prelude.{
  ℕ, ◌≡◌, refl, ap, List, [], ◌∷◌, map, leb, if◌then◌else◌, arith,
}
use cto_test_ai_trading_bot.Prelude.Dict.{values}
use cto_test_ai_trading_bot.HealthChecker.{
  HealthStatus, HealthChecker, healthy, degraded, unhealthy, unknown, same_status, any_status,
  overall, determine_overall_status,
}

-- how bad a status is
abbrev pub severity : HealthStatus → ℕ
severity healthy = 0
severity unknown = 1
severity degraded = 2
severity unhealthy = 3

abbrev pub worse : HealthStatus → HealthStatus → HealthStatus
worse s t = if leb (severity t) (severity s) then s else t

-- the worst of the statuses, and HEALTHY if there is none
unfoldable pub worst : List HealthStatus → HealthStatus
worst [] = healthy
worst (s ∷ ss) = worse s (worst ss)

overall-cons : (s : HealthStatus) (ss : List HealthStatus) → overall (s ∷ ss) ≡ worse s (overall ss)
unfolding overall any_status same_status
overall-cons healthy ss = ground arith
overall-cons degraded ss = ground arith
overall-cons unhealthy ss = ground arith
overall-cons unknown ss = ground arith

overall-worst : (ss : List HealthStatus) → overall ss ≡ worst ss
unfolding worst overall any_status
overall-worst [] = refl
overall-worst (s ∷ ss) = rw overall-cons (ap (worse s) (overall-worst ss))

-- The chain of tests computes the worst status of the components, where UNHEALTHY is worse than
-- DEGRADED, that than UNKNOWN, and that than HEALTHY.
pub determine_overall_status-worst :
    (h : HealthChecker)
    → determine_overall_status h ≡ worst (map (λ c. c.status) (values h.components))
unfolding determine_overall_status
determine_overall_status-worst h = overall-worst (map (λ c. c.status) (values h.components))
