-- ===== src/HealthChecker/Tests.antt =====
-- monitoring/health_checks.py: runs of the checker, and its theorems at concrete inputs.
use cto_test_ai_trading_bot.Prelude.{
  ◌+◌, ◌*◌, ◌≤◌, ◌≡◌, refl, true, none, some, map, arith, if◌then◌else◌, str_eq,
}
use cto_test_ai_trading_bot.Prelude.Dict.{lookup, insert, values}
use cto_test_ai_trading_bot.HealthChecker
use cto_test_ai_trading_bot.HealthChecker.{
  HealthChecker, ComponentHealth, HealthStatus, Reply, Round, report, raised, degraded, unhealthy,
  unchecked, register_component, parse_status, classify, check_component_health, same_status,
  any_status, overall, determine_overall_status, store_results, result_at, check_all_components,
  any_stale, get_health_status, timed_out,
}
use cto_test_ai_trading_bot.HealthChecker.Builtin.{
  register_builtin_checks, init_health_checker, check_database, check_redis, check_trading_engine,
  pong,
}
use cto_test_ai_trading_bot.HealthChecker.Overall.{worst, determine_overall_status-worst}
use cto_test_ai_trading_bot.HealthChecker.Fresh.{IsRegistered, get_health_status-fresh, checked}

program : Unit {0}
unfolding lookup insert HealthChecker.init unchecked register_component register_builtin_checks
    init_health_checker parse_status classify check_component_health same_status any_status overall
    determine_overall_status store_results result_at check_all_components any_stale
    get_health_status check_database check_redis check_trading_engine worst
program = tt

abbrev checker : HealthChecker
checker = init_health_checker 5000 30_000 1000 none

checker-IsRegistered : IsRegistered checker
unfolding program
checker-IsRegistered = λ k. ground arith

-- the database cannot be reached, and the engine's check does not end
abbrev round : Round
round = record {
  replies = λ name.
      if str_eq name "database"
      then check_database true (some "connection refused")
      else if str_eq name "redis"
      then check_redis true (pong true)
      else timed_out;
  started = 100_000;
  ended = λ name. 105_000;
  finished = 105_001;
}

determine_overall_status-worst_example :
    determine_overall_status (check_all_components round checker).0
    ≡ worst (map (λ c. c.status) (values (check_all_components round checker).0.components))
determine_overall_status-worst_example =
    determine_overall_status-worst (check_all_components round checker).0

failing : (check_all_components round checker).1.overall_status ≡ unhealthy
unfolding program
failing = refl

get_health_status-fresh_example :
    (100_000 ≤ (checked round checker "redis").last_check + checker.check_interval * 2)
    × ((get_health_status round 100_000 checker).1.overall_status
        ≡ worst
            (map (λ x. x.status) (values (get_health_status round 100_000 checker).1.components)))
unfolding program
get_health_status-fresh_example =
    get_health_status-fresh round 100_000 checker "redis" (checked round checker "redis")
      checker-IsRegistered (λ j. omega arith) refl
