-- ===== src/HealthChecker/Builtin.antt =====
-- monitoring/health_checks.py: the built-in checks.
use cto_test_ai_trading_bot.Prelude.{ℕ, String, Bool, not, Option, none, some, if◌then◌else◌}
use cto_test_ai_trading_bot.HealthChecker.{
  Reply, report, raised, HealthChecker, init, register_component,
}

-- The checks that `register_builtin_checks` registers: `installed` says that the client's package is
-- there; the database's connection ends with an error or without, and Redis with an error or an answer.
unfoldable pub check_database : (installed : Bool) → Option String → Reply
check_database installed error =
    if not installed then report (some "DEGRADED") (some "asyncpg not installed") else elim error [
      | some e ↦ raised e
      | none ↦ report (some "HEALTHY") (some "database reachable")
    ]

pub data Ping : Type 0 where
  failed : String → Ping
  pong : Bool → Ping

unfoldable pub check_redis : (installed : Bool) → Ping → Reply
check_redis installed (failed e) =
    if not installed then report (some "DEGRADED") (some "redis client not installed") else raised e
check_redis installed (pong b) =
    if not installed
    then report (some "DEGRADED") (some "redis client not installed")
    else if b
    then report (some "HEALTHY") (some "redis reachable")
    else report (some "UNHEALTHY") (some "redis ping failed")

unfoldable pub check_trading_engine : Reply
check_trading_engine = report (some "HEALTHY") (some "event loop responsive")

unfoldable pub register_builtin_checks : HealthChecker → HealthChecker
unfolding register_component
register_builtin_checks h =
    register_component "trading_engine"
      (register_component "redis" (register_component "database" h))

-- the module's variable: made once, with the built-in checks
unfoldable pub init_health_checker : ℕ → ℕ → ℕ → Option HealthChecker → HealthChecker
unfolding init register_builtin_checks
init_health_checker timeout interval now (some h) = h
init_health_checker timeout interval now none = register_builtin_checks (init timeout interval now)
