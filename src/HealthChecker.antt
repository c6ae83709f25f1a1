-- ===== src/HealthChecker.antt =====
-- monitoring/health_checks.py: the health checker. Times are milliseconds of the clock. How the call of
-- a component's check ends is an argument, as are the times at which the checks end; the checks run
-- at once and their results are taken in the order in which the components were registered.
pub mod Builtin
pub mod Overall
pub mod Fresh
mod Tests
use cto_test_ai_trading_bot.Prelude.{
  ℕ, ◌+◌, ◌-◌, ◌*◌, String, Bool, true, false, not, Option, none, some, List, [], ◌∷◌, map, ◌||◌,
  ltb, if◌then◌else◌, str_eq, length,
}
use cto_test_ai_trading_bot.Prelude.Dict.{Dict, lookup, insert, values}

pub data HealthStatus : Type 0 where
  healthy degraded unhealthy unknown : HealthStatus

-- the message of a component: a text, or the one for a timeout or for a status that is none
pub data Message : Type 0 where
  text : String → Message
  timeout_after : ℕ → Message
  invalid_status : String → Message

pub record ComponentHealth : Type 0 where
  pub component : String
  pub status : HealthStatus
  pub latency_ms : ℕ
  pub message : Message
  pub last_check : ℕ

-- How a check ends: with a truth value, a dictionary with the entries "status" and "message" if they
-- are there, another value (given by its text), an exception, or a timeout
pub data Reply : Type 0 where
  truth : Bool → Reply
  report : (status message : Option String) → Reply
  other : String → Reply
  raised : String → Reply
  timed_out : Reply

pub record HealthCheckResult : Type 0 where
  pub overall_status : HealthStatus
  pub timestamp : ℕ
  pub components : Dict ComponentHealth
  pub uptime : ℕ

-- the registered checks are given by their names
pub record HealthChecker : Type 0 where
  pub component_timeout : ℕ
  pub check_interval : ℕ
  pub components : Dict ComponentHealth
  pub component_checks : Dict (Unit {0})
  pub start_time : ℕ

unfoldable pub init : ℕ → ℕ → ℕ → HealthChecker
init component_timeout check_interval now = record {
  component_timeout = component_timeout;
  check_interval = check_interval;
  components = [];
  component_checks = [];
  start_time = now;
}

unfoldable pub unchecked : String → ComponentHealth
unchecked name = record {
  component = name;
  status = unknown;
  latency_ms = 0;
  message = text "Not yet checked";
  last_check = 0;
}

unfoldable pub register_component : String → HealthChecker → HealthChecker
unfolding unchecked
register_component name h = record h {
  components = insert name (unchecked name) h.components;
  component_checks = insert name tt h.component_checks;
}

-- `HealthStatus(text)`, which raises ValueError (`none`) for a text that is no status
unfoldable pub parse_status : String → Option HealthStatus
parse_status s =
    if str_eq s "HEALTHY"
    then some healthy
    else if str_eq s "DEGRADED"
    then some degraded
    else if str_eq s "UNHEALTHY"
    then some unhealthy
    else if str_eq s "UNKNOWN"
    then some unknown
    else none

abbrev or_text : String → Option String → String
or_text default none = default
or_text default (some t) = t

-- the status and the message for a check that ended without a timeout
unfoldable pub classify : Reply → HealthStatus × Message
unfolding parse_status
classify (truth b) = if b then (healthy, text "OK") else (unhealthy, text "Failed")
classify (report status message) = elim (parse_status (or_text "HEALTHY" status)) [
  | none ↦ (unhealthy, invalid_status (or_text "HEALTHY" status))
  | some s ↦ (s, text (or_text "OK" message))
]
classify (other t) = (healthy, text t)
classify (raised e) = (unhealthy, text e)
classify timed_out = (unhealthy, timeout_after 0)

-- `check_component_health`, for a check that started and ended at the given times
unfoldable pub check_component_health :
    String → Reply → (started ended : ℕ) → HealthChecker → ComponentHealth
unfolding classify
check_component_health name timed_out started ended h = record {
  component = name;
  status = unhealthy;
  latency_ms = h.component_timeout;
  message = timeout_after h.component_timeout;
  last_check = ended;
}
check_component_health name reply started ended h = record {
  component = name;
  status = (classify reply).0;
  latency_ms = ended - started;
  message = (classify reply).1;
  last_check = ended;
}

-- `status in statuses`
unfoldable pub same_status : HealthStatus → HealthStatus → Bool
same_status healthy healthy = true
same_status degraded degraded = true
same_status unhealthy unhealthy = true
same_status unknown unknown = true
same_status _ _ = false

unfoldable pub any_status : HealthStatus → List HealthStatus → Bool
any_status s [] = false
any_status s (t ∷ ts) = same_status s t || any_status s ts

-- the chain of tests that `check_all_components` and `_determine_overall_status` both write out
unfoldable pub overall : List HealthStatus → HealthStatus
unfolding any_status same_status
overall statuses =
    if any_status unhealthy statuses
    then unhealthy
    else if any_status degraded statuses
    then degraded
    else if any_status unknown statuses
    then unknown
    else healthy

unfoldable pub determine_overall_status : HealthChecker → HealthStatus
determine_overall_status h = overall (map (λ c. c.status) (values h.components))

-- The calls of one round: how each component's check ends, and when
pub record Round : Type 0 where
  pub replies : String → Reply
  pub started : ℕ
  pub ended : String → ℕ
  pub finished : ℕ

-- `for result in results: self.components[result.component] = result`
unfoldable pub store_results :
    Round → HealthChecker → Dict (Unit {0}) → Dict ComponentHealth → Dict ComponentHealth
store_results r h [] components = components
store_results r h ((name, _) ∷ checks) components =
    let result = check_component_health name (r.replies name) r.started (r.ended name) h in
    store_results r h checks (insert name result components)

unfoldable pub result_at : ℕ → HealthChecker → HealthCheckResult
result_at now h = record {
  overall_status = determine_overall_status h;
  timestamp = now;
  components = h.components;
  uptime = now - h.start_time;
}

unfoldable pub check_all_components : Round → HealthChecker → HealthChecker × HealthCheckResult
unfolding store_results result_at
check_all_components r h =
    let h' = record h { components = store_results r h h.component_checks h.components } in
    (h', result_at r.finished h')

-- a component whose last check is more than two intervals old
unfoldable pub any_stale : ℕ → ℕ → Dict ComponentHealth → Bool
any_stale now interval [] = false
any_stale now interval (e ∷ d) =
    ltb ((e.1).last_check + interval * 2) now || any_stale now interval d

unfoldable pub get_health_status : Round → ℕ → HealthChecker → HealthChecker × HealthCheckResult
unfolding any_stale check_all_components
get_health_status r now h = elim h.components [
  | [] ↦ (h, record { overall_status = unknown; timestamp = now; components = []; uptime = 0 })
  | e ∷ d ↦
      if any_stale now h.check_interval (e ∷ d)
      then check_all_components r h
      else (h, result_at now h)
]
