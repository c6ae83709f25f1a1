-- ===== src/HealthChecker/Fresh.antt =====
-- monitoring/health_checks.py: a status that is asked for is never older than two intervals.
use cto_test_ai_trading_bot.Prelude.{
  ℕ, ◌+◌, ◌*◌, ◌≤◌, ◌≡◌, refl, sym, ap, ◌∙◌, String, false, some, [], ◌∷◌, map, if◌then◌else◌,
  arith, str_eq, eq_iff, Bool-cases, inl, inr,
}
use cto_test_ai_trading_bot.Prelude.Dict.{Dict, lookup, insert, contains, values, lookup-insert}
use cto_test_ai_trading_bot.HealthChecker.{
  HealthChecker, ComponentHealth, Round, check_component_health, register_component, unchecked,
  store_results, result_at, check_all_components, any_stale, get_health_status,
}
use cto_test_ai_trading_bot.HealthChecker.Overall.{worst, determine_overall_status-worst}

-- The components are those for which a check is registered.
abbrev pub IsRegistered : HealthChecker → Type 0
IsRegistered h = (k : String) → contains k h.components ≡ contains k h.component_checks

-- the result of the round for a component
abbrev pub checked : Round → HealthChecker → String → ComponentHealth
checked r h k = check_component_health k (r.replies k) r.started (r.ended k) h

last_check-checked :
    (r : Round) (h : HealthChecker) (k : String) → (checked r h k).last_check ≡ r.ended k
unfolding check_component_health
last_check-checked r h k = ground arith

pub lookup-store_results :
    (r : Round) (h : HealthChecker) (k : String) (checks : Dict (Unit {0}))
    (components : Dict ComponentHealth)
    → lookup k (store_results r h checks components)
      ≡ (if contains k checks then some (checked r h k) else lookup k components)
unfolding store_results lookup
lookup-store_results r h k [] components = refl
lookup-store_results r h k ((j, _) ∷ checks) components = elim (Bool-cases (str_eq j k)) [
  | inl here ↦
      let same : j ≡ k = (eq_iff j k).0 here in
      ground (
        arith,
        here,
        lookup-store_results r h k checks (insert j (checked r h j) components),
        lookup-insert j k (checked r h j) components,
        ap (λ i. some (checked r h i)) same,
      )
  | inr there ↦ ground (
    arith,
    there,
    lookup-store_results r h k checks (insert j (checked r h j) components),
    lookup-insert j k (checked r h j) components,
  )
]

pub register_component-IsRegistered :
    (name : String) (h : HealthChecker) → IsRegistered h → IsRegistered (register_component name h)
unfolding register_component
register_component-IsRegistered name h v k = ground (
  arith,
  v k,
  lookup-insert name k (unchecked name) h.components,
  lookup-insert name k tt h.component_checks,
)

pub check_all_components-IsRegistered :
    (r : Round) (h : HealthChecker) → IsRegistered h → IsRegistered (check_all_components r h).0
unfolding check_all_components
check_all_components-IsRegistered r h v k =
    ground (arith, v k, lookup-store_results r h k h.component_checks h.components)

lookup-any_stale :
    (now interval : ℕ) (k : String) (c : ComponentHealth) (d : Dict ComponentHealth)
    → any_stale now interval d ≡ false
    → lookup k d ≡ some c
    → now ≤ c.last_check + interval * 2
unfolding any_stale lookup
lookup-any_stale now interval k c [] h e = ground arith
lookup-any_stale now interval k c ((j, x) ∷ d) h e =
    ground (arith, lookup-any_stale now interval k c d)

-- A round checks every component: afterwards each has the result and the time of its check.
pub lookup-check_all_components :
    (r : Round) (h : HealthChecker) (k : String) (c : ComponentHealth)
    → IsRegistered h
    → lookup k (check_all_components r h).1.components ≡ some c
    → c ≡ checked r h k
unfolding check_all_components result_at
lookup-check_all_components r h k c v found =
    ground (arith, v k, lookup-store_results r h k h.component_checks h.components)

from_round :
    (r : Round) (now : ℕ) (h : HealthChecker) (k : String) (c : ComponentHealth)
    → IsRegistered h
    → ((j : String) → now ≤ r.ended j)
    → lookup k (check_all_components r h).1.components ≡ some c
    → now ≤ c.last_check + h.check_interval * 2
from_round r now h k c v later found =
    let same = ap (λ x. x.last_check) (lookup-check_all_components r h k c v found) in
    omega (arith, same, last_check-checked r h k, later k)

-- the answer, by what the components are
answer_fresh :
    (r : Round) (now : ℕ) (h : HealthChecker) (d : Dict ComponentHealth) (k : String)
    (c : ComponentHealth)
    → h.components ≡ d
    → IsRegistered h
    → ((j : String) → now ≤ r.ended j)
    → lookup k (get_health_status r now h).1.components ≡ some c
    → (now ≤ c.last_check + h.check_interval * 2)
      × ((get_health_status r now h).1.overall_status
          ≡ worst (map (λ x. x.status) (values (get_health_status r now h).1.components)))
unfolding get_health_status lookup
answer_fresh r now h [] k c e v later =
    rw (get_health_status, e, lookup) λ found. absurd (ground arith)
answer_fresh r now h (x ∷ d) k c e v later =
    elim (Bool-cases (any_stale now h.check_interval (x ∷ d))) [
      | inl stale ↦
          rw (get_health_status, e, stale)
            λ found. (
              from_round r now h k c v later found,
              determine_overall_status-worst (check_all_components r h).0,
            )
      | inr recent ↦
          rw (get_health_status, e, recent)
            λ found. (
              lookup-any_stale now h.check_interval k c (x ∷ d) recent
                  (ap (lookup k) (sym e) ∙ found),
              determine_overall_status-worst h,
            )
    ]

-- Where every component has a registered check, and the checks of a round end after it was asked for,
-- no component in an answer was last checked more than two intervals before the question. The overall
-- status of an answer that has components is the worst of theirs.
pub get_health_status-fresh :
    (r : Round) (now : ℕ) (h : HealthChecker) (k : String) (c : ComponentHealth)
    → IsRegistered h
    → ((j : String) → now ≤ r.ended j)
    → lookup k (get_health_status r now h).1.components ≡ some c
    → (now ≤ c.last_check + h.check_interval * 2)
      × ((get_health_status r now h).1.overall_status
          ≡ worst (map (λ x. x.status) (values (get_health_status r now h).1.components)))
get_health_status-fresh r now h k c v later = answer_fresh r now h h.components k c refl v later
