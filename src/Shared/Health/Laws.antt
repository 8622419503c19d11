-- ===== src/Shared/Health/Laws.antt =====
-- A health status is healthy exactly if it has no error.
use mathlib.Core.Bool.{false≢true}
use text.Mathlib.TextEquality.{eq_iff}
use nebularr_operator.Common.{
  ◌+◌, String, true, not, ◌≡◌, ◌≢◌, refl, arith, ◌<>◌, List, [], ◌∷◌, ◌++◌, length, length-append,
  Result, ok, string_eq, ◌||◌,
}
use nebularr_operator.Ir.{HealthIssue, HealthStatus}
use nebularr_operator.Shared.Health.{
  HealthResource, add_check, add_checks, get_health, has_type, has_errors,
}

has_type-append :
    (t : String) (xs ys : List HealthIssue)
    → has_type t (xs ++ ys) ≡ (has_type t xs || has_type t ys)
unfolding has_type
has_type-append t [] ys = refl
has_type-append t (x ∷ xs) ys = ground (arith, has_type-append t xs ys)

warning-ne-error : ◌≢◌ {A = String} "warning" "error"
warning-ne-error e = false≢true ((eq_iff "warning" "error").1 e)

notice-ne-error : ◌≢◌ {A = String} "notice" "error"
notice-ne-error e = false≢true ((eq_iff "notice" "error").1 e)

abbrev pub IsConsistent : HealthStatus → Type 0
IsConsistent h = h.healthy ≡ not (has_errors h)

add_check-IsConsistent :
    (check : HealthResource) (h : HealthStatus) → IsConsistent h → IsConsistent (add_check check h)
unfolding add_check has_type
add_check-IsConsistent check h c =
    rw has_type-append (ground (arith, c, warning-ne-error, notice-ne-error))

add_checks-IsConsistent :
    (checks : List HealthResource) (h : HealthStatus)
    → IsConsistent h
    → IsConsistent (add_checks checks h)
      × (length (add_checks checks h).issues ≡ length h.issues + length checks)
unfolding add_checks add_check
add_checks-IsConsistent [] h c = (c, omega arith)
add_checks-IsConsistent (check ∷ checks) h c =
    let (d, n) =
      add_checks-IsConsistent checks (add_check check h) (add_check-IsConsistent check h c) in
    (d, omega (arith, n, length-append h.issues _))

start-IsConsistent : IsConsistent (record { healthy = true; issues = [] })
unfolding has_type
start-IsConsistent = refl

-- If the service answers the request for its checks, `GetHealth` returns a status with one issue for
-- each check, which is healthy exactly if `HasErrors` finds no error among the issues.
pub health_consistent :
    {S : Type 0} (get : String → S → Result (List HealthResource) × S) (api_version : String)
    (s : S) (checks : List HealthResource)
    → (get ("/api/" <> api_version <> "/health") s).0 ≡ ok checks
    → (h : HealthStatus) × ((get_health get api_version s).0 ≡ ok h)
      × (h.healthy ≡ not (has_errors h))
      × (length h.issues ≡ length checks)
unfolding get_health
health_consistent get api_version s checks answered =
    let start : HealthStatus = record { healthy = true; issues = [] } in
    let done = add_checks-IsConsistent checks start start-IsConsistent in
    (add_checks checks start, rw answered refl, done.0, omega (arith, done.1))
