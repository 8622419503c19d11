-- ===== src/Shared/Health.antt =====
-- internal/adapters/shared/health.go and internal/ir/v1/health.go. The HTTP client is a parameter.
pub mod Laws
use nebularr_operator.Common.{
  String, ◌<>◌, Bool, true, false, ◌==◌, string_eq, if◌then◌else◌, List, [], ◌∷◌, ◌++◌, Result, ok,
  err,
}
use nebularr_operator.Ir.{HealthIssue, HealthStatus}

pub record HealthResource : Type 0 where
  pub source : String
  pub type : String
  pub message : String
  pub wiki_url : String

abbrev pub health_issue_type_error : String
health_issue_type_error = "error"

abbrev pub health_issue_type_warning : String
health_issue_type_warning = "warning"

abbrev pub health_issue_type_notice : String
health_issue_type_notice = "notice"

-- The body of the loop over the checks.
unfoldable pub add_check : HealthResource → HealthStatus → HealthStatus
add_check check status = record {
  healthy = if check.type == "error" then false else status.healthy;
  issues =
      status.issues
      ++ record {
        source = check.source;
        type =
            if check.type == "error"
            then health_issue_type_error
            else if check.type == "warning"
            then health_issue_type_warning
            else health_issue_type_notice;
        message = check.message;
        wiki_url = check.wiki_url;
      }
        ∷ [];
}

unfoldable pub add_checks : List HealthResource → HealthStatus → HealthStatus
unfolding add_check
add_checks [] status = status
add_checks (check ∷ checks) status = add_checks checks (add_check check status)

unfoldable pub get_health :
    {S : Type 0}
    → (String → S → Result (List HealthResource) × S)
    → String
    → S
    → Result HealthStatus × S
unfolding add_checks
get_health get api_version s =
    let (r, s') = get ("/api/" <> api_version <> "/health") s in
    (
      elim r [
        | err e ↦ err ("failed to get health: " <> e)
        | ok checks ↦ ok (add_checks checks (record { healthy = true; issues = [] }))
      ],
      s',
    )

unfoldable pub has_type : String → List HealthIssue → Bool
has_type type [] = false
has_type type (issue ∷ issues) =
    let rest = has_type type issues in if issue.type == type then true else rest

abbrev pub has_errors : HealthStatus → Bool
has_errors h = has_type health_issue_type_error h.issues

abbrev pub has_warnings : HealthStatus → Bool
has_warnings h = has_type health_issue_type_warning h.issues

abbrev pub issue_key : HealthIssue → String
issue_key h = h.source <> ":" <> h.message
