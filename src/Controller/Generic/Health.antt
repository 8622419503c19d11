-- ===== src/Controller/Generic/Health.antt =====
-- internal/controller/reconciler.go: the report of the health of a service.
use nebularr_operator.Common.{
  ◌+◌, String, ◌<>◌, ◌==◌, string_eq, if◌then◌else◌, Option, none, some, List, [], ◌∷◌, ◌++◌,
  length, ok, err,
}
use nebularr_operator.Ir.{ConnectionIr, HealthIssue}
use nebularr_operator.Api.{ReportedHealth}
use nebularr_operator.Adapters.Registry.{get}
use nebularr_operator.Shared.Health.{
  health_issue_type_error, health_issue_type_warning, health_issue_type_notice,
}
use nebularr_operator.Controller.Generic.{ArrConfigObject, GenericArrReconciler}

-- The body of the loop over the issues.
unfoldable pub report_issue : HealthIssue → ReportedHealth → ReportedHealth
report_issue issue status =
    let issues =
      status.issues
      ++ record {
        source = issue.source;
        type = issue.type;
        message = issue.message;
        wiki_url = issue.wiki_url;
      }
        ∷ [] in
    record status {
      issues = issues;
      error_count =
          if issue.type == health_issue_type_error
          then status.error_count + 1
          else status.error_count;
      warning_count =
          if issue.type == health_issue_type_error
          then status.warning_count
          else if issue.type == health_issue_type_warning
          then status.warning_count + 1
          else status.warning_count;
    }

unfoldable pub report_issues : List HealthIssue → ReportedHealth → ReportedHealth
unfolding report_issue
report_issues [] status = status
report_issues (issue ∷ issues) status = report_issues issues (report_issue issue status)

unfoldable pub reason_of : HealthIssue → String
reason_of issue = if issue.type == health_issue_type_error then "HealthError" else "HealthWarning"

module _ {S : Type 0} (r : GenericArrReconciler S) where
  -- The events; a notice has none.
  unfoldable pub emit_events : ArrConfigObject → List HealthIssue → S → S
  unfolding reason_of
  emit_events config [] s = s
  emit_events config (issue ∷ issues) s = emit_events config issues (
      if issue.type == health_issue_type_notice
      then s
      else r.event config "Warning" (reason_of issue) ("[" <> issue.source <> "] " <> issue.message)
          s)

  unfoldable pub check_and_report_health :
      ConnectionIr → ArrConfigObject → S → Option ReportedHealth × S
  unfolding report_issues emit_events get
  check_and_report_health conn config s = elim (get config.app_type r.registry) [
    | none ↦ (none, s)
    | some adapter ↦ elim adapter.get_health [
      | none ↦ (none, s)
      | some get_health ↦
          let (answer, s') = get_health conn s in
          elim answer [
            | err e ↦ (none, s')
            | ok health ↦ (
              some (
                  report_issues health.issues (record {
                    healthy = health.healthy;
                    issue_count = length health.issues;
                    error_count = 0;
                    warning_count = 0;
                    last_check = some r.now;
                    issues = [];
                  })),
              emit_events config health.issues s',
            )
          ]
    ]
  ]
