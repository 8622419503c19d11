-- ===== src/Controller/Reconcile.antt =====
-- internal/controller/reconciler.go: one reconciliation with a service, the cleanup before a resource
-- goes, and the direct application. The logs and the metrics are left out. `panicked` is the nil
-- dereference where the source reads the information, the change set or the result of `Apply` that an adapter
-- returned as nil without an error, or the nil result of an `Apply` that failed.
pub mod Laws
pub mod Safety
pub mod Cleanup
use nebularr_operator.Common.{
  ℕ, String, ◌<>◌, Bool, true, false, not, ◌||◌, if◌then◌else◌, ℤ, Option, none, some, List, [],
  Result, ok, err, decimal,
}
use nebularr_operator.Common.Dict.{Dict}
use nebularr_operator.Ir.{Ir, ConnectionIr}
use nebularr_operator.Changes.{
  ChangeSet, ApplyResult, no_result, is_nil, is_empty, total_changes, success,
}
use nebularr_operator.Compiler.Types.{Capabilities}
use nebularr_operator.Adapters.Interface.{Adapter, ApplyReturn, ServiceInfo}
use nebularr_operator.Adapters.Registry.{Run, returned, panicked, get}
use nebularr_operator.Controller.Status.{
  Condition, ConfigStatus, set_condition, condition_type_ready, condition_type_connected,
  condition_type_synced, condition_true, condition_false,
}

-- `fmt.Sprintf("Applied %d/%d changes", applied, total)`, and the other two.
abbrev applied_of : ApplyResult → ChangeSet → String
applied_of r changes =
    "Applied " <> decimal r.applied <> "/" <> decimal (total_changes changes) <> " changes"

abbrev pub partly_applied : ApplyResult → String
partly_applied r = "Applied " <> decimal r.applied <> " changes, " <> decimal r.failed <> " failed"

abbrev pub all_applied : ApplyResult → String
all_applied r = "Applied " <> decimal r.applied <> " changes"

abbrev pub not_registered : String → String
not_registered app_type = app_type <> " adapter not registered"

module _ {S : Type 0} (set_status_condition : Condition → List Condition → List Condition) (now : ℕ)
    (registry : Dict String (Adapter S)) (app_type : String) (conn : ConnectionIr) where
  abbrev pub set_cond : ℤ → String → String → String → String → ConfigStatus → ConfigStatus
  set_cond generation type cond reason message status =
      set_condition set_status_condition now status generation type cond reason message

  abbrev pub not_ready : ℤ → String → String → ConfigStatus → ConfigStatus
  not_ready generation = set_cond generation condition_type_ready condition_false

  -- From the timestamps on.
  unfoldable pub finish : ℤ → Ir → ApplyResult → ConfigStatus → ApplyReturn × ConfigStatus
  unfolding set_condition
  finish generation desired result status = (
    (some result, none),
    set_cond generation condition_type_ready condition_true "Ready"
        "Configuration reconciled successfully"
        (record status { last_reconcile = some now; last_applied_hash = desired.source_hash }),
  )

  -- What is done with the return of `Apply`.
  unfoldable pub after_apply :
      ℤ → Ir → ChangeSet → ApplyReturn → ConfigStatus → Run (ApplyReturn × ConfigStatus)
  unfolding finish decimal total_changes success
  after_apply generation desired changes (none, _) status = panicked
  after_apply generation desired changes (some result, some e) status = returned (
    (some result, some e),
    not_ready generation "ApplyFailed" (applied_of result changes)
        (set_cond generation condition_type_synced condition_false "ApplyFailed" e status),
  )
  after_apply generation desired changes (some result, none) status = returned (
      finish generation desired result (
        if success result
        then set_cond generation condition_type_synced condition_true "Synced" (all_applied result)
            status
        else set_cond generation condition_type_synced condition_false "PartiallyApplied"
            (partly_applied result) status))

  abbrev pub in_sync : ℤ → ConfigStatus → ConfigStatus
  in_sync generation =
      set_cond generation condition_type_synced condition_true "InSync" "Configuration is in sync"

  -- From the diff on.
  unfoldable pub reconcile_changes :
      Adapter S
      → ℤ
      → Ir
      → Result (Option ChangeSet)
      → ConfigStatus
      → S
      → Run (ApplyReturn × ConfigStatus) × S
  unfolding after_apply is_empty
  reconcile_changes adapter generation desired (err e) status s =
      (returned ((none, some e), not_ready generation "DiffFailed" e status), s)
  reconcile_changes adapter generation desired (ok none) status s = (panicked, s)
  reconcile_changes adapter generation desired (ok (some changes)) status s =
      let (outcome, s') = adapter.apply conn changes s in
      if is_empty changes
      then (returned (finish generation desired no_result (in_sync generation status)), s)
      else (after_apply generation desired changes outcome status, s')

  -- From the current state on.
  unfoldable pub reconcile_state :
      Adapter S → ℤ → Ir → Capabilities → ConfigStatus → S → Run (ApplyReturn × ConfigStatus) × S
  unfolding reconcile_changes
  reconcile_state adapter generation desired caps status s =
      let (r, s') = adapter.current_state conn s in
      elim r [
        | err e ↦ (returned ((none, some e), not_ready generation "StateFetchFailed" e status), s')
        | ok current ↦
            reconcile_changes adapter generation desired (adapter.diff current desired (some caps))
              status s'
      ]

  -- From the discovery on.
  unfoldable pub reconcile_discovered :
      Adapter S → ℤ → Ir → ConfigStatus → S → Run (ApplyReturn × ConfigStatus) × S
  unfolding reconcile_state
  reconcile_discovered adapter generation desired status s =
      let (r, s') = adapter.discover conn s in
      elim r [
        | err e ↦ (returned ((none, some e), not_ready generation "DiscoveryFailed" e status), s')
        | ok caps ↦ reconcile_state adapter generation desired caps status s'
      ]

  abbrev pub connected_to : ℤ → ServiceInfo → ConfigStatus → ConfigStatus
  connected_to generation info status =
      set_cond generation condition_type_connected condition_true "Connected"
        ("Connected to " <> app_type <> " " <> info.version)
        (record status { connected = true; service_version = info.version })

  abbrev pub not_connected : ℤ → String → ConfigStatus → ConfigStatus
  not_connected generation e status =
      not_ready generation "ConnectionFailed" ("Cannot connect to " <> app_type) (
        set_cond generation condition_type_connected condition_false "ConnectionFailed" e
          (record status { connected = false }))

  unfoldable pub reconcile_with :
      Adapter S → Ir → ConfigStatus → ℤ → S → Run (ApplyReturn × ConfigStatus) × S
  unfolding reconcile_discovered
  reconcile_with adapter desired status generation s =
      let (r, s') = adapter.connect conn s in
      elim r [
        | err e ↦ (returned ((none, some e), not_connected generation e status), s')
        | ok none ↦ (panicked, s')
        | ok (some info) ↦
            reconcile_discovered adapter generation desired (connected_to generation info status) s'
      ]

  unfoldable pub reconcile_config : Ir → ConfigStatus → ℤ → S → Run (ApplyReturn × ConfigStatus) × S
  unfolding reconcile_with get
  reconcile_config desired status generation s = elim (get app_type registry) [
    | none ↦ (
      returned (
        (none, some (not_registered app_type)),
        not_ready generation "AdapterNotFound" (not_registered app_type) status,
      ),
      s,
    )
    | some adapter ↦ reconcile_with adapter desired status generation s
  ]
