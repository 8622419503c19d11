-- ===== src/Controller/Reconcile/Laws.antt =====
-- What a reconciliation reports in the status of its resource.
use mathlib.Core.Bool.{false≢true}
use text.Mathlib.TextEquality.{eq_iff}
use nebularr_operator.Common.{
  ℕ, String, ◌<>◌, true, false, ◌≡◌, ◌≢◌, refl, ◌∙◌, ap, if◌then◌else◌, ℤ, Option, none, some, List,
  Result, ok, err, Result-cases, Option-cases, Bool-cases, inl, inr,
}
use nebularr_operator.Common.Dict.{Dict}
use nebularr_operator.Ir.{Ir, ConnectionIr}
use nebularr_operator.Changes.{ChangeSet, ApplyResult, no_result, is_empty, success}
use nebularr_operator.Compiler.Types.{Capabilities}
use nebularr_operator.Adapters.Interface.{Adapter, ApplyReturn}
use nebularr_operator.Adapters.Registry.{Run, returned, panicked, get}
use nebularr_operator.Controller.Status.{
  Condition, ConfigStatus, IsSetter, set_condition, condition_status, condition_type_ready,
  condition_type_synced, condition_true, condition_false,
}
use nebularr_operator.Controller.Reconcile.{
  set_cond, not_ready, finish, after_apply, in_sync, reconcile_changes, reconcile_state,
  reconcile_discovered, reconcile_with, reconcile_config, connected_to, not_registered, all_applied,
  partly_applied,
}

abbrev pub synced_status : ApplyResult → String
synced_status result = if success result then condition_true else condition_false

-- A run without an error has a result, says Ready and connected, records the time and the hash of the
-- desired representation, and says Synced exactly if the result is a success. A run with an error says
-- not Ready, and leaves the time and the hash as they were.
abbrev pub IsReported : ℕ → Ir → ConfigStatus → Run (ApplyReturn × ConfigStatus) → Type 0
IsReported now desired before panicked = Unit
IsReported now desired before (returned ((r, none), after)) =
    (result : ApplyResult) × (r ≡ some result)
    × (condition_status condition_type_ready after ≡ some condition_true)
    × (condition_status condition_type_synced after ≡ some (synced_status result))
    × (after.connected ≡ true)
    × (after.last_reconcile ≡ some now)
    × (after.last_applied_hash ≡ desired.source_hash)
IsReported now desired before (returned ((r, some e), after)) =
    (condition_status condition_type_ready after ≡ some condition_false)
    × (after.last_reconcile ≡ before.last_reconcile)
    × (after.last_applied_hash ≡ before.last_applied_hash)

synced-ne-ready : ◌≢◌ {A = String} "Synced" "Ready"
synced-ne-ready e = false≢true ((eq_iff "Synced" "Ready").1 e)

module _ {S : Type 0} (set : Condition → List Condition → List Condition) (setter : IsSetter set)
    (now : ℕ) (registry : Dict String (Adapter S)) (app_type : String) (conn : ConnectionIr) where
  pub status-set_cond :
      (g : ℤ) (type cond reason message : String) (st : ConfigStatus)
      → condition_status type
          (set_cond set now registry app_type conn g type cond reason message st)
        ≡ some cond
  unfolding set_condition
  status-set_cond g type cond reason message st =
      let (d, found, same, _, _) =
        setter.sets
          (record {
            type = type;
            status = cond;
            observed_generation = g;
            last_transition_time = now;
            reason = reason;
            message = message;
          })
          st.conditions in
      rw (condition_status, found) (ap some same)

  status-set_cond_other :
      (g : ℤ) (other type cond reason message : String) (st : ConfigStatus)
      → other ≢ type
      → condition_status other
          (set_cond set now registry app_type conn g type cond reason message st)
        ≡ condition_status other st
  unfolding set_condition
  status-set_cond_other g other type cond reason message st ne =
      let kept =
        setter.keeps
          (record {
            type = type;
            status = cond;
            observed_generation = g;
            last_transition_time = now;
            reason = reason;
            message = message;
          })
          st.conditions other ne in
      rw (condition_status, kept) refl

  -- A stage that fails.
  not_ready-IsReported :
      (g : ℤ) (desired : Ir) (r : Option ApplyResult) (e reason message : String)
      (before st : ConfigStatus)
      → st.last_reconcile ≡ before.last_reconcile
      → st.last_applied_hash ≡ before.last_applied_hash
      → IsReported now desired before
          (returned ((r, some e), not_ready set now registry app_type conn g reason message st))
  unfolding set_condition
  not_ready-IsReported g desired r e reason message before st t h =
      (status-set_cond g condition_type_ready condition_false reason message st, t, h)

  finish-IsReported :
      (g : ℤ) (desired : Ir) (result : ApplyResult) (before st : ConfigStatus)
      → st.connected ≡ true
      → condition_status condition_type_synced st ≡ some (synced_status result)
      → IsReported now desired before
          (returned (finish set now registry app_type conn g desired result st))
  unfolding finish set_condition
  finish-IsReported g desired result before st c h =
      let done : ConfigStatus = record st {
        last_reconcile = some now;
        last_applied_hash = desired.source_hash;
      } in
      (
        result,
        refl,
        status-set_cond g condition_type_ready condition_true "Ready"
            "Configuration reconciled successfully" done,
        status-set_cond_other g condition_type_synced condition_type_ready condition_true "Ready"
              "Configuration reconciled successfully" done synced-ne-ready
            ∙ h,
        c,
        refl,
        refl,
      )

  after_apply-IsReported :
      (g : ℤ) (desired : Ir) (changes : ChangeSet) (outcome : ApplyReturn)
      (before st : ConfigStatus)
      → st.connected ≡ true
      → st.last_reconcile ≡ before.last_reconcile
      → st.last_applied_hash ≡ before.last_applied_hash
      → IsReported now desired before
          (after_apply set now registry app_type conn g desired changes outcome st)
  unfolding after_apply set_condition
  after_apply-IsReported g desired changes (none, e) before st c t h = tt
  after_apply-IsReported g desired changes (some result, some e) before st c t h =
      not_ready-IsReported g desired (some result) e "ApplyFailed" _ before
        (set_cond set now registry app_type conn g condition_type_synced condition_false
          "ApplyFailed" e st)
        t h
  after_apply-IsReported g desired changes (some result, none) before st c t h =
      elim (Bool-cases (success result)) [
        | inl s ↦ rw s (
            finish-IsReported g desired result before
              (set_cond set now registry app_type conn g condition_type_synced condition_true
                "Synced" (all_applied result) st)
              c
              (status-set_cond g condition_type_synced condition_true "Synced" (all_applied result)
                  st
                ∙ rw s refl))
        | inr s ↦ rw s (
            finish-IsReported g desired result before
              (set_cond set now registry app_type conn g condition_type_synced condition_false
                "PartiallyApplied" (partly_applied result) st)
              c
              (status-set_cond g condition_type_synced condition_false "PartiallyApplied"
                  (partly_applied result) st
                ∙ rw s refl))
      ]

  reconcile_changes-IsReported :
      (a : Adapter S) (g : ℤ) (desired : Ir) (r : Result (Option ChangeSet))
      (before st : ConfigStatus) (s : S)
      → st.connected ≡ true
      → st.last_reconcile ≡ before.last_reconcile
      → st.last_applied_hash ≡ before.last_applied_hash
      → IsReported now desired before
          (reconcile_changes set now registry app_type conn a g desired r st s).0
  unfolding reconcile_changes set_condition success
  reconcile_changes-IsReported a g desired (err e) before st s c t h =
      not_ready-IsReported g desired none e "DiffFailed" e before st t h
  reconcile_changes-IsReported a g desired (ok none) before st s c t h = tt
  reconcile_changes-IsReported a g desired (ok (some changes)) before st s c t h =
      elim (Bool-cases (is_empty changes)) [
        | inl empty ↦ rw empty (
            finish-IsReported g desired no_result before
              (in_sync set now registry app_type conn g st) c
              (status-set_cond g condition_type_synced condition_true "InSync"
                "Configuration is in sync" st))
        | inr some_change ↦
            rw some_change
              (after_apply-IsReported g desired changes (a.apply conn changes s).0 before st c t h)
      ]

  reconcile_state-IsReported :
      (a : Adapter S) (g : ℤ) (desired : Ir) (caps : Capabilities) (before st : ConfigStatus)
      (s : S)
      → st.connected ≡ true
      → st.last_reconcile ≡ before.last_reconcile
      → st.last_applied_hash ≡ before.last_applied_hash
      → IsReported now desired before
          (reconcile_state set now registry app_type conn a g desired caps st s).0
  unfolding reconcile_state
  reconcile_state-IsReported a g desired caps before st s c t h =
      elim (Result-cases (a.current_state conn s).0) [
        | inl (current, e) ↦
            rw (e, IsReported)
              (reconcile_changes-IsReported a g desired (a.diff current desired (some caps)) before
                st (a.current_state conn s).1 c t h)
        | inr (m, e) ↦
            rw (e, IsReported)
              (not_ready-IsReported g desired none m "StateFetchFailed" m before st t h)
      ]

  reconcile_discovered-IsReported :
      (a : Adapter S) (g : ℤ) (desired : Ir) (before st : ConfigStatus) (s : S)
      → st.connected ≡ true
      → st.last_reconcile ≡ before.last_reconcile
      → st.last_applied_hash ≡ before.last_applied_hash
      → IsReported now desired before
          (reconcile_discovered set now registry app_type conn a g desired st s).0
  unfolding reconcile_discovered
  reconcile_discovered-IsReported a g desired before st s c t h =
      elim (Result-cases (a.discover conn s).0) [
        | inl (caps, e) ↦
            rw (e, IsReported)
              (reconcile_state-IsReported a g desired caps before st (a.discover conn s).1 c t h)
        | inr (m, e) ↦
            rw (e, IsReported)
              (not_ready-IsReported g desired none m "DiscoveryFailed" m before st t h)
      ]

  reconcile_with-IsReported :
      (a : Adapter S) (g : ℤ) (desired : Ir) (st : ConfigStatus) (s : S)
      → IsReported now desired st (reconcile_with set now registry app_type conn a desired st g s).0
  unfolding reconcile_with set_condition
  reconcile_with-IsReported a g desired st s = elim (Result-cases (a.connect conn s).0) [
    | inl (none, e) ↦ rw (e, IsReported) tt
    | inl (some info, e) ↦
        rw (e, IsReported)
          (reconcile_discovered-IsReported a g desired st
            (connected_to set now registry app_type conn g info st) (a.connect conn s).1 refl refl
            refl)
    | inr (m, e) ↦
        rw (e, IsReported)
          (not_ready-IsReported g desired none m "ConnectionFailed"
            ("Cannot connect to " <> app_type) st
            (set_cond set now registry app_type conn g "Connected" condition_false
              "ConnectionFailed" m (record st { connected = false }))
            refl refl)
  ]

  -- Whatever the adapter does, a reconciliation that returns no error leaves the status Ready and
  -- connected, with the time and the hash of the desired representation, and Synced exactly if the
  -- result is a success: a partial failure is Ready and not Synced. One that returns an error leaves
  -- the status not Ready, and the time and the hash as they were.
  pub reconcile-IsReported :
      (desired : Ir) (st : ConfigStatus) (g : ℤ) (s : S)
      → IsReported now desired st (reconcile_config set now registry app_type conn desired st g s).0
  unfolding reconcile_config set_condition
  reconcile-IsReported desired st g s = elim (Option-cases (get app_type registry)) [
    | inl e ↦
        rw (e, IsReported)
          (not_ready-IsReported g desired none (not_registered app_type) "AdapterNotFound"
            (not_registered app_type) st st refl refl)
    | inr (a, e) ↦ rw (e, IsReported) (reconcile_with-IsReported a g desired st s)
  ]
