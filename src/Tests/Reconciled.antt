-- ===== src/Tests/Reconciled.antt =====
-- Reconciliations with a service.
use mathlib.Core.Option.{some_inj, some-ne-none}
use nebularr_operator.Common.{
  ℕ, String, string_eq, false, ◌≡◌, refl, ap, ◌∙◌, ◌↔◌, pos, Option, none, some, List, [], ◌∷◌,
  arith, ok,
}
use nebularr_operator.Common.Dict.{Dict, lookup, insert}
use nebularr_operator.Ir.{Ir}
use nebularr_operator.Changes.{ChangeSet, no_result, empty_changes}
use nebularr_operator.Compiler.Compile.{compile_parts}
use nebularr_operator.Adapters.Interface.{Adapter, ApplyReturn}
use nebularr_operator.Adapters.Registry.{get, panicked}
use nebularr_operator.Controller.Status.{Condition, ConfigStatus, IsSetter, find_condition}
use nebularr_operator.Controller.Reconcile.{reconcile_config}
use nebularr_operator.Controller.Reconcile.Laws.{IsReported, reconcile-IsReported}
use nebularr_operator.Controller.Reconcile.Safety.{HasResults, ReadsNil, ok_inj, reconcile_panics}
use nebularr_operator.Diff.Clients.{diff_download_clients_with_ir}
use nebularr_operator.Tests.Data.{input, capabilities, connection, in_order, in_reverse}

-- The newest condition of a type stands first.
abbrev pub set : Condition → List Condition → List Condition
set c conditions = c ∷ conditions

pub set-IsSetter : IsSetter set
unfolding find_condition
set-IsSetter = record {
  sets = λ c conditions. (c, ground arith, refl, refl, refl);
  keeps = λ c conditions type ne. ground (arith, ne);
}

abbrev clients_of : Option Ir → Ir → ChangeSet
clients_of none desired = empty_changes
clients_of (some current) desired =
    diff_download_clients_with_ir in_order in_reverse current.download_clients
      desired.download_clients empty_changes

-- An adapter to a service that counts the calls of `Apply`.
abbrev adapter : Adapter ℕ
adapter = record {
  name = "radarr";
  supported_app = "radarr";
  connect = λ conn s. (ok (some (record { version = "5.0"; start_time = 0 })), s);
  discover = λ conn s. (ok capabilities, s);
  current_state =
      λ conn s. (ok (some (record (compile_parts 0 input) { download_clients = [] })), s);
  diff = λ current desired caps. ok (some (clients_of current desired));
  apply = λ conn changes s. ((some no_result, none), s);
  apply_direct = none;
  get_health = none;
}

abbrev pub status : ConfigStatus
status = record {
  conditions = [];
  connected = false;
  service_version = "";
  last_reconcile = none;
  last_applied_hash = "";
}

abbrev pub registry : Dict String (Adapter ℕ)
registry = ("radarr", adapter) ∷ []

reconcile-IsReported_example :
    IsReported 1700
      (compile_parts 0 input)
      status
      (reconcile_config set 1700 registry "radarr" connection
        (compile_parts 0 input)
        status
        (pos 1)
        0).0
reconcile-IsReported_example =
    reconcile-IsReported set set-IsSetter 1700 registry "radarr" connection (compile_parts 0 input)
      status (pos 1) 0

pub adapter-HasResults : (a : Adapter ℕ) → get "radarr" registry ≡ some a → HasResults a
unfolding get lookup string_eq
adapter-HasResults a e = record {
  apply = λ conn changes s nothing. some-ne-none no_result (
      ap (λ (b : Adapter ℕ). (b.apply conn changes s).0.0) (some_inj.0 e)
      ∙ ap (λ (o : ApplyReturn). o.0) nothing);
  diff = λ current desired caps nothing.
      some-ne-none (clients_of current desired)
        (ok_inj (ap (λ (b : Adapter ℕ). b.diff current desired caps) (some_inj.0 e) ∙ nothing));
}

-- An adapter that cannot ensure its tag.
abbrev untagged : Dict String (Adapter ℕ)
untagged =
    (
      "radarr",
      record adapter {
        apply = λ conn changes s. ((none, some "failed to ensure ownership tag"), s);
      },
    )
    ∷ []

reconcile_panics_example :
    ((reconcile_config set 1700 untagged "radarr" connection
        (compile_parts 0 input)
        status
        (pos 1)
        0).0
      ≡ panicked)
    ↔ ((a : Adapter ℕ) × (get "radarr" untagged ≡ some a)
        × ReadsNil "radarr" connection (compile_parts 0 input) a 0)
reconcile_panics_example =
    reconcile_panics set 1700 untagged "radarr" connection (compile_parts 0 input) status (pos 1) 0

untagged_panics :
    (reconcile_config set 1700 untagged "radarr" connection
      (compile_parts 0 input)
      status
      (pos 1)
      0).0
    ≡ panicked
unfolding reconcile_config lookup string_eq diff_download_clients_with_ir compile_parts insert
untagged_panics = refl
