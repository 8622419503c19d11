-- ===== src/Adapters/Interface.antt =====
-- internal/adapters/adapter.go. A method that talks to the service passes the state of the outside
-- world on. The two optional interfaces are optional fields. `Connect`, `CurrentState`, `Diff` and
-- the two that apply may answer nil without an error; `Discover` and the check of the health answer with a value
-- or an error.
use nebularr_operator.Common.{ℕ, String, Option, Result}
use nebularr_operator.Ir.{Ir, ConnectionIr, HealthStatus}
use nebularr_operator.Changes.{ChangeSet, ApplyResult}
use nebularr_operator.Compiler.Types.{Capabilities}

pub record ServiceInfo : Type 0 where
  pub version : String
  pub start_time : ℕ

-- `Apply` and `ApplyDirect` return a result, which may be nil, and an error, which may be nil.
abbrev pub ApplyReturn : Type 0
ApplyReturn = Option ApplyResult × Option String

pub record Adapter (S : Type 0) : Type 0 where
  pub name : String
  pub supported_app : String
  pub connect : ConnectionIr → S → Result (Option ServiceInfo) × S
  pub discover : ConnectionIr → S → Result Capabilities × S
  pub current_state : ConnectionIr → S → Result (Option Ir) × S
  pub diff : Option Ir → Ir → Option Capabilities → Result (Option ChangeSet)
  pub apply : ConnectionIr → ChangeSet → S → ApplyReturn × S
  pub apply_direct : Option (ConnectionIr → Ir → S → ApplyReturn × S)
  pub get_health : Option (ConnectionIr → S → Result HealthStatus × S)
