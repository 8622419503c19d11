-- ===== src/Tests/Services.antt =====
-- Applications to services, and the registry.
use nebularr_operator.Common.{
  ◌++◌, ℕ, ◌+◌, String, string_eq, true, false, not, ◌&&◌, ◌≡◌, refl, pos, none, some, List, [],
  ◌∷◌, ◌==◌, arith, length, contains, Result, ok,
}
use nebularr_operator.Common.Dict.{Dict, lookup, insert}
use nebularr_operator.Ir.{Ir, AuthenticationIr}
use nebularr_operator.Changes.{
  Change, ChangeSet, ApplyFunc, apply_changes, add_create, add_delete, empty_changes,
}
use nebularr_operator.Changes.Outcome.{attempt_all, jobs, tally, apply_changes-attempt_all}
use nebularr_operator.Compiler.Compile.{compile_parts}
use nebularr_operator.Shared.Direct.{DirectApplyCallbacks, apply_direct}
use nebularr_operator.Shared.Direct.Laws.{after_lists, after_call, answers, apply_direct_accounts}
use nebularr_operator.Shared.Authentication.{
  HostConfigResource, ConfigClient, get_authentication_ir, apply_authentication_to, fetch_config,
  update_config,
}
use nebularr_operator.Shared.Authentication.Laws.{
  IsStoring, auth_methods, auth_requirements, authentication_read_back,
}
use nebularr_operator.Shared.Health.{HealthResource}
use nebularr_operator.Adapters.Registry.{returned, register, get}
use nebularr_operator.Adapters.Registry.Laws.{
  registering, run, expected, IsRegistry, IsRegistry-steps,
}
use nebularr_operator.Tests.Data.{input}

abbrev change : String → Change
change name = record { resource_type = "Indexer"; name = name; id = none; payload = none }

abbrev changes : ChangeSet
changes = add_delete (change "b") (add_create (change "a") empty_changes)

-- A service that counts its calls, and one that refuses them.
abbrev accepts : ApplyFunc ℕ
accepts c s = (none, s + 1)

abbrev refuses : ApplyFunc ℕ
refuses c s = (some "refused", s + 1)

apply_changes-attempt_all_example :
    let (attempts, s') = attempt_all (jobs changes accepts accepts refuses) 0 in
    apply_changes changes accepts accepts refuses 0 ≡ (tally attempts, s')
apply_changes-attempt_all_example = apply_changes-attempt_all changes accepts accepts refuses 0

abbrev authentication : AuthenticationIr
authentication = record {
  method = "forms";
  username = "poiley";
  password = "secret";
  authentication_required = "enabled";
}

abbrev desired : Ir
desired = record (compile_parts 0 input) { authentication = some authentication }

abbrev callbacks : DirectApplyCallbacks ℕ
callbacks = record {
  apply_import_lists = none;
  apply_media_management = some (λ s. (none, s + 1));
  apply_authentication = some (λ s. (some "refused", s + 1));
}

apply_direct_accounts_example :
    let (r, s') = apply_direct desired callbacks 0 in
    let (a, b, c) = answers desired callbacks 0 in
    (s'
      ≡ after_call desired.authentication callbacks.apply_authentication (
          after_call desired.media_management callbacks.apply_media_management
            (after_lists desired callbacks 0)))
    × (r.applied ≡ a.applied + b.applied + c.applied)
    × (r.skipped ≡ a.skipped + b.skipped + c.skipped)
    × (r.errors ≡ a.errors ++ b.errors ++ c.errors)
    × (r.failed ≡ length r.errors)
apply_direct_accounts_example = apply_direct_accounts desired callbacks 0

abbrev host : HostConfigResource
host = record {
  id = pos 1;
  bind_address = "";
  port = pos 0;
  ssl_port = pos 0;
  enable_ssl = false;
  launch_browser = false;
  authentication_method = "";
  authentication_required = "";
  username = "admin";
  password = "";
  password_confirmation = "";
  log_level = "";
  console_log_level = "";
  branch = "";
  api_key = "";
  ssl_cert_path = "";
  ssl_cert_password = "";
  url_base = "";
  instance_name = "";
  update_automatically = false;
  update_mechanism = "";
  update_script_path = "";
  proxy_enabled = false;
  proxy_type = "";
  proxy_hostname = "";
  proxy_port = pos 0;
  proxy_username = "";
  proxy_password = "";
  proxy_bypass_filter = "";
  proxy_bypass_local_addresses = false;
  certificate_validation = "";
  backup_folder = "";
  backup_interval = pos 0;
  backup_retention = pos 0;
}

-- A service that is its configuration.
abbrev store : ConfigClient HostConfigResource HostConfigResource
store = record { get = λ path s. (ok s, s); put = λ path config s. (none, config) }

store-IsStoring : IsStoring store "/api/v3/config/host"
store-IsStoring = record { stored = λ id config s done. (config, refl, refl, refl, refl) }

forms_known : contains auth_methods "forms" ≡ true
unfolding string_eq
forms_known = refl

enabled_known : contains auth_requirements "enabled" ≡ true
unfolding string_eq
enabled_known = refl

applied : (apply_authentication_to store "/api/v3/config/host" (some authentication) host).0 ≡ none
unfolding apply_authentication_to fetch_config update_config
applied = refl

authentication_read_back_example :
    (read : AuthenticationIr) × ((get_authentication_ir store "/api/v3/config/host"
        (apply_authentication_to store "/api/v3/config/host" (some authentication) host).1).0
      ≡ ok read)
    × (read.method ≡ "forms")
    × (read.authentication_required ≡ "enabled")
    × ((authentication.method == "forms" && not (authentication.username == "")) ≡ true
        → read.username ≡ "poiley")
authentication_read_back_example =
    authentication_read_back store "/api/v3/config/host" authentication host store-IsStoring
      forms_known enabled_known applied

abbrev checks : List HealthResource
checks = record { source = "IndexerCheck"; type = "error"; message = "down"; wiki_url = "" } ∷ []

abbrev health_of : String → ℕ → Result (List HealthResource) × ℕ
health_of path s = (ok checks, s)

-- A registry of adapters that are their app's name.
abbrev app_of : String → String
app_of a = a

abbrev registry : Dict String String
registry = ("radarr", "radarr") ∷ []

registry-IsRegistry : IsRegistry app_of registry
unfolding get lookup
registry-IsRegistry = record { nodup = (refl, tt); keyed = λ app a e. ground (arith, e) }

abbrev registry_with_sonarr : Dict String String
registry_with_sonarr = ("radarr", "radarr") ∷ ("sonarr", "sonarr") ∷ []

sonarr_registers : run app_of (registering "sonarr") registry ≡ returned registry_with_sonarr
unfolding register lookup insert string_eq
sonarr_registers = refl

IsRegistry-steps_example :
    IsRegistry app_of registry_with_sonarr
    × ((app : String)
        → get app registry_with_sonarr ≡ expected app_of (registering "sonarr") registry app)
IsRegistry-steps_example =
    IsRegistry-steps app_of (registering "sonarr") registry registry_with_sonarr registry-IsRegistry
      sonarr_registers
