-- ===== src/Shared/Authentication.antt =====
-- internal/adapters/shared/authentication.go and mediamanagement.go. The HTTP client is a parameter: what
-- a GET of a path answers, and the PUT of a configuration.
pub mod Laws
use nebularr_operator.Common.{
  String, ◌<>◌, Bool, not, ◌&&◌, ◌==◌, string_eq, if◌then◌else◌, ℤ, Option, none, some, Result, ok,
  err, decimal_int,
}
use nebularr_operator.Ir.{AuthenticationIr}

pub record HostConfigResource : Type 0 where
  pub id : ℤ
  pub bind_address : String
  pub port : ℤ
  pub ssl_port : ℤ
  pub enable_ssl : Bool
  pub launch_browser : Bool
  pub authentication_method : String
  pub authentication_required : String
  pub username : String
  pub password : String
  pub password_confirmation : String
  pub log_level : String
  pub console_log_level : String
  pub branch : String
  pub api_key : String
  pub ssl_cert_path : String
  pub ssl_cert_password : String
  pub url_base : String
  pub instance_name : String
  pub update_automatically : Bool
  pub update_mechanism : String
  pub update_script_path : String
  pub proxy_enabled : Bool
  pub proxy_type : String
  pub proxy_hostname : String
  pub proxy_port : ℤ
  pub proxy_username : String
  pub proxy_password : String
  pub proxy_bypass_filter : String
  pub proxy_bypass_local_addresses : Bool
  pub certificate_validation : String
  pub backup_folder : String
  pub backup_interval : ℤ
  pub backup_retention : ℤ

-- The part of the HTTP client for one kind of configuration.
pub record ConfigClient (S T : Type 0) : Type 0 where
  pub get : String → S → Result T × S
  pub put : String → T → S → Option String × S

module _ {S T : Type 0} (c : ConfigClient S T) where
  unfoldable pub fetch_config : String → S → Result T × S
  fetch_config api_path s =
      let (r, s') = c.get api_path s in
      (
        elim r [
          | ok config ↦ ok config
          | err e ↦ err ("failed to get config from " <> api_path <> ": " <> e)
        ],
        s',
      )

  unfoldable pub update_config : String → ℤ → T → S → Option String × S
  unfolding decimal_int
  update_config api_path id config s = c.put (api_path <> "/" <> decimal_int id) config s

unfoldable pub map_auth_method : String → String
map_auth_method method =
    if method == "none"
    then "None"
    else if method == "forms"
    then "Forms"
    else if method == "basic"
    then "Basic"
    else if method == "external"
    then "External"
    else "None"

unfoldable pub map_auth_required : String → String
map_auth_required required =
    if required == "enabled"
    then "Enabled"
    else if required == "disabledForLocalAddresses"
    then "DisabledForLocalAddresses"
    else "Enabled"

abbrev pub read_auth_method : String → String
read_auth_method method =
    if method == "None"
    then "none"
    else if method == "Forms"
    then "forms"
    else if method == "Basic"
    then "basic"
    else if method == "External"
    then "external"
    else method

abbrev pub read_auth_required : String → String
read_auth_required required =
    if required == "Enabled"
    then "enabled"
    else if required == "DisabledForLocalAddresses"
    then "disabledForLocalAddresses"
    else required

unfoldable pub host_config_to_auth_ir : HostConfigResource → AuthenticationIr
host_config_to_auth_ir config = record {
  method = read_auth_method config.authentication_method;
  username = config.username;
  password = "";
  authentication_required = read_auth_required config.authentication_required;
}

-- The assignments of `ApplyAuthentication` to the configuration that it has fetched.
unfoldable pub set_authentication : AuthenticationIr → HostConfigResource → HostConfigResource
unfolding map_auth_method map_auth_required
set_authentication ir current =
    let sets_password = not (ir.password == "") in
    record current {
      authentication_method = map_auth_method ir.method;
      authentication_required = map_auth_required ir.authentication_required;
      username =
          if ir.method == "forms" && not (ir.username == "") then ir.username else current.username;
      password = if sets_password then ir.password else current.password;
      password_confirmation = if sets_password then ir.password else current.password_confirmation;
    }

module _ {S : Type 0} (c : ConfigClient S HostConfigResource) where
  unfoldable pub get_authentication_ir : String → S → Result AuthenticationIr × S
  unfolding fetch_config host_config_to_auth_ir
  get_authentication_ir api_path s =
      let (r, s') = fetch_config c api_path s in
      (elim r [ ok config ↦ ok (host_config_to_auth_ir config) | err e ↦ err e ], s')

  unfoldable pub apply_authentication_to : String → Option AuthenticationIr → S → Option String × S
  unfolding fetch_config update_config set_authentication
  apply_authentication_to api_path none s = (none, s)
  apply_authentication_to api_path (some ir) s =
      let (r, s') = fetch_config c api_path s in
      elim r [
        | err e ↦ (some ("failed to get current host config: " <> e), s')
        | ok current ↦ update_config c api_path current.id (set_authentication ir current) s'
      ]
