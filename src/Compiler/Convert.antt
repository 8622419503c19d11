-- ===== src/Compiler/Convert.antt =====
-- internal/compiler/radarr.go and prowlarr.go: from the specification of a kind to the compiler's input. How
-- `url.Parse` reads a URL is a parameter.
pub mod Names
pub mod Clients
pub mod Settings
pub mod Quality
pub mod Kinds
pub mod Prowlarr
pub mod Entries
pub mod Laws
pub mod Ignored
pub mod Bounds
use nebularr_operator.Common.{
  String, ◌<>◌, Bool, ◌==◌, string_eq, if◌then◌else◌, Option, none, some,
}
use nebularr_operator.Common.Dict.{Dict, lookup}
use nebularr_operator.Api.{SecretKeySelector, CredentialsSecretRef}

-- `ptrBoolOrDefault` and `ptrIntOrDefault`
abbrev pub ptr_or_default {ℓ} : {A : Type ℓ} → Option A → A → A
ptr_or_default none fallback = fallback
ptr_or_default (some a) fallback = a

abbrev pub default_string : String → String → String
default_string s fallback = if s == "" then fallback else s

-- `if value, ok := m[key]; ok { field = value }`, of a field that was not set.
unfoldable pub value_or_empty : String → Dict String String → String
value_or_empty key secrets = elim (lookup key secrets) [ none ↦ "" | some value ↦ value ]

-- The value of a reference to a key of a secret.
unfoldable pub resolve_key_ref : String → Option SecretKeySelector → Dict String String → String
unfolding value_or_empty
resolve_key_ref fallback none secrets = ""
resolve_key_ref fallback (some ref) secrets =
    value_or_empty (ref.name <> "/" <> default_string ref.key fallback) secrets

-- The name and the password of a reference to credentials.
unfoldable pub resolve_credentials_ref :
    Option CredentialsSecretRef → Dict String String → String × String
unfolding value_or_empty
resolve_credentials_ref none secrets = ("", "")
resolve_credentials_ref (some ref) secrets =
    let prefix = ref.name <> "/" in
    (
      value_or_empty (prefix <> default_string ref.username_key "username") secrets,
      value_or_empty (prefix <> default_string ref.password_key "password") secrets,
    )
