-- ===== src/Shared/Authentication/Laws.antt =====
-- What is applied is what is read back.
use mathlib.Core.Bool.{false≢true}
use mathlib.Core.Path.{subst}
use mathlib.Core.Option.{some-ne-none}
use nebularr_operator.Common.{
  String, true, ◌≡◌, refl, ◌∙◌, ap, arith, ◌<>◌, none, some, ok, decimal_int, string_eq, ◌==◌, inl,
  inr, not, ◌&&◌, Result-cases, contains, All, sym, List, [], ◌∷◌,
}
use nebularr_operator.Ir.{AuthenticationIr}
use nebularr_operator.Shared.Authentication.{
  HostConfigResource, ConfigClient, fetch_config, update_config, map_auth_method, map_auth_required,
  read_auth_method, read_auth_required, host_config_to_auth_ir, set_authentication,
  get_authentication_ir, apply_authentication_to,
}

-- The values that the custom resource admits.
abbrev pub auth_methods : List String
auth_methods = "none" ∷ "forms" ∷ "basic" ∷ "external" ∷ []

abbrev pub auth_requirements : List String
auth_requirements = "enabled" ∷ "disabledForLocalAddresses" ∷ []

read_none : read_auth_method (map_auth_method "none") ≡ "none"
unfolding map_auth_method string_eq
read_none = refl

read_forms : read_auth_method (map_auth_method "forms") ≡ "forms"
unfolding map_auth_method string_eq
read_forms = refl

read_basic : read_auth_method (map_auth_method "basic") ≡ "basic"
unfolding map_auth_method string_eq
read_basic = refl

read_external : read_auth_method (map_auth_method "external") ≡ "external"
unfolding map_auth_method string_eq
read_external = refl

read_enabled : read_auth_required (map_auth_required "enabled") ≡ "enabled"
unfolding map_auth_required string_eq
read_enabled = refl

read_disabled :
    read_auth_required (map_auth_required "disabledForLocalAddresses") ≡ "disabledForLocalAddresses"
unfolding map_auth_required string_eq
read_disabled = refl

-- What holds of each member of a list holds of what the list contains.
contains-All :
    (P : String → Type 0) (xs : List String) (a : String) → All P xs → contains xs a ≡ true → P a
contains-All P [] a h c = absurd (false≢true c)
contains-All P (x ∷ xs) a h c = elim (string_eq.dec a x) [
  | yes e ↦ subst P (sym e) h.0
  | no n ↦ contains-All P xs a h.1 (ground (arith, c, n))
]

abbrev IsReadBack : String → Type 0
IsReadBack m = read_auth_method (map_auth_method m) ≡ m

abbrev IsRequiredReadBack : String → Type 0
IsRequiredReadBack r = read_auth_required (map_auth_required r) ≡ r

-- A service that stores the configurations that it is sent: after a PUT to a path and an id that it
-- accepts, a GET of the path answers with the method, the requirement and the name that were sent.
pub record IsStoring {S : Type 0} (c : ConfigClient S HostConfigResource) (api_path : String)
    : Type 0 where
  pub stored :
      (id : String) (config : HostConfigResource) (s : S)
      → (c.put (api_path <> "/" <> id) config s).0 ≡ none
      → (config' : HostConfigResource) × ((c.get api_path
            (c.put (api_path <> "/" <> id) config s).1).0
          ≡ ok config')
        × (config'.authentication_method ≡ config.authentication_method)
        × (config'.authentication_required ≡ config.authentication_required)
        × (config'.username ≡ config.username)

module _ {S : Type 0} (c : ConfigClient S HostConfigResource) (api_path : String) where
  -- If `ApplyAuthentication` returns no error for a method and a requirement that the custom resource
  -- admits, and the service stores what it is sent, then `GetAuthenticationIR` reads them back; and
  -- for the method forms with a name, the name too.
  pub authentication_read_back :
      (ir : AuthenticationIr) (s : S)
      → IsStoring c api_path
      → contains auth_methods ir.method ≡ true
      → contains auth_requirements ir.authentication_required ≡ true
      → (apply_authentication_to c api_path (some ir) s).0 ≡ none
      → (read : AuthenticationIr) × ((get_authentication_ir c api_path
            (apply_authentication_to c api_path (some ir) s).1).0
          ≡ ok read)
        × (read.method ≡ ir.method)
        × (read.authentication_required ≡ ir.authentication_required)
        × ((ir.method == "forms" && not (ir.username == "")) ≡ true → read.username ≡ ir.username)
  unfolding apply_authentication_to get_authentication_ir fetch_config update_config
      host_config_to_auth_ir set_authentication
  authentication_read_back ir s storing hm hr done = elim (Result-cases (c.get api_path s).0) [
    | inr (e, failed) ↦ absurd (some-ne-none _ (rw failed at done))
    | inl (config, fetched) ↦
        let sent = set_authentication ir config in
        let (config', got, m, r, u) =
          storing.stored (decimal_int config.id) sent (c.get api_path s).1 (rw fetched at done) in
        rw fetched (
          host_config_to_auth_ir config',
          rw got refl,
          ap read_auth_method m
              ∙ contains-All IsReadBack auth_methods ir.method
                  (read_none, (read_forms, (read_basic, (read_external, tt)))) hm,
          ap read_auth_required r
              ∙ contains-All IsRequiredReadBack auth_requirements ir.authentication_required
                  (read_enabled, (read_disabled, tt)) hr,
          λ forms. u ∙ rw forms refl,
        )
  ]
