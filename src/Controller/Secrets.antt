-- ===== src/Controller/Secrets.antt =====
-- internal/controller/reconciler.go: the resolution of secrets into one map of values. The client reads
-- one version of the cluster's secrets, a parameter. A map that is filled in place is returned, also with an
-- error.
pub mod Requests
pub mod Laws
use nebularr_operator.Common.{
  String, ◌<>◌, ◌==◌, string_eq, if◌then◌else◌, Option, none, some, List, [], ◌∷◌, Result, ok, err,
}
use nebularr_operator.Common.Dict.{Dict, lookup, insert}
use nebularr_operator.Common.Range.{RangeOrder}
use nebularr_operator.Api.{
  SecretKeySelector, CredentialsSecretRef, ConnectionSpec, DownloadClientSpec, DirectIndexer,
  IndexersSpec, ImportListSpec, AuthenticationSpec, ProwlarrIndexer, IndexerProxy,
  ProwlarrApplication,
}

abbrev pub Resolved : Type 0
Resolved = Option String × Dict String String

-- `if key == "" { key = fallback }`
abbrev pub key_or : String → String → String
key_or fallback key = if key == "" then fallback else key

-- The key of a value in the map.
abbrev pub entry_of : String → String → String
entry_of name key = name <> "/" <> key

-- A loop that stops at the first error.
unfoldable pub for_each {ℓ} :
    {A : Type ℓ} → (A → Dict String String → Resolved) → List A → Dict String String → Resolved
for_each body [] resolved = (none, resolved)
for_each body (a ∷ items) resolved =
    let (e, r) = body a resolved in elim e [ some m ↦ (some m, r) | none ↦ for_each body items r ]

module _ (get_secret : String → String → Result (Dict String String)) (namespace : String) where
  -- `%q` of a key is the key in quotes: the keys of secrets have no characters that it escapes.
  unfoldable pub resolve_secret_value : String → String → Result String
  resolve_secret_value name key = elim (get_secret namespace name) [
    | err e ↦ err ("failed to get secret " <> namespace <> "/" <> name <> ": " <> e)
    | ok secret ↦ elim (lookup key secret) [
      | none ↦ err ("key \"" <> key <> "\" not found in secret " <> namespace <> "/" <> name)
      | some value ↦ ok value
    ]
  ]

  -- One value, entered under its secret and key.
  unfoldable pub resolve_into : String → String → String → Dict String String → Resolved
  unfolding resolve_secret_value
  resolve_into problem name key resolved = elim (resolve_secret_value name key) [
    | err e ↦ (some (problem <> ": " <> e), resolved)
    | ok value ↦ (none, insert (entry_of name key) value resolved)
  ]

  unfoldable pub resolve_connection_secrets : ConnectionSpec → Result (Dict String String)
  unfolding resolve_secret_value
  resolve_connection_secrets conn = elim conn.api_key_secret_ref [
    | none ↦ ok []
    | some ref ↦ elim (resolve_secret_value ref.name (key_or "apiKey" ref.key)) [
      | err e ↦ err ("failed to resolve API key secret: " <> e)
      | ok api_key ↦ ok (("apiKey", api_key) ∷ [])
    ]
  ]

  -- The body of the loops over what has credentials.
  unfoldable pub resolve_credentials :
      String → Option CredentialsSecretRef → Dict String String → Resolved
  unfolding resolve_into
  resolve_credentials problem none resolved = (none, resolved)
  resolve_credentials problem (some ref) resolved =
      let (e, r) = resolve_into problem ref.name (key_or "username" ref.username_key) resolved in
      elim e [
        | some m ↦ (some m, r)
        | none ↦ resolve_into problem ref.name (key_or "password" ref.password_key) r
      ]

  -- The body of the loops over what has an API key, and of the authentication.
  unfoldable pub resolve_key :
      String → String → Option SecretKeySelector → Dict String String → Resolved
  unfolding resolve_into
  resolve_key problem fallback none resolved = (none, resolved)
  resolve_key problem fallback (some ref) resolved =
      resolve_into problem ref.name (key_or fallback ref.key) resolved

  unfoldable pub resolve_download_client_secrets :
      List DownloadClientSpec → Dict String String → Resolved
  unfolding for_each resolve_credentials
  resolve_download_client_secrets = for_each (λ (dc : DownloadClientSpec).
      resolve_credentials "failed to resolve download client credentials" dc.credentials_secret_ref)

  unfoldable pub resolve_indexer_secrets : Option IndexersSpec → Dict String String → Resolved
  unfolding for_each resolve_key
  resolve_indexer_secrets none resolved = (none, resolved)
  resolve_indexer_secrets (some indexers) resolved =
      for_each
        (λ (idx : DirectIndexer).
          resolve_key "failed to resolve indexer API key" "apiKey" idx.api_key_secret_ref)
        indexers.direct resolved

  unfoldable pub resolve_prowlarr_indexer_secrets :
      List ProwlarrIndexer → Dict String String → Resolved
  unfolding for_each resolve_key
  resolve_prowlarr_indexer_secrets = for_each (λ (idx : ProwlarrIndexer).
      resolve_key "failed to resolve Prowlarr indexer API key" "apiKey" idx.api_key_secret_ref)

  unfoldable pub resolve_proxy_secrets : List IndexerProxy → Dict String String → Resolved
  unfolding for_each resolve_credentials
  resolve_proxy_secrets = for_each (λ (proxy : IndexerProxy).
      resolve_credentials "failed to resolve proxy credentials" proxy.credentials_secret_ref)

  unfoldable pub resolve_application_secrets :
      List ProwlarrApplication → Dict String String → Resolved
  unfolding for_each resolve_key
  resolve_application_secrets = for_each (λ (app : ProwlarrApplication).
      resolve_key "failed to resolve application API key" "apiKey" app.api_key_secret_ref)

  -- All keys of a secret, in the order in which Go visits the map.
  unfoldable pub enter_all : String → Dict String String → Dict String String → Dict String String
  enter_all name [] resolved = resolved
  enter_all name ((key, value) ∷ secret) resolved =
      enter_all name secret (insert (entry_of name key) value resolved)

  unfoldable pub resolve_import_list_secrets :
      RangeOrder (String × String) → List ImportListSpec → Dict String String → Resolved
  unfolding for_each enter_all
  resolve_import_list_secrets order =
      for_each (λ (list : ImportListSpec) (resolved : Dict String String).
        elim list.settings_secret_ref [
          | none ↦ (none, resolved)
          | some ref ↦ elim (get_secret namespace ref.name) [
            | err e ↦
                (some ("failed to get import list secret " <> ref.name <> ": " <> e), resolved)
            | ok secret ↦ (none, enter_all ref.name (order.visit secret) resolved)
          ]
        ])

  unfoldable pub resolve_authentication_secrets :
      Option AuthenticationSpec → Dict String String → Resolved
  unfolding resolve_key
  resolve_authentication_secrets none resolved = (none, resolved)
  resolve_authentication_secrets (some auth) resolved =
      resolve_key "failed to resolve authentication password" "password" auth.password_secret_ref
        resolved
