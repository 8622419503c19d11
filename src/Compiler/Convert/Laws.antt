-- ===== src/Compiler/Convert/Laws.antt =====
-- From the secrets of the cluster to the compiler's input.
use text.Mathlib.TextLemmas.{append_assoc}
use nebularr_operator.Common.{
  String, ◌<>◌, string_eq, ◌≡◌, refl, sym, ap, ◌∙◌, Option, none, some, List, [], ◌∷◌, ◌++◌, Result,
  ok, All,
}
use nebularr_operator.Common.Dict.{Dict, lookup, NodupKeys}
use nebularr_operator.Common.Range.{RangeOrder}
use nebularr_operator.Ir.{Any}
use nebularr_operator.Api.{
  SecretKeySelector, CredentialsSecretRef, DownloadClientSpec, DirectIndexer, IndexersSpec,
  ImportListSpec,
}
use nebularr_operator.Api.Specs.{NotificationSpec}
use nebularr_operator.Controller.Secrets.{
  key_or, resolve_secret_value, resolve_download_client_secrets, resolve_indexer_secrets,
}
use nebularr_operator.Controller.Secrets.Requests.{
  credential_requests, key_requests, requests_of, IsUnambiguous, IsResolved,
}
use nebularr_operator.Controller.Secrets.Laws.{clients-IsResolved, indexers-IsResolved}
use nebularr_operator.Compiler.Convert.{value_or_empty, resolve_key_ref, resolve_credentials_ref}
use nebularr_operator.Compiler.Convert.Clients.{ParseUrl, convert_download_client, convert_indexer}
use nebularr_operator.Compiler.Convert.Settings.{convert_import_list, convert_notification}
use nebularr_operator.Compiler.Convert.Entries.{or_else, lookup-settings_of}

All-split {ℓ κ} :
    {A : Type ℓ} (P : A → Type κ) (xs ys : List A) → All P (xs ++ ys) → All P xs × All P ys
All-split P [] ys h = (tt, h)
All-split P (x ∷ xs) ys h = let (hx, hy) = All-split P xs ys h.1 in ((h.0, hx), hy)

module _ (get_secret : String → String → Result (Dict String String)) (namespace : String) where
  -- The values of a reference, as the cluster has them.
  abbrev pub HasCredentials : Option CredentialsSecretRef → String × String → Type 0
  HasCredentials none (username, password) = (username ≡ "") × (password ≡ "")
  HasCredentials (some ref) (username, password) =
      (resolve_secret_value get_secret namespace ref.name (key_or "username" ref.username_key)
        ≡ ok username)
      × (resolve_secret_value get_secret namespace ref.name (key_or "password" ref.password_key)
          ≡ ok password)

  abbrev pub HasKey : String → Option SecretKeySelector → String → Type 0
  HasKey fallback none value = value ≡ ""
  HasKey fallback (some ref) value =
      resolve_secret_value get_secret namespace ref.name (key_or fallback ref.key) ≡ ok value

  value-IsResolved :
      (name key : String) (secrets : Dict String String)
      → IsResolved get_secret namespace secrets (name, key)
      → resolve_secret_value get_secret namespace name key
        ≡ ok (value_or_empty (name <> "/" <> key) secrets)
  unfolding value_or_empty
  value-IsResolved name key secrets (v, here, entered) = rw (value_or_empty, entered) here

  credentials-HasCredentials :
      (ref : Option CredentialsSecretRef) (secrets : Dict String String)
      → All (IsResolved get_secret namespace secrets) (credential_requests ref)
      → HasCredentials ref (resolve_credentials_ref ref secrets)
  unfolding resolve_credentials_ref
  credentials-HasCredentials none secrets h = (refl, refl)
  credentials-HasCredentials (some ref) secrets (h, (k, _)) = (
    value-IsResolved ref.name (key_or "username" ref.username_key) secrets h
        ∙ ap (λ (x : String). ok (value_or_empty x secrets))
            (sym (append_assoc ref.name "/" (key_or "username" ref.username_key))),
    value-IsResolved ref.name (key_or "password" ref.password_key) secrets k
        ∙ ap (λ (x : String). ok (value_or_empty x secrets))
            (sym (append_assoc ref.name "/" (key_or "password" ref.password_key))),
  )

  key-HasKey :
      (fallback : String) (ref : Option SecretKeySelector) (secrets : Dict String String)
      → All (IsResolved get_secret namespace secrets) (key_requests fallback ref)
      → HasKey fallback ref (resolve_key_ref fallback ref secrets)
  unfolding resolve_key_ref
  key-HasKey fallback none secrets h = refl
  key-HasKey fallback (some ref) secrets (h, _) =
      value-IsResolved ref.name (key_or fallback ref.key) secrets h

  module _ (parse_url : ParseUrl) where
    -- A converted client has the credentials that the cluster has for its specification.
    abbrev pub IsAuthorized : Dict String String → DownloadClientSpec → Type 0
    IsAuthorized secrets dc =
        let input = convert_download_client parse_url secrets dc in
        HasCredentials dc.credentials_secret_ref (input.username, input.password)

    All-IsAuthorized :
        (clients : List DownloadClientSpec) (secrets : Dict String String)
        → All (IsResolved get_secret namespace secrets) (
            requests_of
              (λ (dc : DownloadClientSpec). credential_requests dc.credentials_secret_ref)
              clients)
        → All (IsAuthorized secrets) clients
    unfolding convert_download_client
    All-IsAuthorized [] secrets h = tt
    All-IsAuthorized (dc ∷ clients) secrets h =
        let (own, rest) =
          All-split (IsResolved get_secret namespace secrets)
            (credential_requests dc.credentials_secret_ref) _ h in
        (
          credentials-HasCredentials dc.credentials_secret_ref secrets own,
          All-IsAuthorized clients secrets rest,
        )

    -- If `ResolveDownloadClientSecrets` returns no error, then each client that is converted with the map that it
    -- leaves has the name and the password that the cluster has under the reference of its specification, and
    -- none without a reference.
    pub clients-IsAuthorized :
        (clients : List DownloadClientSpec) (r : Dict String String)
        → IsUnambiguous (
            requests_of
              (λ (dc : DownloadClientSpec). credential_requests dc.credentials_secret_ref)
              clients)
        → let (e, secrets) = resolve_download_client_secrets get_secret namespace clients r in
          e ≡ none → All (IsAuthorized secrets) clients
    clients-IsAuthorized clients r u done =
        All-IsAuthorized clients _ ((clients-IsResolved get_secret namespace clients r u).1 done)

  abbrev pub HasApiKey : Dict String String → DirectIndexer → Type 0
  HasApiKey secrets idx =
      HasKey "apiKey" idx.api_key_secret_ref (convert_indexer secrets idx).api_key

  All-HasApiKey :
      (direct : List DirectIndexer) (secrets : Dict String String)
      → All (IsResolved get_secret namespace secrets) (
          requests_of
            (λ (idx : DirectIndexer). key_requests "apiKey" idx.api_key_secret_ref)
            direct)
      → All (HasApiKey secrets) direct
  unfolding convert_indexer
  All-HasApiKey [] secrets h = tt
  All-HasApiKey (idx ∷ direct) secrets h =
      let (own, rest) =
        All-split (IsResolved get_secret namespace secrets)
          (key_requests "apiKey" idx.api_key_secret_ref) _ h in
      (key-HasKey "apiKey" idx.api_key_secret_ref secrets own, All-HasApiKey direct secrets rest)

  -- If `ResolveIndexerSecrets` returns no error, then each direct indexer that is converted with the map that it
  -- leaves has the API key that the cluster has under the reference of its specification, and none without a
  -- reference.
  pub indexers-HasApiKey :
      (indexers : IndexersSpec) (r : Dict String String)
      → IsUnambiguous (
          requests_of
            (λ (idx : DirectIndexer). key_requests "apiKey" idx.api_key_secret_ref)
            indexers.direct)
      → let (e, secrets) = resolve_indexer_secrets get_secret namespace (some indexers) r in
        e ≡ none → All (HasApiKey secrets) indexers.direct
  indexers-HasApiKey indexers r u done =
      All-HasApiKey indexers.direct _
        ((indexers-IsResolved get_secret namespace indexers r u).1 done)

or_else-none : (o : Option String) → or_else (λ (s : String). s) o none ≡ o
or_else-none none = refl
or_else-none (some s) = refl

-- Whatever the order in which Go visits the maps, a converted import list and a converted notification have
-- under each key the value that the map of resolved secrets has under the name of the secret that they refer to
-- and the key, if it has one, and else that of the specification. Whether the map has the values of that secret
-- is up to the caller, and the controllers enter those of import lists only.
pub settings_merged :
    (order : RangeOrder (String × String)) (secrets : Dict String String) (list : ImportListSpec)
    (n : NotificationSpec) (k : String)
    → NodupKeys secrets
    → NodupKeys list.settings
    → NodupKeys n.settings
    → let secret_value : Option SecretKeySelector → Option String =
        λ ref. elim ref [ none ↦ none | some s ↦ lookup (s.name <> "/" <> k) secrets ] in
      (lookup k (convert_import_list order secrets list).settings
        ≡ or_else
            (λ (s : String). s)
            (secret_value list.settings_secret_ref)
            (lookup k list.settings))
      × (lookup k (convert_notification order secrets n).fields
          ≡ or_else Any.text
              (secret_value n.settings_secret_ref)
              (or_else Any.text (lookup k n.settings) none))
unfolding convert_import_list convert_notification
settings_merged order secrets list n k u v w = (
  lookup-settings_of (λ (s : String). s) order k list.settings list.settings_secret_ref secrets v u
      ∙ ap
          (or_else (λ (s : String). s)
            (elim list.settings_secret_ref [
              | none ↦ none
              | some s ↦ lookup (s.name <> "/" <> k) secrets
            ]))
          (or_else-none (lookup k list.settings)),
  lookup-settings_of Any.text order k n.settings n.settings_secret_ref secrets w u,
)
