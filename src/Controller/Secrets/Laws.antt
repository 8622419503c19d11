-- ===== src/Controller/Secrets/Laws.antt =====
-- What the resolution of the secrets of download clients and of direct indexers yields.
use nebularr_operator.Common.{String, ◌≡◌, ◌↔◌, none, some, List, Result, All}
use nebularr_operator.Common.Dict.{Dict}
use nebularr_operator.Api.{DownloadClientSpec, DirectIndexer, IndexersSpec}
use nebularr_operator.Controller.Secrets.{
  resolve_credentials, resolve_key, resolve_download_client_secrets, resolve_indexer_secrets,
}
use nebularr_operator.Controller.Secrets.Requests.{
  credential_requests, key_requests, requests_of, IsUnambiguous, IsFound, IsResolved,
  run-IsResolved, for_each-requests_of, resolve_credentials-for_each, resolve_key-for_each,
}

module _ (get_secret : String → String → Result (Dict String String)) (namespace : String) where
  -- `ResolveDownloadClientSecrets` returns no error exactly if each secret that the clients refer to has
  -- the key for the name and the key for the password, and then the map has the values of all of them,
  -- whatever it had before.
  pub clients-IsResolved :
      (clients : List DownloadClientSpec) (r : Dict String String)
      → let requests =
          requests_of
            (λ (dc : DownloadClientSpec). credential_requests dc.credentials_secret_ref)
            clients in
        IsUnambiguous requests
        → let (e, r') = resolve_download_client_secrets get_secret namespace clients r in
          ((e ≡ none) ↔ All (IsFound get_secret namespace) requests)
          × (e ≡ none → All (IsResolved get_secret namespace r') requests)
  unfolding resolve_download_client_secrets
  clients-IsResolved clients r u =
      let problem : String = "failed to resolve download client credentials" in
      rw
        (for_each-requests_of get_secret namespace
          (λ (dc : DownloadClientSpec).
            resolve_credentials get_secret namespace problem dc.credentials_secret_ref)
          (λ (dc : DownloadClientSpec). credential_requests dc.credentials_secret_ref) problem
          (λ dc r.
            resolve_credentials-for_each get_secret namespace problem dc.credentials_secret_ref r)
          clients r)
        (run-IsResolved get_secret namespace problem
          (requests_of (λ (dc : DownloadClientSpec). credential_requests dc.credentials_secret_ref)
            clients)
          r u)

  -- `ResolveIndexerSecrets` returns no error exactly if each secret that the direct indexers refer to has
  -- its key, and then the map has the values of all of them, whatever it had before.
  pub indexers-IsResolved :
      (indexers : IndexersSpec) (r : Dict String String)
      → let requests =
          requests_of
            (λ (idx : DirectIndexer). key_requests "apiKey" idx.api_key_secret_ref)
            indexers.direct in
        IsUnambiguous requests
        → let (e, r') = resolve_indexer_secrets get_secret namespace (some indexers) r in
          ((e ≡ none) ↔ All (IsFound get_secret namespace) requests)
          × (e ≡ none → All (IsResolved get_secret namespace r') requests)
  unfolding resolve_indexer_secrets
  indexers-IsResolved indexers r u =
      let problem : String = "failed to resolve indexer API key" in
      rw
        (for_each-requests_of get_secret namespace
          (λ (idx : DirectIndexer).
            resolve_key get_secret namespace problem "apiKey" idx.api_key_secret_ref)
          (λ (idx : DirectIndexer). key_requests "apiKey" idx.api_key_secret_ref) problem
          (λ idx r.
            resolve_key-for_each get_secret namespace problem "apiKey" idx.api_key_secret_ref r)
          indexers.direct r)
        (run-IsResolved get_secret namespace problem
          (requests_of (λ (idx : DirectIndexer). key_requests "apiKey" idx.api_key_secret_ref)
            indexers.direct)
          r u)
