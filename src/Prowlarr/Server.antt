-- ===== src/Prowlarr/Server.antt =====
-- What Prowlarr does with the calls of a registration, and what a registration is for.
use nebularr_operator.Common.{
  ℕ, suc, String, true, ◌≡◌, ◌≢◌, ◌↔◌, string_eq, int_eq, ℤ, pos, none, some, List, [], ◌∷◌, ◌++◌,
  ok, All,
}
use nebularr_operator.Prowlarr.{
  AppRegistration, ProwlarrConnection, ApplicationResource, ProwlarrApi, applications_path,
  application_path, build_application_resource, is_positive,
}
use nebularr_operator.Prowlarr.Named.{named, replace, without}

-- Prowlarr's API, as documented, for the calls that succeed: a GET answers with the applications, a POST
-- adds one under an id of its own, a PUT replaces the one of an id, and a DELETE removes it.
pub record IsServer {S : Type 0} (api : ProwlarrApi S) (conn : ProwlarrConnection)
    (apps : S → List ApplicationResource) : Type 0 where
  pub answers :
      (s : S) (l : List ApplicationResource)
      → (api.get conn applications_path s).0 ≡ ok l
      → l ≡ apps s
  pub reads : (s : S) → apps (api.get conn applications_path s).1 ≡ apps s
  pub creates :
      (a : ApplicationResource) (s : S)
      → (api.post conn applications_path a s).0 ≡ none
      → (n : ℕ) × (apps (api.post conn applications_path a s).1
          ≡ apps s ++ record a { id = pos (suc n) } ∷ [])
  pub updates :
      (a : ApplicationResource) (s : S)
      → (api.put conn (application_path a.id) a s).0 ≡ none
      → apps (api.put conn (application_path a.id) a s).1 ≡ replace a (apps s)
  pub removes :
      (s : S)
      → All
          (λ (a : ApplicationResource).
            (api.delete conn (application_path a.id) s).0 ≡ none
            → apps (api.delete conn (application_path a.id) s).1 ≡ without a.id (apps s))
          (apps s)

-- Ids are positive, and two applications have one id exactly if they have one name.
pub record IsDistinct (apps : List ApplicationResource) : Type 0 where
  pub positive : All (λ (a : ApplicationResource). is_positive a.id ≡ true) apps
  pub same :
      All
        (λ (a : ApplicationResource).
          All (λ (b : ApplicationResource). (b.id ≡ a.id) ↔ (b.name ≡ a.name)) apps)
        apps

-- Prowlarr has the application of a registration, under some id, and the others are as before.
abbrev pub IsRegistered :
    {S : Type 0}
    → ProwlarrConnection
    → (S → List ApplicationResource)
    → AppRegistration
    → S
    → S
    → Type 0
IsRegistered conn apps app s s' =
    ((id : ℤ) × (named app.name (apps s')
        ≡ some (record (build_application_resource app conn.url) { id = id })))
    × ((m : String) → m ≢ app.name → named m (apps s') ≡ named m (apps s))

-- Prowlarr has no application of a name, and the others are as before.
abbrev pub IsAbsent : {S : Type 0} → (S → List ApplicationResource) → String → S → S → Type 0
IsAbsent apps name s s' =
    (named name (apps s') ≡ none) × ((m : String) → m ≢ name → named m (apps s') ≡ named m (apps s))
