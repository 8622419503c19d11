-- ===== src/Prowlarr.antt =====
-- internal/prowlarr/registration.go: the registration of a service with Prowlarr. The HTTP helpers are an
-- interface, which Prowlarr/Http fills.
pub mod Http
pub mod Named
pub mod Server
pub mod Laws
use nebularr_operator.Common.{
  zero, suc, String, ◌<>◌, Bool, true, false, ◌==◌, string_eq, int_eq, if◌then◌else◌, ℤ, pos,
  negsuc, Option, none, some, List, [], ◌∷◌, ◌++◌, Result, ok, err, decimal_int,
}
use nebularr_operator.Common.Dict.{Dict, lookup}
use nebularr_operator.Changes.{is_nil}
use nebularr_operator.Ir.{Any, Anys, of_int}

abbrev pub sync_level_full_sync : String
sync_level_full_sync = "fullSync"

abbrev pub default_sync_categories : Dict String (List ℤ)
default_sync_categories =
    (
      "radarr",
      pos 2000 ∷ pos 2010 ∷ pos 2020 ∷ pos 2030 ∷ pos 2040 ∷ pos 2045 ∷ pos 2050 ∷ pos 2060 ∷ [],
    )
    ∷ ("sonarr", pos 5000 ∷ pos 5010 ∷ pos 5020 ∷ pos 5030 ∷ pos 5040 ∷ pos 5045 ∷ pos 5050 ∷ [])
    ∷ ("lidarr", pos 3000 ∷ pos 3010 ∷ pos 3020 ∷ pos 3030 ∷ pos 3040 ∷ [])
    ∷ ("readarr", pos 7000 ∷ pos 7010 ∷ pos 7020 ∷ pos 7030 ∷ pos 8000 ∷ pos 8010 ∷ [])
    ∷ []

pub record AppRegistration : Type 0 where
  pub name : String
  pub type : String
  pub url : String
  pub api_key : String
  pub prowlarr_url : String
  pub sync_level : String
  pub sync_categories : List ℤ
  pub tags : List String

pub record ProwlarrConnection : Type 0 where
  pub url : String
  pub api_key : String

pub record ApplicationField : Type 0 where
  pub name : String
  pub value : Any

pub record ApplicationResource : Type 0 where
  pub id : ℤ
  pub name : String
  pub implementation : String
  pub config_contract : String
  pub sync_level : String
  pub tags : List ℤ
  pub fields : List ApplicationField

unfoldable pub get_implementation_for_type : String → String × String
get_implementation_for_type app_type =
    if app_type == "radarr"
    then ("Radarr", "RadarrSettings")
    else if app_type == "sonarr"
    then ("Sonarr", "SonarrSettings")
    else if app_type == "lidarr"
    then ("Lidarr", "LidarrSettings")
    else if app_type == "readarr"
    then ("Readarr", "ReadarrSettings")
    else (app_type, "")

-- A list of integers behind an `interface{}`.
unfoldable pub ints : List ℤ → Anys
ints [] = Anys.nil
ints (i ∷ is) = Anys.cons (Any.number (of_int i)) (ints is)

-- The given categories, or those that the type of the app has by default.
unfoldable pub sync_categories_of : AppRegistration → List ℤ
sync_categories_of app =
    if is_nil app.sync_categories
    then (elim (lookup app.type default_sync_categories) [ none ↦ [] | some defaults ↦ defaults ])
    else app.sync_categories

abbrev field : String → Any → ApplicationField
field name value = record { name = name; value = value }

unfoldable pub build_application_resource : AppRegistration → String → ApplicationResource
unfolding get_implementation_for_type sync_categories_of ints
build_application_resource app prowlarr_url =
    let (impl, contract) = get_implementation_for_type app.type in
    let categories = sync_categories_of app in
    record {
      id = pos 0;
      name = app.name;
      implementation = impl;
      config_contract = contract;
      sync_level = if app.sync_level == "" then sync_level_full_sync else app.sync_level;
      tags = [];
      fields =
          field "baseUrl" (Any.text app.url)
          ∷ field "apiKey" (Any.text app.api_key)
          ∷ field "prowlarrUrl"
              (Any.text (if app.prowlarr_url == "" then prowlarr_url else app.prowlarr_url))
          ∷ (if is_nil categories
              then []
              else field "syncCategories" (Any.array (ints categories)) ∷ []);
    }

-- The HTTP helpers, as the operations use them.
pub record ProwlarrApi (S : Type 0) : Type 0 where
  pub get : ProwlarrConnection → String → S → Result (List ApplicationResource) × S
  pub post : ProwlarrConnection → String → ApplicationResource → S → Option String × S
  pub put : ProwlarrConnection → String → ApplicationResource → S → Option String × S
  pub delete : ProwlarrConnection → String → S → Option String × S

abbrev pub applications_path : String
applications_path = "/api/v1/applications"

unfoldable pub application_path : ℤ → String
unfolding decimal_int
application_path id = applications_path <> "/" <> decimal_int id

-- The loop over the applications; 0 if none has the name.
unfoldable pub find_id : String → List ApplicationResource → ℤ
find_id name [] = pos 0
find_id name (app ∷ apps) =
    let rest = find_id name apps in if app.name == name then app.id else rest

-- `id > 0`
unfoldable pub is_positive : ℤ → Bool
is_positive (pos zero) = false
is_positive (pos (suc n)) = true
is_positive (negsuc n) = false

module _ {S : Type 0} (api : ProwlarrApi S) (prowlarr : ProwlarrConnection) where
  unfoldable pub find_application_by_name : String → S → Result ℤ × S
  unfolding find_id
  find_application_by_name name s =
      let (r, s') = api.get prowlarr applications_path s in
      (elim r [ err e ↦ err e | ok apps ↦ ok (find_id name apps) ], s')

  -- What is done with the id that was found.
  unfoldable pub register_as : AppRegistration → Result ℤ → S → Option String × S
  unfolding build_application_resource application_path is_positive
  register_as app (err e) s = (some ("failed to check for existing application: " <> e), s)
  register_as app (ok existing_id) s =
      let resource = build_application_resource app prowlarr.url in
      let updated =
        api.put prowlarr (application_path existing_id) (record resource { id = existing_id }) s in
      let created = api.post prowlarr applications_path resource s in
      if is_positive existing_id then updated else created

  unfoldable pub register_app : AppRegistration → S → Option String × S
  unfolding find_application_by_name register_as
  register_app app s =
      let (found, s') = find_application_by_name app.name s in register_as app found s'

  unfoldable pub unregister_from : Result ℤ → S → Option String × S
  unfolding application_path
  unregister_from (err e) s = (some ("failed to find application: " <> e), s)
  unregister_from (ok id) s =
      let deleted = api.delete prowlarr (application_path id) s in
      if id == pos 0 then (none, s) else deleted

  unfoldable pub unregister_app : String → S → Option String × S
  unfolding find_application_by_name unregister_from
  unregister_app app_name s =
      let (found, s') = find_application_by_name app_name s in unregister_from found s'
