-- ===== src/Controller/Generic/Registration.antt =====
-- internal/controller/reconciler.go: the registration of a service with the Prowlarr that its resource refers
-- to, and its removal.
use nebularr_operator.Common.{
  String, ◌<>◌, Bool, ◌==◌, string_eq, if◌then◌else◌, Option, none, some, [], Result, ok, err,
}
use nebularr_operator.Api.{ProwlarrRef}
use nebularr_operator.Prowlarr.{
  AppRegistration, ProwlarrConnection, register_app, unregister_app, sync_level_full_sync,
}
use nebularr_operator.Controller.Secrets.{resolve_connection_secrets}
use nebularr_operator.Controller.Generic.{GenericArrReconciler, api_key_of}

pub record ProwlarrAutoRegistration : Type 0 where
  pub prowlarr_ref : Option ProwlarrRef
  pub app_type : String
  pub app_name : String
  pub app_url : String
  pub app_api_key : String

-- `appReg`
unfoldable pub app_registration_of : ProwlarrAutoRegistration → AppRegistration
app_registration_of reg = record {
  name = reg.app_name;
  type = reg.app_type;
  url = reg.app_url;
  api_key = reg.app_api_key;
  prowlarr_url = "";
  sync_level = sync_level_full_sync;
  sync_categories = [];
  tags = [];
}

-- True unless it is said otherwise.
abbrev pub auto_register_of : ProwlarrRef → Bool
auto_register_of ref = elim ref.auto_register [ none ↦ Bool.true | some enabled ↦ enabled ]

module _ {S : Type 0} (r : GenericArrReconciler S) where
  -- The connection to the Prowlarr of a name.
  unfoldable pub find_prowlarr : String → String → S → Result ProwlarrConnection
  unfolding resolve_connection_secrets
  find_prowlarr namespace name s = elim (r.get_prowlarr_config namespace name s) [
    | err e ↦ err ("failed to get ProwlarrConfig " <> name <> ": " <> e)
    | ok conn ↦ elim (resolve_connection_secrets r.get_secret namespace conn) [
      | err e ↦ err ("failed to resolve Prowlarr secrets: " <> e)
      | ok secrets ↦ ok (record { url = conn.url; api_key = api_key_of secrets })
    ]
  ]

  unfoldable pub handle_prowlarr_registration :
      String → ProwlarrAutoRegistration → S → Option String × S
  unfolding find_prowlarr app_registration_of register_app
  handle_prowlarr_registration namespace reg s = elim reg.prowlarr_ref [
    | none ↦ (none, s)
    | some ref ↦
        let registered : Option String × S = elim (find_prowlarr namespace ref.name s) [
          | err e ↦ (some e, s)
          | ok conn ↦
              let (e, s') = register_app r.prowlarr conn (app_registration_of reg) s in
              (
                (elim e [
                  | none ↦ none
                  | some m ↦ some ("failed to register with Prowlarr: " <> m)
                ]),
                s',
              )
        ] in
        if auto_register_of ref then registered else (none, s)
  ]

  -- No error is passed on: it would block the deletion.
  unfoldable pub handle_prowlarr_unregistration : String → String → String → S → Option String × S
  unfolding find_prowlarr unregister_app
  handle_prowlarr_unregistration namespace prowlarr_ref_name app_name s =
      let unregistered : Option String × S = elim (find_prowlarr namespace prowlarr_ref_name s) [
        | err e ↦ (none, s)
        | ok conn ↦ let (e, s') = unregister_app r.prowlarr conn app_name s in (none, s')
      ] in
      if prowlarr_ref_name == "" then (none, s) else unregistered
