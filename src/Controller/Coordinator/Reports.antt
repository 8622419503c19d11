-- ===== src/Controller/Coordinator/Reports.antt =====
-- What the status of an object says of its registration.
use mathlib.Core.Bool.{false≢true}
use mathlib.Core.Option.{some-ne-none, some_inj, none-ne-some}
use nebularr_operator.Common.{
  arith, String, string_eq, ◌==◌, Bool, true, false, Bool-cases, Option-cases, ◌≡◌, ◌≢◌, refl, sym,
  ap, ◌∙◌, inl, inr, contains, Option, none, some, List,
}
use nebularr_operator.Api.{ProwlarrRef, ProwlarrRegistration}
use nebularr_operator.Api.Kinds.{ProwlarrConfig}
use nebularr_operator.Prowlarr.{ProwlarrConnection, ApplicationResource, register_app}
use nebularr_operator.Prowlarr.Server.{IsServer, IsDistinct}
use nebularr_operator.Prowlarr.Laws.{register-IsRegistered}
use nebularr_operator.Controller.Generic.Registration.{auto_register_of}
use nebularr_operator.Controller.Coordinator.{
  AppConfig, Coordinator, push_key, push_model_apps, pull_registration, resolve_app_key,
  reference_of, clear_registration, unregistered,
}
use nebularr_operator.Controller.Coordinator.Process.{
  Processed, register_with_key, process_reference, process_app_config,
}
use nebularr_operator.Controller.Coordinator.Laws.{wants, IsServed}

module _ {S : Type 0} (r : Coordinator S) (config : ProwlarrConfig) (conn : ProwlarrConnection)
    (apps : S → List ApplicationResource) where
  -- A registration that says that the object is registered with this Prowlarr.
  abbrev pub Claims : Option ProwlarrRegistration → Type 0
  Claims registration =
      (rg : ProwlarrRegistration) × (registration ≡ some rg)
      × (rg.registered ≡ true)
      × (rg.prowlarr_name ≡ config.name)

  -- What a status says after the work on an object, whose Boolean is whether it is to be registered.
  abbrev pub IsReported : Bool → String → AppConfig → S → Processed S → Type 0
  IsReported wanted kind app s (e, registration, s') =
      (e ≢ none → (rg : ProwlarrRegistration) × (registration ≡ some rg) × (rg.registered ≡ false))
      × (wanted ≡ true
          → (e ≡ none → Claims registration)
            × (Claims registration → IsServed r config conn apps kind app s'))
      × (wanted ≡ false → s' ≡ s)

  unclaimed : (rg : ProwlarrRegistration) → rg.registered ≡ false → ¬ Claims (some rg)
  unclaimed rg e (other, same, set, _) =
      false≢true (sym e ∙ (ap (λ (x : ProwlarrRegistration). x.registered) (some_inj.0 same) ∙ set))

  other-ne : (s t : String) → (s == t) ≡ false → s ≢ t
  other-ne s t e = ground (arith, e)

  clear_registration-unclaimed :
      (registration : Option ProwlarrRegistration)
      → ¬ Claims (clear_registration config.name registration)
  unfolding clear_registration
  clear_registration-unclaimed none = λ (rg, same, _, _). none-ne-some rg same
  clear_registration-unclaimed (some old) = elim (Bool-cases old.registered) [
    | inr free ↦ simp (clear_registration, free) (unclaimed old free)
    | inl held ↦ elim (Bool-cases (old.prowlarr_name == config.name)) [
      | inl own ↦ simp (clear_registration, held, own) (unclaimed _ refl)
      | inr other ↦
          simp (clear_registration, held, other)
            (λ (rg, same, set, named_so).
              other-ne old.prowlarr_name config.name other
                (ap (λ (x : ProwlarrRegistration). x.prowlarr_name) (some_inj.0 same) ∙ named_so))
    ]
  ]

  module _ (server : IsServer r.prowlarr conn apps) (distinct : (s : S) → IsDistinct (apps s)) where
    -- An object that is refused before Prowlarr is asked.
    refused :
        (wanted : Bool) (kind : String) (app : AppConfig) (m message : String) (s : S)
        → IsReported wanted kind app s (some m, some (unregistered config.name message), s)
    refused wanted kind app m message s = (
      (λ failed. (_, refl, refl)),
      (λ w. ((λ f. absurd (some-ne-none m f)), λ c. absurd (unclaimed _ refl c))),
      λ w. refl,
    )

    register_with_key-IsReported :
        (kind : String) (app : AppConfig) (s : S)
        → IsReported true kind app s (
            register_with_key r config conn kind app
              (resolve_app_key r.get_secret app.namespace kind app.name)
              s)
    unfolding register_with_key
    register_with_key-IsReported kind app s =
        let key = resolve_app_key r.get_secret app.namespace kind app.name in
        elim (Option-cases
          (register_app r.prowlarr conn (pull_registration config kind app key) s).0) [
            | inl e ↦
                let (served, _) =
                  register-IsRegistered r.prowlarr conn apps server
                    (pull_registration config kind app key) s (distinct s) e in
                rw (register_with_key, e)
                  (
                    (λ failed. absurd (failed refl)),
                    (λ w. ((λ f. (_, refl, refl, refl)), λ c. served)),
                    (λ w. absurd (false≢true (sym w))),
                  )
            | inr (m, e) ↦
                rw (register_with_key, e)
                  (
                    (λ failed. (_, refl, refl)),
                    (λ w. ((λ f. absurd (some-ne-none m f)), λ c. absurd (unclaimed _ refl c))),
                    (λ w. absurd (false≢true (sym w))),
                  )
          ]

    process_reference-IsReported :
        (ref : ProwlarrRef) (kind : String) (app : AppConfig) (s : S)
        → IsReported
            (auto_register_of ref)
            kind
            app
            s
            (process_reference r config conn ref kind app s)
    unfolding process_reference
    process_reference-IsReported ref kind app s =
        elim (Bool-cases (contains (push_model_apps config) (push_key kind app.name))) [
          | inl pushed ↦
              rw (process_reference, pushed) (refused (auto_register_of ref) kind app _ _ s)
          | inr free ↦ elim (Bool-cases (auto_register_of ref)) [
            | inr manual ↦
                rw (process_reference, free, manual)
                  ((λ failed. absurd (failed refl)), (λ w. absurd (false≢true w)), λ w. refl)
            | inl auto ↦
                elim (Bool-cases (resolve_app_key r.get_secret app.namespace kind app.name == "")) [
                  | inl missing ↦
                      rw (process_reference, free, auto, missing) (refused true kind app _ _ s)
                  | inr present ↦
                      rw (process_reference, free, auto, present)
                        (register_with_key-IsReported kind app s)
                ]
          ]
        ]

    -- The work on an object that refers to another Prowlarr.
    process_app_config-other :
        (kind : String) (app : AppConfig) (s : S) (ref : ProwlarrRef)
        → reference_of app ≡ some ref
        → ref.name ≢ config.name
        → process_app_config r config conn kind app s ≡ (none, app.registration, s)
    unfolding process_app_config
    process_app_config-other kind app s ref e other =
        let differ : (ref.name == config.name) ≡ false = ground (arith, other) in
        rw (process_app_config, e, differ) refl

    -- What the status of an object says after the work of the coordinator on it. With an error it says that the
    -- object is not registered. If the object is to be registered with this Prowlarr, then without an error the
    -- status says that it is, and if it says so, Prowlarr has the application of the object. If it is not to be
    -- registered, nothing is done in Prowlarr. If it has no reference, the status does not say that it is
    -- registered with this Prowlarr, but an application that was registered before is left where it is. If it
    -- refers to another Prowlarr, the status is left as it is, whatever it says. No two applications share an id or
    -- a name.
    pub process_app_config-IsReported :
        (kind : String) (app : AppConfig) (s : S)
        → let result = process_app_config r config conn kind app s in
          IsReported (wants config app) kind app s result
          × (reference_of app ≡ none → ¬ Claims result.1)
          × ((ref : ProwlarrRef)
              → reference_of app ≡ some ref
              → ref.name ≢ config.name
              → result ≡ (none, app.registration, s))
    unfolding process_app_config
    process_app_config-IsReported kind app s = elim (Option-cases (reference_of app)) [
      | inl e ↦
          rw (process_app_config, e)
            (
              ((λ failed. absurd (failed refl)), (λ w. absurd (false≢true w)), λ w. refl),
              (λ f. clear_registration-unclaimed app.registration),
              λ ref f. absurd (none-ne-some ref f),
            )
      | inr (ref, e) ↦ elim (Bool-cases (ref.name == config.name)) [
        | inr other ↦
            rw (process_app_config, e, other)
              (
                ((λ failed. absurd (failed refl)), (λ w. absurd (false≢true w)), λ w. refl),
                (λ f. absurd (some-ne-none ref f)),
                λ ref' f ne. refl,
              )
        | inl own ↦
            let shared = process_app_config-other kind app s in
            (
              rw (process_app_config, e, own) (process_reference-IsReported ref kind app s),
              (λ f. absurd (some-ne-none ref (sym e ∙ f))),
              shared,
            )
      ]
    ]
