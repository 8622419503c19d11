-- ===== src/Controller/Coordinator/Laws.antt =====
-- What a coordination without errors has done.
use mathlib.Core.Bool.{false≢true}
use mathlib.Core.List.{cons≢nil}
use mathlib.Core.Option.{some-ne-none}
use nebularr_operator.Common.{
  String, string_eq, ◌==◌, ◌&&◌, Bool, true, false, Bool-cases, Option-cases, ◌≡◌, ◌≢◌, refl, sym,
  ap, ◌∙◌, inl, inr, ℤ, contains, Option, none, some, List, [], ◌∷◌, All,
}
use nebularr_operator.Api.{ProwlarrRef}
use nebularr_operator.Api.Kinds.{ProwlarrConfig}
use nebularr_operator.Prowlarr.{
  ProwlarrConnection, ApplicationResource, register_app, build_application_resource,
}
use nebularr_operator.Prowlarr.Named.{named}
use nebularr_operator.Prowlarr.Server.{IsServer, IsDistinct, IsRegistered}
use nebularr_operator.Prowlarr.Laws.{register-IsRegistered}
use nebularr_operator.Controller.Generic.Registration.{auto_register_of}
use nebularr_operator.Controller.Coordinator.{
  AppConfig, Coordinator, push_key, push_model_apps, pull_name, pull_registration, resolve_app_key,
  reference_of,
}
use nebularr_operator.Controller.Coordinator.Process.{
  register_with_key, process_reference, process_app_config, process_apps,
}
use nebularr_operator.Controller.Coordinator.Names.{IsKind, pull_name_inj}

not_none : {m : String} → some m ≢ none
not_none {m} e = some-ne-none m e

-- An object that is to be registered with this Prowlarr.
abbrev pub wants_by : ProwlarrConfig → Option ProwlarrRef → Bool
wants_by config none = false
wants_by config (some ref) = (ref.name == config.name) && auto_register_of ref

abbrev pub wants : ProwlarrConfig → AppConfig → Bool
wants config app = wants_by config (reference_of app)

-- The objects of a kind in a namespace have names of their own.
abbrev pub IsUnique : List AppConfig → Type 0
IsUnique [] = Unit
IsUnique (app ∷ l) = All (λ (other : AppConfig). other.name ≢ app.name) l × IsUnique l

All-names :
    (kind name : String) (l : List AppConfig)
    → IsKind kind
    → All (λ (other : AppConfig). other.name ≢ name) l
    → All (λ (other : AppConfig). pull_name kind name ≢ pull_name kind other.name) l
All-names kind name [] dashless fresh = tt
All-names kind name (other ∷ l) dashless (ne, fresh) = (
  λ e. ne (sym (pull_name_inj kind kind name other.name dashless dashless e).1),
  All-names kind name l dashless fresh,
)

module _ {S : Type 0} (r : Coordinator S) (config : ProwlarrConfig) (conn : ProwlarrConnection)
    (apps : S → List ApplicationResource) where
  -- Prowlarr has the application of an object, with its URL and its key.
  abbrev pub IsServed : String → AppConfig → S → Type 0
  IsServed kind app s =
      let key = resolve_app_key r.get_secret app.namespace kind app.name in
      (id : ℤ) × (named (pull_name kind app.name) (apps s)
        ≡ some
            (record (build_application_resource (pull_registration config kind app key) conn.url) {
              id = id;
            }))

  abbrev Keeps : String → S → S → Type 0
  Keeps name s s' = (m : String) → m ≢ name → named m (apps s') ≡ named m (apps s)

  IsServed-keep :
      (kind : String) (app : AppConfig) (s s' : S)
      → named (pull_name kind app.name) (apps s') ≡ named (pull_name kind app.name) (apps s)
      → IsServed kind app s
      → IsServed kind app s'
  IsServed-keep kind app s s' e (id, h) = (id, e ∙ h)

  abbrev pub AllServed : String → List AppConfig → S → Type 0
  AllServed kind l s' = All (λ (app : AppConfig). wants config app ≡ true → IsServed kind app s') l

  pub AllServed-keep :
      (kind : String) (l : List AppConfig) (s s' : S)
      → All
          (λ (app : AppConfig).
            named (pull_name kind app.name) (apps s') ≡ named (pull_name kind app.name) (apps s))
          l
      → AllServed kind l s
      → AllServed kind l s'
  AllServed-keep kind [] s s' same h = tt
  AllServed-keep kind (app ∷ l) s s' (own, same) (h, hs) =
      ((λ w. IsServed-keep kind app s s' own (h w)), AllServed-keep kind l s s' same hs)

  module _ (server : IsServer r.prowlarr conn apps) (distinct : (s : S) → IsDistinct (apps s)) where
    register_with_key-IsRegistered :
        (kind : String) (app : AppConfig) (key : String) (s : S)
        → let (e, _, s') = register_with_key r config conn kind app key s in
          e ≡ none → IsRegistered conn apps (pull_registration config kind app key) s s'
    unfolding register_with_key
    register_with_key-IsRegistered kind app key s =
        elim (Option-cases
          (register_app r.prowlarr conn (pull_registration config kind app key) s).0) [
            | inl e ↦
                rw (register_with_key, e)
                  (λ done.
                    register-IsRegistered r.prowlarr conn apps server
                      (pull_registration config kind app key) s (distinct s) e)
            | inr (m, e) ↦ rw (register_with_key, e) (λ done. absurd (not_none done))
          ]

    -- What is left by the work on one object without an error.
    abbrev IsDone : Bool → String → AppConfig → S → S → Type 0
    IsDone wanted kind app s s' =
        (wanted ≡ true → IsServed kind app s') × Keeps (pull_name kind app.name) s s'

    process_reference-IsDone :
        (ref : ProwlarrRef) (kind : String) (app : AppConfig) (s : S)
        → let (e, _, s') = process_reference r config conn ref kind app s in
          e ≡ none → IsDone (auto_register_of ref) kind app s s'
    unfolding process_reference
    process_reference-IsDone ref kind app s =
        elim (Bool-cases (contains (push_model_apps config) (push_key kind app.name))) [
          | inl pushed ↦ rw (process_reference, pushed) (λ done. absurd (not_none done))
          | inr free ↦ elim (Bool-cases (auto_register_of ref)) [
            | inr manual ↦
                rw (process_reference, free, manual)
                  (λ done. ((λ e. absurd (false≢true e)), λ m ne. refl))
            | inl auto ↦
                elim (Bool-cases (resolve_app_key r.get_secret app.namespace kind app.name == "")) [
                  | inl missing ↦
                      rw (process_reference, free, auto, missing) (λ done. absurd (not_none done))
                  | inr present ↦
                      rw (process_reference, free, auto, present)
                        (λ done.
                          let (served, others) = register_with_key-IsRegistered kind app _ s done in
                          ((λ e. served), others))
                ]
          ]
        ]

    process_app_config-IsDone :
        (kind : String) (app : AppConfig) (s : S)
        → let (e, _, s') = process_app_config r config conn kind app s in
          e ≡ none → IsDone (wants config app) kind app s s'
    unfolding process_app_config
    process_app_config-IsDone kind app s = elim (Option-cases (reference_of app)) [
      | inl e ↦ rw (process_app_config, e) (λ done. ((λ f. absurd (false≢true f)), λ m ne. refl))
      | inr (ref, e) ↦ elim (Bool-cases (ref.name == config.name)) [
        | inr other ↦
            rw (process_app_config, e, other) (λ done. ((λ f. absurd (false≢true f)), λ m ne. refl))
        | inl own ↦ rw (process_app_config, e, own) (process_reference-IsDone ref kind app s)
      ]
    ]

    -- A write of a status leaves the applications alone.
    module _
        (quiet : (kind : String) (app : AppConfig) (s : S)
          → apps (r.update_status kind app s).1 ≡ apps s) where
      pub process_apps-AllServed :
          (kind : String) (l : List AppConfig) (s : S)
          → IsKind kind
          → IsUnique l
          → let (errs, s') = process_apps r config conn kind l s in
            errs ≡ []
            → AllServed kind l s'
              × ((m : String)
                  → All (λ (app : AppConfig). m ≢ pull_name kind app.name) l
                  → named m (apps s') ≡ named m (apps s))
      unfolding process_apps
      process_apps-AllServed kind [] s dashless u = λ done. (tt, λ m ne. refl)
      process_apps-AllServed kind (app ∷ l) s dashless (fresh, u) =
          let step = process_app_config r config conn kind app s in
          let s₂ = (r.update_status kind (record app { registration = step.1 }) step.2).1 in
          elim (Option-cases step.0) [
            | inr (m, e) ↦ rw (process_apps, e) (λ done. absurd (cons≢nil done))
            | inl e ↦
                rw (process_apps, e)
                  (λ done.
                    let (own, others) = process_app_config-IsDone kind app s e in
                    let (served, kept) = process_apps-AllServed kind l s₂ dashless u done in
                    let written : (m : String) → named m (apps s₂) ≡ named m (apps step.2) =
                      λ m. ap (named m) (quiet kind _ step.2) in
                    let name = pull_name kind app.name in
                    let after_it =
                      kept name (All-names kind app.name l dashless fresh) ∙ written name in
                    (
                      ((λ w. IsServed-keep kind app step.2 _ after_it (own w)), served),
                      λ m ne. kept m ne.1 ∙ (written m ∙ others m ne.0),
                    ))
          ]
