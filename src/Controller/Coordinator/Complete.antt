-- ===== src/Controller/Coordinator/Complete.antt =====
-- A coordination without errors has registered every object of every kind that asks for it.
use mathlib.Core.Bool.{false≢true}
use mathlib.Core.List.{cons≢nil}
use mathlib.Core.Option.{some-ne-none}
use mathlib.Core.Path.{subst}
use nebularr_operator.Common.{
  err-ne-ok, ok_inj, arith, ◌==◌, String, string_eq, true, false, Bool-cases, Result-cases, ◌≡◌,
  ◌≢◌, refl, sym, ◌∙◌, inl, inr, none, List, [], ◌∷◌, ◌++◌, ok, err, All,
}
use nebularr_operator.Common.Dict.{Dict}
use nebularr_operator.Changes.{is_nil}
use nebularr_operator.Api.Kinds.{ProwlarrConfig}
use nebularr_operator.Prowlarr.{ProwlarrConnection, ApplicationResource}
use nebularr_operator.Prowlarr.Named.{named}
use nebularr_operator.Prowlarr.Server.{IsServer, IsDistinct}
use nebularr_operator.Controller.Secrets.{resolve_connection_secrets}
use nebularr_operator.Controller.Generic.{api_key_of}
use nebularr_operator.Controller.Coordinator.{AppConfig, Coordinator, pull_name}
use nebularr_operator.Controller.Coordinator.Process.{
  app_kinds, process_apps, process_kinds, coordinate,
}
use nebularr_operator.Controller.Coordinator.Names.{IsKind, app_kinds-IsKind, pull_name_inj}
use nebularr_operator.Controller.Coordinator.Laws.{
  IsUnique, AllServed, AllServed-keep, process_apps-AllServed,
}

All-each {ℓ κ} : {A : Type ℓ} (P : A → Type κ) (l : List A) → ((a : A) → P a) → All P l
All-each P [] h = tt
All-each P (a ∷ l) h = (h a, All-each P l h)

append-nil_left {ℓ} : {A : Type ℓ} (xs ys : List A) → xs ++ ys ≡ [] → (xs ≡ []) × (ys ≡ [])
append-nil_left [] ys e = (refl, e)
append-nil_left (x ∷ xs) ys e = absurd (cons≢nil e)

-- Kinds that differ, and a name that is none of an application of a kind.
abbrev pub IsApart : List String → Type 0
IsApart [] = Unit
IsApart (kind ∷ kinds) = All (λ (other : String). other ≢ kind) kinds × IsApart kinds

abbrev IsUnlisted : List String → String → Type 0
IsUnlisted kinds m = All (λ (kind : String). (name : String) → m ≢ pull_name kind name) kinds

pull_name-IsUnlisted :
    (kind name : String) (kinds : List String)
    → IsKind kind
    → All IsKind kinds
    → All (λ (other : String). other ≢ kind) kinds
    → IsUnlisted kinds (pull_name kind name)
pull_name-IsUnlisted kind name [] dashless all_dashless new = tt
pull_name-IsUnlisted kind name (other ∷ kinds) dashless (d, ds) (ne, new) = (
  λ a e. ne (sym (pull_name_inj kind other name a dashless d e).0),
  pull_name-IsUnlisted kind name kinds dashless ds new,
)

module _ {S : Type 0} (r : Coordinator S) (config : ProwlarrConfig) (conn : ProwlarrConnection)
    (apps : S → List ApplicationResource) (namespace : String) where
  -- What was listed of a kind is served in the end.
  abbrev pub IsCoordinated : S → String → Type 0
  IsCoordinated s' kind =
      (s₀ : S) × ((l : List AppConfig)
        → r.list kind namespace s₀ ≡ ok l
        → AllServed r config conn apps kind l s')

  module _ (server : IsServer r.prowlarr conn apps) (distinct : (s : S) → IsDistinct (apps s))
      (quiet : (kind : String) (app : AppConfig) (s : S)
        → apps (r.update_status kind app s).1 ≡ apps s)
      (unique : (kind : String) (s : S) (l : List AppConfig)
        → r.list kind namespace s ≡ ok l
        → IsUnique l) where
    abbrev IsComplete : List String → S → List String × S → Type 0
    IsComplete kinds s (errs, s') =
        errs ≡ []
        → All (IsCoordinated s') kinds
          × ((m : String) → IsUnlisted kinds m → named m (apps s') ≡ named m (apps s))

    process_kinds-err :
        (kind m : String) (kinds : List String) (s : S)
        → r.list kind namespace s ≡ err m
        → process_kinds r config conn namespace (kind ∷ kinds) s
          ≡ process_kinds r config conn namespace kinds s
    unfolding process_kinds
    process_kinds-err kind m kinds s e = rw (process_kinds, e) refl

    process_kinds-ok :
        (kind : String) (kinds : List String) (s : S) (l : List AppConfig)
        → r.list kind namespace s ≡ ok l
        → let (errs, s₁) = process_apps r config conn kind l s in
          let (more, s₂) = process_kinds r config conn namespace kinds s₁ in
          process_kinds r config conn namespace (kind ∷ kinds) s ≡ (errs ++ more, s₂)
    unfolding process_kinds
    process_kinds-ok kind kinds s l e = rw (process_kinds, e) refl

    process_kinds-IsComplete :
        (kinds : List String) (s : S)
        → All IsKind kinds
        → IsApart kinds
        → IsComplete kinds s (process_kinds r config conn namespace kinds s)
    unfolding process_kinds
    process_kinds-IsComplete [] s dashless apart = λ done. (tt, λ m u. refl)
    process_kinds-IsComplete (kind ∷ kinds) s (dashless, all_dashless) (new, apart) =
        elim (Result-cases (r.list kind namespace s)) [
          | inr (m, e) ↦
              subst (IsComplete (kind ∷ kinds) s) (sym (process_kinds-err kind m kinds s e))
                (λ done.
                  let (rest, kept) = process_kinds-IsComplete kinds s all_dashless apart done in
                  (((s, λ l f. absurd (err-ne-ok m l (sym e ∙ f))), rest), λ m u. kept m u.1))
          | inl (l, e) ↦
              let s₁ = (process_apps r config conn kind l s).1 in
              subst (IsComplete (kind ∷ kinds) s) (sym (process_kinds-ok kind kinds s l e)) (λ done.
                let (none_here, none_there) =
                  append-nil_left (process_apps r config conn kind l s).0 _ done in
                let (served, kept) =
                  process_apps-AllServed r config conn apps server distinct quiet kind l s dashless
                    (unique kind s l e) none_here in
                let (rest, held) =
                  process_kinds-IsComplete kinds s₁ all_dashless apart none_there in
                let s₂ = (process_kinds r config conn namespace kinds s₁).1 in
                let lasting =
                  AllServed-keep r config conn apps kind l s₁ s₂
                    (All-each _ l (λ app.
                      held (pull_name kind app.name)
                        (pull_name-IsUnlisted kind app.name kinds dashless all_dashless new)))
                    served in
                (
                  (
                    (
                      s,
                      λ k f.
                          subst (λ x. AllServed r config conn apps kind x s₂)
                            (ok_inj l k (sym e ∙ f)) lasting,
                    ),
                    rest,
                  ),
                  λ m u. held m u.1 ∙ kept m (All-each _ l (λ app. u.0 app.name)),
                ))
        ]

unlike : (s t : String) → (s == t) ≡ false → s ≢ t
unlike s t e = ground (arith, e)

app_kinds-IsApart : IsApart app_kinds
unfolding string_eq
app_kinds-IsApart = (
  (
    unlike "sonarr" "radarr" refl,
    (unlike "lidarr" "radarr" refl, (unlike "readarr" "radarr" refl, tt)),
  ),
  (
    (unlike "lidarr" "sonarr" refl, (unlike "readarr" "sonarr" refl, tt)),
    ((unlike "readarr" "lidarr" refl, tt), (tt, tt)),
  ),
)

is_nil-nil {ℓ} : {A : Type ℓ} (xs : List A) → is_nil xs ≡ true → xs ≡ []
is_nil-nil [] e = refl
is_nil-nil (x ∷ xs) e = absurd (false≢true e)

-- The connection to the Prowlarr of an object.
abbrev pub connection_to : ProwlarrConfig → Dict String String → ProwlarrConnection
connection_to config secrets = record {
  url = config.spec.connection.url;
  api_key = api_key_of secrets;
}

-- If a coordination returns no error, then every object that was listed and asks to be registered with this
-- Prowlarr, by a reference that does not turn the registration off, has an application of its own in Prowlarr in
-- the end, with its URL and the key of its secret. It is assumed that the secrets of the connection are there,
-- that the objects of a kind have names of their own, that a write of a status leaves the applications alone, and
-- that no two applications share an id or a name.
pub coordinate-IsCoordinated :
    {S : Type 0} (r : Coordinator S) (config : ProwlarrConfig) (secrets : Dict String String)
    (apps : S → List ApplicationResource) (namespace : String) (s : S)
    → IsServer r.prowlarr (connection_to config secrets) apps
    → ((s : S) → IsDistinct (apps s))
    → ((kind : String) (app : AppConfig) (s : S) → apps (r.update_status kind app s).1 ≡ apps s)
    → ((kind : String) (s : S) (l : List AppConfig) → r.list kind namespace s ≡ ok l → IsUnique l)
    → resolve_connection_secrets r.get_secret config.namespace config.spec.connection ≡ ok secrets
    → let ((_, e), s') = coordinate r namespace config s in
      e ≡ none
      → All (IsCoordinated r config (connection_to config secrets) apps namespace s') app_kinds
unfolding coordinate
coordinate-IsCoordinated r config secrets apps namespace s server distinct quiet unique found =
    let errs = (process_kinds r config (connection_to config secrets) namespace app_kinds s).0 in
    elim (Bool-cases (is_nil errs)) [
      | inl clean ↦
          rw (coordinate, found, clean)
            (λ done.
              (process_kinds-IsComplete r config (connection_to config secrets) apps namespace
                server distinct quiet unique app_kinds s app_kinds-IsKind app_kinds-IsApart
                (is_nil-nil errs clean)).0)
      | inr failed ↦ rw (coordinate, found, failed) (λ done. absurd (some-ne-none _ done))
    ]
