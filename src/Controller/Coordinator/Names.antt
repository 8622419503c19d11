-- ===== src/Controller/Coordinator/Names.antt =====
-- The names that applications have in Prowlarr: two objects never share one.
use Prim.Native.String.{String as Text}
use mathlib.Core.Option.{some_inj}
use text.Mathlib.TextLemmas.{nil-append, cons-append, append_cancel_left, append_cancel_right}
use nebularr_operator.Common.{
  String, ◌<>◌, ◌≡◌, refl, sym, ap, ◌∙◌, Option, none, some, if◌then◌else◌, All,
}
use nebularr_operator.Common.Text.{same_char}
use nebularr_operator.Controller.Coordinator.{pull_name}
use nebularr_operator.Controller.Coordinator.Process.{app_kinds}

-- What follows the last dash.
pub after_dash : String → Option String
after_dash Text.[] = none
after_dash (Text.◌∷◌ c s) = elim (after_dash s) [
  | some t ↦ some t
  | none ↦ if same_char c "-" then some s else none
]

after_dash-append : (a s t : String) → after_dash s ≡ some t → after_dash (a <> s) ≡ some t
unfolding after_dash
after_dash-append Text.[] s t h = ap after_dash (nil-append s) ∙ h
after_dash-append (Text.◌∷◌ c a) s t h =
    ap after_dash (cons-append c a s)
    ∙ ap
        (λ (o : Option String). (elim o [
          | some u ↦ some u
          | none ↦ if same_char c "-" then some (a <> s) else none
        ]))
        (after_dash-append a s t h)

-- A kind has no dash.
abbrev pub IsKind : String → Type 0
IsKind k = after_dash ("-" <> k) ≡ some k

pub app_kinds-IsKind : All IsKind app_kinds
unfolding after_dash same_char
app_kinds-IsKind = (refl, (refl, (refl, (refl, tt))))

pub pull_name_inj :
    (k k' a a' : String)
    → IsKind k
    → IsKind k'
    → pull_name k a ≡ pull_name k' a'
    → (k ≡ k') × (a ≡ a')
pull_name_inj k k' a a' h h' e =
    let bare : a <> ("-" <> k) ≡ a' <> ("-" <> k') = append_cancel_left "nebularr-pull-" _ _ e in
    let same : k ≡ k' = some_inj.0 (
      sym (after_dash-append a ("-" <> k) k h)
      ∙ (ap after_dash bare ∙ after_dash-append a' ("-" <> k') k' h')) in
    (
      same,
      append_cancel_right a a' ("-" <> k') (ap (λ (x : String). a <> ("-" <> x)) (sym same) ∙ bare),
    )
