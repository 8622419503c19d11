-- ===== src/Compiler/Convert/Entries.antt =====
-- The settings of an import list and of a notification, whatever the order in which Go visits the maps.
use mathlib.Core.Option.{some-ne-none}
use text.Mathlib.TextLemmas.{append_assoc, append_cancel_left}
use nebularr_operator.Common.{
  String, ◌<>◌, string_eq, ◌≡◌, ◌≢◌, refl, sym, ap, ◌∙◌, arith, Option, none, some, [], ◌∷◌,
  Option-cases, inl, inr,
}
use nebularr_operator.Common.Text.{strip_prefix, strip_prefix-append, strip_prefix-some}
use nebularr_operator.Common.Dict.{Dict, lookup, insert, lookup-insert, lookup-nil, NodupKeys}
use nebularr_operator.Common.Range.{RangeOrder, visit-NodupKeys, lookup-visit}
use nebularr_operator.Api.{SecretKeySelector}
use nebularr_operator.Compiler.Convert.Settings.{copy_settings, add_secret_settings, settings_of}

module _ {ℓ} {V : Type ℓ} (wrap : String → V) where
  -- A value found in one map, or else in the other.
  abbrev pub or_else : Option String → Option V → Option V
  or_else none other = other
  or_else (some s) other = some (wrap s)

  lookup-copy_settings :
      (k : String) (entries : Dict String String) (settings : Dict String V)
      → NodupKeys entries
      → lookup k (copy_settings wrap entries settings)
        ≡ or_else (lookup k entries) (lookup k settings)
  unfolding copy_settings lookup
  lookup-copy_settings k [] settings u = refl
  lookup-copy_settings k ((j, v) ∷ entries) settings (fresh, u) = ground (
    arith,
    lookup-copy_settings k entries (insert j (wrap v) settings) u,
    lookup-insert k j (wrap v) settings,
    fresh,
  )

  lookup-add_secret_settings :
      (k prefix : String) (entries : Dict String String) (settings : Dict String V)
      → NodupKeys entries
      → lookup k (add_secret_settings wrap prefix entries settings)
        ≡ or_else (lookup (prefix <> k) entries) (lookup k settings)
  unfolding add_secret_settings lookup
  lookup-add_secret_settings k prefix [] settings u = refl
  lookup-add_secret_settings k prefix ((j, v) ∷ entries) settings (fresh, u) =
      elim (Option-cases (strip_prefix prefix j)) [
        | inl none_of ↦
            let other : prefix <> k ≢ j = λ same.
              some-ne-none k
                (sym (strip_prefix-append prefix k) ∙ (ap (strip_prefix prefix) same ∙ none_of)) in
            rw none_of
              (lookup-add_secret_settings k prefix entries settings u ∙ ground (arith, other))
        | inr (m, found) ↦ rw found (
            lookup-add_secret_settings k prefix entries (insert m (wrap v) settings) u
            ∙ elim (string_eq.dec k m) [
              | yes same ↦
                  let here : prefix <> k ≡ j =
                    ap (λ (x : String). prefix <> x) same
                    ∙ sym (strip_prefix-some prefix j m found) in
                  ground (arith, here, fresh, same, lookup-insert k m (wrap v) settings)
              | no differ ↦
                  let other : prefix <> k ≢ j = λ here.
                    differ
                      (append_cancel_left prefix k m (here ∙ strip_prefix-some prefix j m found)) in
                  ground (arith, other, differ, lookup-insert k m (wrap v) settings)
            ])
      ]

  -- The settings with a reference to a secret: those of the secret, and beside them those of the specification.
  pub lookup-settings_of :
      (order : RangeOrder (String × String)) (k : String) (settings : Dict String String)
      (ref : Option SecretKeySelector) (secrets : Dict String String)
      → NodupKeys settings
      → NodupKeys secrets
      → lookup k (settings_of order wrap settings ref secrets)
        ≡ or_else
            (elim ref [ none ↦ none | some s ↦ lookup (s.name <> "/" <> k) secrets ])
            (or_else (lookup k settings) none)
  unfolding settings_of
  lookup-settings_of order k settings none secrets u v =
      lookup-copy_settings k (order.visit settings) [] (visit-NodupKeys order settings u)
      ∙ (ap (λ (o : Option String). or_else o (lookup k [])) (lookup-visit order settings k u)
          ∙ ap (or_else (lookup k settings)) (lookup-nil k))
  lookup-settings_of order k settings (some s) secrets u v =
      lookup-add_secret_settings k (s.name <> "/") (order.visit secrets)
        (copy_settings wrap (order.visit settings) []) (visit-NodupKeys order secrets v)
      ∙ rw
          (
            lookup-visit order secrets ((s.name <> "/") <> k) v,
            append_assoc s.name "/" k,
            lookup-copy_settings k (order.visit settings) [] (visit-NodupKeys order settings u),
            lookup-visit order settings k u,
            lookup-nil {V = V} k,
          )
          refl
