-- ===== src/Controller/Reconcile/Safety.antt =====
-- When a reconciliation panics.
use mathlib.Core.Path.{subst}
use mathlib.Core.Option.{some_inj, none-ne-some}
use nebularr_operator.Common.{
  sym, ap, ◌∙◌, ℕ, String, ◌≡◌, ◌≢◌, ◌⊎◌, ◌↔◌, refl, false, ℤ, Option, none, some, List, Result, ok,
  err, Result-cases, Option-cases, Bool-cases, inl, inr,
}
use nebularr_operator.Common.Dict.{Dict}
use nebularr_operator.Ir.{Ir, ConnectionIr}
use nebularr_operator.Compiler.Types.{Capabilities}
use nebularr_operator.Changes.{ChangeSet, is_empty}
use nebularr_operator.Adapters.Interface.{Adapter, ApplyReturn, ServiceInfo}
use nebularr_operator.Adapters.Registry.{Run, returned, panicked, get}
use nebularr_operator.Controller.Status.{Condition, ConfigStatus}
use nebularr_operator.Controller.Reconcile.{
  after_apply, reconcile_changes, reconcile_state, reconcile_discovered, reconcile_with,
  reconcile_config, connected_to,
}

-- `Apply` returns a result or an error, or both, and `Diff` a change set or an error.
pub record HasResults {S : Type 0} (a : Adapter S) : Type 0 where
  pub apply :
      (conn : ConnectionIr) (changes : ChangeSet) (s : S)
      → (a.apply conn changes s).0 ≢ (none, none)
  pub diff :
      (current : Option Ir) (desired : Ir) (caps : Option Capabilities)
      → a.diff current desired caps ≢ ok none

abbrev pub IsReturned : {A : Type 0} → Run A → Type 0
IsReturned {A} r = (a : A) × (r ≡ returned a)

module _ {S : Type 0} (app_type : String) (conn : ConnectionIr) (desired : Ir) where
  -- The adapter answers a change set that is nil, or a change set with changes and, to that, no result.
  abbrev pub IsUnapplied : Adapter S → Result (Option ChangeSet) → S → Type 0
  IsUnapplied a diff s =
      (diff ≡ ok none)
      ⊎ ((changes : ChangeSet) × (diff ≡ ok (some changes))
          × (is_empty changes ≡ false)
          × ((a.apply conn changes s).0.0 ≡ none))

  -- The calls of one reconciliation with a service, up to a nil that is read.
  abbrev pub ReadsNil : Adapter S → S → Type 0
  ReadsNil a s =
      let s₁ = (a.connect conn s).1 in
      let s₂ = (a.discover conn s₁).1 in
      ((a.connect conn s).0 ≡ ok none)
      ⊎ ((info : ServiceInfo) × (caps : Capabilities) × (current : Option Ir) × ((a.connect conn
              s).0
            ≡ ok (some info))
          × ((a.discover conn s₁).0 ≡ ok caps)
          × ((a.current_state conn s₂).0 ≡ ok current)
          × IsUnapplied a (a.diff current desired (some caps)) (a.current_state conn s₂).1)

panicked-ne-returned : {A : Type 0} {a : A} → returned a ≢ panicked
panicked-ne-returned e = cc

-- The value of a successful result, or another.
abbrev value_or : {A : Type 0} → A → Result A → A
value_or other (ok a) = a
value_or other (err e) = other

pub ok_inj : {A : Type 0} {a b : A} → ◌≡◌ {A = Result A} (ok a) (ok b) → a ≡ b
ok_inj {a} e = ap (value_or a) e

module _ {S : Type 0} (set : Condition → List Condition → List Condition) (now : ℕ)
    (registry : Dict String (Adapter S)) (app_type : String) (conn : ConnectionIr) where
  after_apply-panics :
      (g : ℤ) (desired : Ir) (changes : ChangeSet) (outcome : ApplyReturn) (st : ConfigStatus)
      → (after_apply set now registry app_type conn g desired changes outcome st ≡ panicked)
        ↔ (outcome.0 ≡ none)
  unfolding after_apply
  after_apply-panics g desired changes (none, e) st = ((λ _. refl), λ _. refl)
  after_apply-panics g desired changes (some r, some e) st =
      ((λ p. absurd (panicked-ne-returned p)), λ q. absurd (cc))
  after_apply-panics g desired changes (some r, none) st =
      ((λ p. absurd (panicked-ne-returned p)), λ q. absurd (cc))

  reconcile_changes-panics :
      (a : Adapter S) (g : ℤ) (desired : Ir) (r : Result (Option ChangeSet)) (st : ConfigStatus)
      (s : S)
      → ((reconcile_changes set now registry app_type conn a g desired r st s).0 ≡ panicked)
        ↔ IsUnapplied app_type conn desired a r s
  unfolding reconcile_changes
  reconcile_changes-panics a g desired (err e) st s = (
    (λ p. absurd (panicked-ne-returned p)),
    λ u. elim u [ inl q ↦ absurd (cc) | inr (c, q, _, _) ↦ absurd (cc) ],
  )
  reconcile_changes-panics a g desired (ok none) st s = ((λ _. inl refl), λ _. refl)
  reconcile_changes-panics a g desired (ok (some changes)) st s =
      elim (Bool-cases (is_empty changes)) [
        | inl empty ↦ (
          (λ p. absurd (panicked-ne-returned (rw empty at p))),
          λ u. elim u [ inl q ↦ absurd (cc) | inr (c, q, some_change, _) ↦ absurd (cc) ],
        )
        | inr e ↦
            let applied = after_apply-panics g desired changes (a.apply conn changes s).0 st in
            (
              (λ p. inr (changes, refl, e, applied.0 (rw e at p))),
              λ u. elim u [
                | inl q ↦ absurd (cc)
                | inr (c, q, some_change, unapplied) ↦ rw e (applied.1 cc)
              ],
            )
      ]

  reconcile_state-panics :
      (a : Adapter S) (g : ℤ) (desired : Ir) (caps : Capabilities) (st : ConfigStatus) (s : S)
      → ((reconcile_state set now registry app_type conn a g desired caps st s).0 ≡ panicked) ↔ (
          (current : Option Ir) × ((a.current_state conn s).0 ≡ ok current)
          × IsUnapplied app_type conn desired a
              (a.diff current desired (some caps))
              (a.current_state conn s).1)
  unfolding reconcile_state
  reconcile_state-panics a g desired caps st s = elim (Result-cases (a.current_state conn s).0) [
    | inr (m, e) ↦ (
      (λ p. absurd (panicked-ne-returned (rw (e, reconcile_state) at p))),
      λ (c, q, _). absurd (cc),
    )
    | inl (current, e) ↦
        let diffed =
          reconcile_changes-panics a g desired (a.diff current desired (some caps)) st
            (a.current_state conn s).1 in
        (
          (λ p. (current, e, diffed.0 (rw (e, reconcile_state) at p))),
          λ (c, q, u).
              rw (e, reconcile_state)
                (diffed.1 (
                  subst
                    (λ o.
                      IsUnapplied app_type conn desired a (a.diff o desired (some caps))
                        (a.current_state conn s).1)
                    (ok_inj (sym q ∙ e)) u)),
        )
  ]

  reconcile_with-panics :
      (a : Adapter S) (desired : Ir) (st : ConfigStatus) (g : ℤ) (s : S)
      → ((reconcile_with set now registry app_type conn a desired st g s).0 ≡ panicked)
        ↔ ReadsNil app_type conn desired a s
  unfolding reconcile_with reconcile_discovered
  reconcile_with-panics a desired st g s = elim (Result-cases (a.connect conn s).0) [
    | inr (m, e) ↦ (
      (λ p. absurd (panicked-ne-returned (rw (e, reconcile_with) at p))),
      λ u. elim u [ inl q ↦ absurd (cc) | inr (i, c, o, q, _, _, _) ↦ absurd (cc) ],
    )
    | inl (none, e) ↦ ((λ _. inl e), λ _. rw (e, reconcile_with) refl)
    | inl (some info, e) ↦ elim (Result-cases (a.discover conn (a.connect conn s).1).0) [
      | inr (m, d) ↦ (
        (λ p. absurd (panicked-ne-returned (rw (e, reconcile_with, d, reconcile_discovered) at p))),
        λ u. elim u [ inl q ↦ absurd (cc) | inr (i, c, o, _, q, _, _) ↦ absurd (cc) ],
      )
      | inl (caps, d) ↦
          let fetched =
            reconcile_state-panics a g desired caps
              (connected_to set now registry app_type conn g info st)
              (a.discover conn (a.connect conn s).1).1 in
          (
            (λ p.
                let (o, q, u) = fetched.0 (rw (e, reconcile_with, d, reconcile_discovered) at p) in
                inr (info, caps, o, e, d, q, u)),
            λ u. elim u [
              | inl q ↦ absurd (cc)
              | inr (i, c, o, _, q, found, unapplied) ↦
                  rw (e, reconcile_with, d, reconcile_discovered)
                    (fetched.1 (
                      o,
                      found,
                      subst
                          (λ k.
                            IsUnapplied app_type conn desired a (a.diff o desired (some k))
                              (a.current_state conn (a.discover conn (a.connect conn s).1).1).1)
                          (ok_inj (sym q ∙ d)) unapplied,
                    ))
            ],
          )
    ]
  ]

  -- A reconciliation panics exactly if the adapter of the app answers without an error that the information on
  -- the service or the change set is nil, or is asked to apply a change set with changes and returns a nil
  -- result, with or without an error. All other failures are returned.
  pub reconcile_panics :
      (desired : Ir) (st : ConfigStatus) (g : ℤ) (s : S)
      → ((reconcile_config set now registry app_type conn desired st g s).0 ≡ panicked)
        ↔ ((a : Adapter S) × (get app_type registry ≡ some a) × ReadsNil app_type conn desired a s)
  unfolding reconcile_config
  reconcile_panics desired st g s = elim (Option-cases (get app_type registry)) [
    | inl e ↦ (
      (λ p. absurd (panicked-ne-returned (rw (e, reconcile_config) at p))),
      λ (a, q, _). absurd (none-ne-some a (sym e ∙ q)),
    )
    | inr (a, e) ↦
        let ran = reconcile_with-panics a desired st g s in
        (
          (λ p. (a, e, ran.0 (rw (e, reconcile_config) at p))),
          λ (b, q, u).
              rw (e, reconcile_config)
                (ran.1
                  (subst (λ c. ReadsNil app_type conn desired c s) (some_inj.0 (sym q ∙ e)) u)),
        )
  ]
