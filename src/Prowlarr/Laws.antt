-- ===== src/Prowlarr/Laws.antt =====
-- Registration and removal at a Prowlarr that stores its applications.
use mathlib.Core.Bool.{false≢true}
use mathlib.Core.Option.{some-ne-none}
use mathlib.Core.Path.{subst}
use nebularr_operator.Common.{
  suc, String, true, false, ◌≡◌, ◌≢◌, refl, sym, ap, ◌∙◌, arith, ◌==◌, string_eq, int_eq, ℤ, pos,
  none, some, List, Result, ok, err, Result-cases, Option-cases, inl, inr, All,
}
use nebularr_operator.Prowlarr.{
  AppRegistration, ProwlarrConnection, ApplicationResource, ProwlarrApi, applications_path,
  application_path, build_application_resource, find_id, is_positive, find_application_by_name,
  register_as, register_app, unregister_from, unregister_app,
}
use nebularr_operator.Prowlarr.Named.{
  named, named-All, find_id-named, named-append, named-replace, named-replace_other, named-without,
  named-without_other, All-map,
}
use nebularr_operator.Prowlarr.Server.{IsServer, IsDistinct, IsRegistered, IsAbsent}

is_positive-zero : is_positive (pos 0) ≡ false
unfolding is_positive
is_positive-zero = refl

positive-nonzero : (id : ℤ) → is_positive id ≡ true → (id == pos 0) ≡ false
positive-nonzero id p = elim (int_eq.dec id (pos 0)) [
  | yes e ↦ absurd (false≢true (sym is_positive-zero ∙ ap is_positive (sym e) ∙ p))
  | no ne ↦ ground (arith, ne)
]

not_none : {m : String} → some m ≢ none
not_none {m} e = some-ne-none m e

module _ {S : Type 0} (api : ProwlarrApi S) (conn : ProwlarrConnection)
    (apps : S → List ApplicationResource) (server : IsServer api conn apps) where
  create-IsRegistered :
      (app : AppRegistration) (s : S)
      → named app.name (apps s) ≡ none
      → let (e, s') = api.post conn applications_path (build_application_resource app conn.url) s in
        e ≡ none → IsRegistered conn apps app s s'
  unfolding build_application_resource
  create-IsRegistered app s fresh done =
      let resource = build_application_resource app conn.url in
      let (n, added) = server.creates resource s done in
      (
        (
          pos (suc n),
          rw added (
              named-append app.name (apps s) (record resource { id = pos (suc n) })
              ∙ ground (arith, fresh)),
        ),
        λ m ne.
            rw added
              (named-append m (apps s) (record resource { id = pos (suc n) }) ∙ ground (arith, ne)),
      )

  update-IsRegistered :
      (app : AppRegistration) (x : ApplicationResource) (s : S)
      → IsDistinct (apps s)
      → named app.name (apps s) ≡ some x
      → let resource = record (build_application_resource app conn.url) { id = x.id } in
        let (e, s') = api.put conn (application_path x.id) resource s in
        e ≡ none → IsRegistered conn apps app s s'
  unfolding build_application_resource
  update-IsRegistered app x s distinct found done =
      let resource : ApplicationResource = record (build_application_resource app conn.url) {
        id = x.id;
      } in
      let replaced = server.updates resource s done in
      let (same, own) = named-All _ app.name (apps s) x distinct.same found in
      let others : All (λ (b : ApplicationResource). b.id ≡ x.id → b.name ≡ app.name) (apps s) =
        All-map (λ b h e. h.0 e ∙ own) (apps s) same in
      (
        (x.id, rw replaced (named-replace app.name resource x (apps s) found refl refl)),
        λ m ne. rw replaced (named-replace_other m resource (apps s) ne others),
      )

  -- The id that is found in a list that the server answers with.
  register_as-IsRegistered :
      (app : AppRegistration) (s : S)
      → IsDistinct (apps s)
      → let (e, s') = register_as api conn app (ok (find_id app.name (apps s))) s in
        e ≡ none → IsRegistered conn apps app s s'
  unfolding register_as
  register_as-IsRegistered app s distinct done = elim (Option-cases (named app.name (apps s))) [
    | inl fresh ↦
        let e : is_positive (find_id app.name (apps s)) ≡ false =
          rw (find_id-named app.name (apps s), fresh) is_positive-zero in
        rw (register_as, e) (create-IsRegistered app s fresh (rw (register_as, e) at done))
    | inr (x, found) ↦
        let i : find_id app.name (apps s) ≡ x.id =
          rw (find_id-named app.name (apps s), found) refl in
        let e : is_positive x.id ≡ true =
          (named-All _ app.name (apps s) x distinct.positive found).0 in
        rw (i, register_as, e)
          (update-IsRegistered app x s distinct found (rw (i, register_as, e) at done))
  ]

  -- What the search for a name answers, and the state after it.
  search_answer :
      (name : String) (s : S) (l : List ApplicationResource)
      → (api.get conn applications_path s).0 ≡ ok l
      → let s₁ = (api.get conn applications_path s).1 in
        find_application_by_name api conn name s ≡ (ok (find_id name (apps s₁)), s₁)
  unfolding find_application_by_name
  search_answer name s l e = rw (e, server.answers s l e, server.reads s) refl

  search_failure :
      (name m : String) (s : S)
      → (api.get conn applications_path s).0 ≡ err m
      → find_application_by_name api conn name s ≡ (err m, (api.get conn applications_path s).1)
  unfolding find_application_by_name
  search_failure name m s e = rw e refl

  -- If `Register` returns no error, Prowlarr has the application of the registration under its name, in the
  -- place of the one that was there before, if there was one, and the applications of other names are as
  -- before.
  pub register-IsRegistered :
      (app : AppRegistration) (s : S)
      → IsDistinct (apps s)
      → let (e, s') = register_app api conn app s in e ≡ none → IsRegistered conn apps app s s'
  unfolding register_app register_as
  register-IsRegistered app s distinct = elim (Result-cases (api.get conn applications_path s).0) [
    | inr (m, e) ↦ λ done. absurd (
        not_none (
          ap (λ (o : Result ℤ × S). (register_as api conn app o.0 o.1).0)
            (sym (search_failure app.name m s e))
          ∙ done))
    | inl (l, e) ↦
        subst
          (λ (o : Result ℤ × S).
            (register_as api conn app o.0 o.1).0 ≡ none
            → IsRegistered conn apps app s (register_as api conn app o.0 o.1).1)
          (sym (search_answer app.name s l e))
          (λ done.
            let s₁ = (api.get conn applications_path s).1 in
            let (has, others) =
              register_as-IsRegistered app s₁ (rw (server.reads s) distinct) done in
            (has, λ m ne. others m ne ∙ ap (named m) (server.reads s)))
  ]

  unregister_from-IsAbsent :
      (name : String) (s : S)
      → IsDistinct (apps s)
      → let (e, s') = unregister_from api conn (ok (find_id name (apps s))) s in
        e ≡ none → IsAbsent apps name s s'
  unfolding unregister_from int_eq
  unregister_from-IsAbsent name s distinct done = elim (Option-cases (named name (apps s))) [
    | inl fresh ↦
        let i : find_id name (apps s) ≡ pos 0 = rw (find_id-named name (apps s), fresh) refl in
        rw (i, unregister_from) (fresh, λ m ne. refl)
    | inr (x, found) ↦
        let i : find_id name (apps s) ≡ x.id = rw (find_id-named name (apps s), found) refl in
        let p : is_positive x.id ≡ true = (named-All _ name (apps s) x distinct.positive found).0 in
        let e : (x.id == pos 0) ≡ false = positive-nonzero x.id p in
        let (same, own) = named-All _ name (apps s) x distinct.same found in
        let removed =
          (named-All _ name (apps s) x (server.removes s) found).0
            (rw (i, unregister_from, e) at done) in
        rw (i, unregister_from, e)
          (
            rw removed (
                named-without name x.id (apps s)
                  (All-map (λ b h f. h.1 (f ∙ sym own)) (apps s) same)),
            λ m ne. rw removed (
                named-without_other m name x.id (apps s) ne
                  (All-map (λ b h f. h.0 f ∙ own) (apps s) same)),
          )
  ]

  -- If `Unregister` returns no error, Prowlarr has no application of the name, and the applications of other
  -- names are as before.
  pub unregister-IsAbsent :
      (name : String) (s : S)
      → IsDistinct (apps s)
      → let (e, s') = unregister_app api conn name s in e ≡ none → IsAbsent apps name s s'
  unfolding unregister_app unregister_from
  unregister-IsAbsent name s distinct = elim (Result-cases (api.get conn applications_path s).0) [
    | inr (m, e) ↦ λ done. absurd (
        not_none (
          ap (λ (o : Result ℤ × S). (unregister_from api conn o.0 o.1).0)
            (sym (search_failure name m s e))
          ∙ done))
    | inl (l, e) ↦
        subst
          (λ (o : Result ℤ × S).
            (unregister_from api conn o.0 o.1).0 ≡ none
            → IsAbsent apps name s (unregister_from api conn o.0 o.1).1)
          (sym (search_answer name s l e))
          (λ done.
            let s₁ = (api.get conn applications_path s).1 in
            let (gone, others) =
              unregister_from-IsAbsent name s₁ (rw (server.reads s) distinct) done in
            (gone, λ m ne. others m ne ∙ ap (named m) (server.reads s)))
  ]
