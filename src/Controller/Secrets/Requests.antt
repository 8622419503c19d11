-- ===== src/Controller/Secrets/Requests.antt =====
-- The resolution of secrets as a list of requests, each for a key of a secret.
use mathlib.Core.Path.{subst}
use mathlib.Core.Option.{none-ne-some}
use nebularr_operator.Common.{
  String, ◌<>◌, string_eq, ◌≡◌, ◌↔◌, refl, sym, ap, ◌∙◌, arith, Option, none, some, List, [], ◌∷◌,
  ◌++◌, Result, ok, err, Result-cases, inl, inr, All,
}
use nebularr_operator.Common.Dict.{Dict, lookup, insert, lookup-insert}
use nebularr_operator.Api.{SecretKeySelector, CredentialsSecretRef}
use nebularr_operator.Controller.Secrets.{
  Resolved, key_or, entry_of, for_each, resolve_secret_value, resolve_into, resolve_credentials,
  resolve_key,
}

abbrev pub Request : Type 0
Request = String × String

-- The requests of one reference, and of a list.
abbrev pub credential_requests : Option CredentialsSecretRef → List Request
credential_requests none = []
credential_requests (some ref) =
    (ref.name, key_or "username" ref.username_key)
    ∷ (ref.name, key_or "password" ref.password_key)
    ∷ []

abbrev pub key_requests : String → Option SecretKeySelector → List Request
key_requests fallback none = []
key_requests fallback (some ref) = (ref.name, key_or fallback ref.key) ∷ []

abbrev pub requests_of {ℓ} : {A : Type ℓ} → (A → List Request) → List A → List Request
requests_of f [] = []
requests_of f (a ∷ items) = f a ++ requests_of f items

-- Two requests for one entry of the map are one request. Names and keys of secrets have no slash, so
-- that this holds of every list of requests to a cluster.
abbrev pub IsAlone : Request → List Request → Type 0
IsAlone p = All (λ (q : Request). entry_of q.0 q.1 ≡ entry_of p.0 p.1 → q ≡ p)

abbrev pub IsUnambiguous : List Request → Type 0
IsUnambiguous [] = Unit
IsUnambiguous (p ∷ requests) = IsAlone p requests × IsUnambiguous requests

module _ {ℓ} {A : Type ℓ} (body : A → Dict String String → Resolved) where
  for_each-cons_none :
      (x : A) (xs : List A) (r r' : Dict String String)
      → body x r ≡ (none, r')
      → for_each body (x ∷ xs) r ≡ for_each body xs r'
  unfolding for_each
  for_each-cons_none x xs r r' e =
      ap
        (λ (o : Resolved). elim o.0 as (λ _. Resolved) [
          | some m ↦ (some m, o.1)
          | none ↦ for_each body xs o.1
        ])
        e

  for_each-cons_some :
      (x : A) (xs : List A) (m : String) (r r' : Dict String String)
      → body x r ≡ (some m, r')
      → for_each body (x ∷ xs) r ≡ (some m, r')
  unfolding for_each
  for_each-cons_some x xs m r r' e =
      ap
        (λ (o : Resolved). elim o.0 as (λ _. Resolved) [
          | some n ↦ (some n, o.1)
          | none ↦ for_each body xs o.1
        ])
        e

  -- The run over a second list after that over the first.
  abbrev pub then_each : List A → Resolved → Resolved
  then_each ys (some m, r) = (some m, r)
  then_each ys (none, r) = for_each body ys r

  for_each-append :
      (xs ys : List A) (r : Dict String String)
      → for_each body (xs ++ ys) r ≡ then_each ys (for_each body xs r)
  unfolding for_each
  for_each-append [] ys r = refl
  for_each-append (x ∷ xs) ys r = go (for_each-append xs ys) (body x r) refl
    where
      go :
          ((r' : Dict String String)
            → for_each body (xs ++ ys) r' ≡ then_each ys (for_each body xs r'))
          → (o : Resolved) → body x r ≡ o
          → for_each body (x ∷ (xs ++ ys)) r ≡ then_each ys (for_each body (x ∷ xs) r)
      go rest (none, r') e =
          for_each-cons_none x (xs ++ ys) r r' e
          ∙ (rest r' ∙ ap (then_each ys) (sym (for_each-cons_none x xs r r' e)))
      go rest (some m, r') e =
          for_each-cons_some x (xs ++ ys) m r r' e
          ∙ ap (then_each ys) (sym (for_each-cons_some x xs m r r' e))

module _ (get_secret : String → String → Result (Dict String String)) (namespace : String) where
  abbrev value_of : Request → Result String
  value_of p = resolve_secret_value get_secret namespace p.0 p.1

  -- The secret of a request has its key.
  abbrev pub IsFound : Request → Type 0
  IsFound p = (v : String) × (value_of p ≡ ok v)

  -- The map has the value of a request.
  abbrev pub IsResolved : Dict String String → Request → Type 0
  IsResolved r p = (v : String) × (value_of p ≡ ok v) × (lookup (entry_of p.0 p.1) r ≡ some v)

  abbrev into : String → Request → Dict String String → Resolved
  into problem p r = resolve_into get_secret namespace problem p.0 p.1 r

  into-some :
      (problem v : String) (p : Request) (r : Dict String String)
      → value_of p ≡ ok v
      → into problem p r ≡ (none, insert (entry_of p.0 p.1) v r)
  unfolding resolve_into
  into-some problem v p r e = rw (resolve_into, e) refl

  into-none :
      (problem m : String) (p : Request) (r : Dict String String)
      → value_of p ≡ err m
      → into problem p r ≡ (some (problem <> ": " <> m), r)
  unfolding resolve_into
  into-none problem m p r e = rw (resolve_into, e) refl

  -- What is resolved stays resolved.
  keep-IsResolved :
      (problem : String) (requests : List Request) (r : Dict String String) (p : Request)
      → IsAlone p requests
      → IsResolved r p
      → IsResolved (for_each (into problem) requests r).1 p
  unfolding for_each
  keep-IsResolved problem [] r p alone h = h
  keep-IsResolved problem (q ∷ requests) r p alone (v, found, entered) =
      elim (Result-cases (value_of q)) [
        | inr (m, e) ↦
            rw (for_each-cons_some (into problem) q requests _ r r (into-none problem m q r e))
              (v, found, entered)
        | inl (w, e) ↦
            rw
              (for_each-cons_none (into problem) q requests r (insert (entry_of q.0 q.1) w r)
                (into-some problem w q r e))
              (keep-IsResolved problem requests (insert (entry_of q.0 q.1) w r) p alone.1
                (elim (string_eq.dec (entry_of p.0 p.1) (entry_of q.0 q.1)) [
                  | yes same ↦ (
                    w,
                    subst (λ (x : Request). value_of x ≡ ok w) (alone.0 (sym same)) e,
                    ground (arith, same, lookup-insert (entry_of p.0 p.1) (entry_of q.0 q.1) w r),
                  )
                  | no other ↦ (
                    v,
                    found,
                    ground (
                      arith,
                      other,
                      entered,
                      lookup-insert (entry_of p.0 p.1) (entry_of q.0 q.1) w r,
                    ),
                  )
                ]))
      ]

  All-IsResolved :
      (problem : String) (requests : List Request) (r : Dict String String)
      → IsUnambiguous requests
      → All IsFound requests
      → ((for_each (into problem) requests r).0 ≡ none)
        × All (IsResolved (for_each (into problem) requests r).1) requests
  unfolding for_each
  All-IsResolved problem [] r u h = (refl, tt)
  All-IsResolved problem (p ∷ requests) r u ((v, e), h) =
      let r' = insert (entry_of p.0 p.1) v r in
      let (done, rest) = All-IsResolved problem requests r' u.1 h in
      subst (λ (o : Resolved). (o.0 ≡ none) × All (IsResolved o.1) (p ∷ requests))
        (sym (for_each-cons_none (into problem) p requests r r' (into-some problem v p r e)))
        (
          done,
          (
            keep-IsResolved problem requests r' p u.0
                (v, e, ground (arith, lookup-insert (entry_of p.0 p.1) (entry_of p.0 p.1) v r)),
            rest,
          ),
        )

  All-IsFound :
      (problem : String) (requests : List Request) (r : Dict String String)
      → (for_each (into problem) requests r).0 ≡ none
      → All IsFound requests
  unfolding for_each
  All-IsFound problem [] r done = tt
  All-IsFound problem (p ∷ requests) r done = elim (Result-cases (value_of p)) [
    | inl (v, e) ↦ (
      (v, e),
      All-IsFound problem requests (insert (entry_of p.0 p.1) v r) (
          sym (
            ap (λ (o : Resolved). o.0)
              (for_each-cons_none (into problem) p requests r (insert (entry_of p.0 p.1) v r)
                (into-some problem v p r e)))
          ∙ done),
    )
    | inr (m, e) ↦ absurd (
        none-ne-some (problem <> ": " <> m) (
          sym done
          ∙ ap (λ (o : Resolved). o.0)
              (for_each-cons_some (into problem) p requests _ r r (into-none problem m p r e))))
  ]

  unfold_last :
      (o : Resolved)
      → (elim o.0 as (λ _. Resolved) [ some m ↦ (some m, o.1) | none ↦ (none, o.1) ]) ≡ o
  unfold_last (some m, r) = refl
  unfold_last (none, r) = refl

  unfold_second :
      (next : Dict String String → Resolved) (o : Resolved)
      → (elim o.0 as (λ _. Resolved) [ some m ↦ (some m, o.1) | none ↦ next o.1 ])
        ≡ (elim o.0 as (λ _. Resolved) [
          | some m ↦ (some m, o.1)
          | none ↦ elim (next o.1).0 as (λ _. Resolved) [
            | some m ↦ (some m, (next o.1).1)
            | none ↦ (none, (next o.1).1)
          ]
        ])
  unfold_second next (some m, r) = refl
  unfold_second next (none, r) = sym (unfold_last (next r))

  pub resolve_credentials-for_each :
      (problem : String) (ref : Option CredentialsSecretRef) (r : Dict String String)
      → resolve_credentials get_secret namespace problem ref r
        ≡ for_each (into problem) (credential_requests ref) r
  unfolding resolve_credentials for_each
  resolve_credentials-for_each problem none r = refl
  resolve_credentials-for_each problem (some ref) r =
      unfold_second (into problem (ref.name, key_or "password" ref.password_key))
        (into problem (ref.name, key_or "username" ref.username_key) r)

  pub resolve_key-for_each :
      (problem fallback : String) (ref : Option SecretKeySelector) (r : Dict String String)
      → resolve_key get_secret namespace problem fallback ref r
        ≡ for_each (into problem) (key_requests fallback ref) r
  unfolding resolve_key for_each
  resolve_key-for_each problem fallback none r = refl
  resolve_key-for_each problem fallback (some ref) r =
      sym (unfold_last (into problem (ref.name, key_or fallback ref.key) r))

  -- A loop over items is one over their requests, if the body is.
  pub for_each-requests_of {ℓ} :
      {A : Type ℓ} (body : A → Dict String String → Resolved) (f : A → List Request)
      (problem : String)
      (h : (a : A) (r : Dict String String) → body a r ≡ for_each (into problem) (f a) r)
      (items : List A) (r : Dict String String)
      → for_each body items r ≡ for_each (into problem) (requests_of f items) r
  unfolding for_each
  for_each-requests_of body f problem h [] r = refl
  for_each-requests_of {A} body f problem h (a ∷ items) r =
      go (for_each-requests_of body f problem h items) (body a r) refl
      ∙ (ap (then_each (into problem) (requests_of f items)) (h a r)
          ∙ sym (for_each-append (into problem) (f a) (requests_of f items) r))
    where
      go :
          ((r' : Dict String String)
            → for_each body items r' ≡ for_each (into problem) (requests_of f items) r')
          → (o : Resolved) → body a r ≡ o
          → for_each body (a ∷ items) r ≡ then_each (into problem) (requests_of f items) o
      go rest (none, r') e = for_each-cons_none body a items r r' e ∙ rest r'
      go rest (some m, r') e = for_each-cons_some body a items m r r' e

  pub run-IsResolved :
      (problem : String) (requests : List Request) (r : Dict String String)
      → IsUnambiguous requests
      → let (e, r') = for_each (into problem) requests r in
        ((e ≡ none) ↔ All IsFound requests) × (e ≡ none → All (IsResolved r') requests)
  run-IsResolved problem requests r u = (
    (All-IsFound problem requests r, λ h. (All-IsResolved problem requests r u h).0),
    λ done. (All-IsResolved problem requests r u (All-IsFound problem requests r done)).1,
  )
