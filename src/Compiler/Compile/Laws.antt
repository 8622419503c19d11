-- ===== src/Compiler/Compile/Laws.antt =====
-- What a compiled representation says of its input: support, hash, orders and names.
use mathlib.Core.Option.{none-ne-some}
use nebularr_operator.Common.{
  ℕ, suc, ◌≤◌, String, true, ◌≡◌, refl, sym, ◌∙◌, arith, int_eq, bool_eq, nat_eq, string_eq, ℤ, pos,
  Option, none, some, List, [], ◌∷◌, All, inr,
}
use nebularr_operator.Common.Dict.{Dict, lookup, insert, lookup-insert}
use nebularr_operator.Changes.{ChangeSet}
use nebularr_operator.Ir.{Ir, DelayProfileIr}
use nebularr_operator.Diff.Delay.{delay_profiles_equal, all_in, by_order_onto, diff_delay_profiles}
use nebularr_operator.Diff.Delay.Laws.{profiles_stable}
use nebularr_operator.Compiler.Types.{
  CompileInput, Capabilities, ImportListInput, MediaManagementInput, AuthenticationInput,
  DelayProfileInput,
}
use nebularr_operator.Compiler.Features.{
  compile_import_lists_to_ir, compile_media_management_to_ir, compile_authentication_to_ir,
  compile_delay_profile, compile_delay_profiles_from, compile_delay_profiles_to_ir,
}
use nebularr_operator.Compiler.Prune.{prune_unsupported}
use nebularr_operator.Compiler.Prune.Laws.{IsPruned}
use nebularr_operator.Compiler.Compile.{Hashable, compile_parts, prune_with, compile}

module _ (digest : Hashable → String) (now : ℕ) where
  -- What a compiled representation has of the parts of its input, for capabilities that may not be known.
  abbrev pub IsPrunedFor : Option Capabilities → Ir → Ir → Type 0
  IsPrunedFor none parts ir = record ir { source_hash = parts.source_hash } ≡ parts
  IsPrunedFor (some caps) parts ir =
      IsPruned caps parts
        (record ir { unrealized = parts.unrealized; source_hash = parts.source_hash }) ir.unrealized

  -- Pruning leaves the import lists, the media management and the authentication alone.
  kept-prune_with :
      (caps : Option Capabilities) (ir : Ir)
      → let pruned = prune_with caps ir in
        (pruned.import_lists ≡ ir.import_lists)
        × (pruned.media_management ≡ ir.media_management)
        × (pruned.authentication ≡ ir.authentication)
  unfolding prune_with prune_unsupported
  kept-prune_with none ir = (refl, refl, refl)
  kept-prune_with (some caps) ir = (refl, refl, refl)

  -- The source hash does not see the import lists, the media management and the authentication: with
  -- others in their place the representation has the new ones, and the hash of the old ones.
  pub hash_unaware :
      (input : CompileInput) (lists : List ImportListInput) (media : Option MediaManagementInput)
      (auth : Option AuthenticationInput)
      → let changed = compile digest now (record input {
        import_lists = lists;
        media_management = media;
        authentication = auth;
      }) in
        (changed.source_hash ≡ (compile digest now input).source_hash)
        × (changed.import_lists ≡ compile_import_lists_to_ir lists)
        × (changed.media_management ≡ compile_media_management_to_ir media)
        × (changed.authentication ≡ compile_authentication_to_ir auth)
  unfolding compile compile_parts
  hash_unaware input lists media auth =
      let (l, m, a) = kept-prune_with input.capabilities (
        compile_parts now (record input {
          import_lists = lists;
          media_management = media;
          authentication = auth;
        })) in
      (refl, l, m, a)

-- No profile of the input states an order.
abbrev pub HasNoOrder : DelayProfileInput → Type 0
HasNoOrder p = p.order ≡ pos 0

lookup-by_order_below :
    (i k : ℕ) (profiles : List DelayProfileInput) (m : Dict ℤ DelayProfileIr)
    → All HasNoOrder profiles
    → k ≤ i
    → lookup (pos k) (by_order_onto m (compile_delay_profiles_from i profiles)) ≡ lookup (pos k) m
unfolding by_order_onto compile_delay_profiles_from
lookup-by_order_below i k [] m h le = refl
lookup-by_order_below i k (p ∷ profiles) m h le =
    let d = compile_delay_profile i p in
    lookup-by_order_below (suc i) k profiles (insert d.order d m) h.1 (omega (arith, le))
    ∙ ground (arith, lookup-insert (pos k) d.order d m, h.0, le)

compiled_orders_found :
    (i : ℕ) (profiles : List DelayProfileInput) (m : Dict ℤ DelayProfileIr)
    → All HasNoOrder profiles
    → let ds = compile_delay_profiles_from i profiles in
      All
        (λ (d : DelayProfileIr).
          (lookup d.order (by_order_onto m ds) ≡ some d) × (delay_profiles_equal d d ≡ true))
        ds
unfolding by_order_onto compile_delay_profiles_from delay_profiles_equal all_in nat_eq
compiled_orders_found i [] m h = tt
compiled_orders_found i (p ∷ profiles) m h =
    let d = compile_delay_profile i p in
    let order_d : d.order ≡ pos (suc i) = ground (arith, h.0) in
    (
      (
        ground (
          arith,
          order_d,
          lookup-insert (pos (suc i)) d.order d m,
          lookup-by_order_below (suc i) (suc i) profiles (insert d.order d m) h.1 (omega arith),
        ),
        ground arith,
      ),
      compiled_orders_found (suc i) profiles (insert d.order d m) h.1,
    )

All-map {ℓ κ μ} :
    {A : Type ℓ} {P : A → Type κ} {Q : A → Type μ}
    → ((a : A) → P a → Q a)
    → (xs : List A) → All P xs
    → All Q xs
All-map f [] h = tt
All-map f (x ∷ xs) h = (f x h.0, All-map f xs h.1)

-- If no delay profile of the input states an order, the compiled profiles have orders of their own: a
-- service that has exactly these profiles is in agreement with them, and nothing is changed.
pub compiled_profiles_stable :
    (profiles : List DelayProfileInput) (changes : ChangeSet)
    → All HasNoOrder profiles
    → let ds = compile_delay_profiles_to_ir profiles in diff_delay_profiles ds ds changes ≡ changes
unfolding compile_delay_profiles_to_ir
compiled_profiles_stable profiles changes h =
    let found = compiled_orders_found 0 profiles [] h in
    let ds = compile_delay_profiles_from 0 profiles in
    profiles_stable ds ds changes (All-map (λ d p. (d, p.0, p.1)) ds found)
      (All-map (λ d p. inr (λ e. none-ne-some d (sym e ∙ p.0))) ds found)
