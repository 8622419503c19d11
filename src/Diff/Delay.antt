-- ===== src/Diff/Delay.antt =====
-- Delay profiles (internal/adapters/shared/delayprofiles.go). They are found by their order, and the
-- loops go through the slices, not through the maps.
pub mod Laws
use nebularr_operator.Common.{
  String, Bool, true, false, not, ◌&&◌, ◌==◌, string_eq, bool_eq, int_eq, nat_eq, contains,
  if◌then◌else◌, ℤ, pos, Option, none, some, List, [], ◌∷◌, length,
}
use nebularr_operator.Common.Dict.{Dict, lookup, insert}
use nebularr_operator.Ir.{DelayProfileIr}
use nebularr_operator.Changes.{
  Change, ChangeSet, Payload, delay_profile, resource_delay_profile, add_create, add_update,
  add_delete,
}

-- `for _, t := range tags { if !set[t] { return false } }`
unfoldable pub all_in : List ℤ → List ℤ → Bool
all_in set [] = true
all_in set (t ∷ tags) = let rest = all_in set tags in if contains set t then rest else false

unfoldable pub delay_profiles_equal : DelayProfileIr → DelayProfileIr → Bool
unfolding all_in
delay_profiles_equal a b =
    a.order == b.order
    && a.preferred_protocol == b.preferred_protocol
    && a.usenet_delay == b.usenet_delay
    && a.torrent_delay == b.torrent_delay
    && a.enable_usenet == b.enable_usenet
    && a.enable_torrent == b.enable_torrent
    && a.bypass_if_highest_quality == b.bypass_if_highest_quality
    && a.bypass_if_above_custom_format_score == b.bypass_if_above_custom_format_score
    && a.minimum_custom_format_score == b.minimum_custom_format_score
    && length a.tags == length b.tags
    && all_in a.tags b.tags

-- `byOrder[p.Order] = p` for each.
unfoldable pub by_order_onto : Dict ℤ DelayProfileIr → List DelayProfileIr → Dict ℤ DelayProfileIr
by_order_onto m [] = m
by_order_onto m (p ∷ profiles) = by_order_onto (insert p.order p m) profiles

abbrev pub by_order : List DelayProfileIr → Dict ℤ DelayProfileIr
by_order profiles = by_order_onto [] profiles

abbrev pub profile_change : String → Option ℤ → Option DelayProfileIr → Change
profile_change name id p = record {
  resource_type = resource_delay_profile;
  name = name;
  id = id;
  payload = elim p [ none ↦ none | some d ↦ some (delay_profile d) ];
}

abbrev pub upsert_profile : Dict ℤ DelayProfileIr → DelayProfileIr → ChangeSet → ChangeSet
upsert_profile current dp cs = elim (lookup dp.order current) [
  | none ↦ add_create (profile_change dp.name none (some dp)) cs
  | some c ↦
      if delay_profiles_equal c dp
      then cs
      else add_update (profile_change dp.name (some c.id) (some (record dp { id = c.id }))) cs
]

unfoldable pub upsert_profiles : Dict ℤ DelayProfileIr → List DelayProfileIr → ChangeSet → ChangeSet
unfolding delay_profiles_equal
upsert_profiles current [] cs = cs
upsert_profiles current (dp ∷ desired) cs =
    upsert_profiles current desired (upsert_profile current dp cs)

-- The default profile has order 1.
abbrev pub prune_profile : Dict ℤ DelayProfileIr → DelayProfileIr → ChangeSet → ChangeSet
prune_profile desired cp cs = if cp.order == pos 1 then cs else elim (lookup cp.order desired) [
  | none ↦ add_delete (profile_change cp.name (some cp.id) none) cs
  | some _ ↦ cs
]

unfoldable pub prune_profiles : Dict ℤ DelayProfileIr → List DelayProfileIr → ChangeSet → ChangeSet
prune_profiles desired [] cs = cs
prune_profiles desired (cp ∷ current) cs =
    prune_profiles desired current (prune_profile desired cp cs)

unfoldable pub diff_delay_profiles :
    List DelayProfileIr → List DelayProfileIr → ChangeSet → ChangeSet
unfolding upsert_profiles prune_profiles by_order_onto
diff_delay_profiles current desired changes =
    prune_profiles (by_order desired) current (upsert_profiles (by_order current) desired changes)
