-- ===== src/Diff/Profiles/Laws.antt =====
-- Root folders are only ever created, and only where they are missing.
use mathlib.Core.List.{append-nil, append_assoc}
use nebularr_operator.Common.{
  String, true, ◌≡◌, refl, ◌∙◌, arith, List, [], ◌∷◌, ◌++◌, map, ◌||◌, contains, string_eq,
  if◌then◌else◌, contains-append,
}
use nebularr_operator.Ir.{RootFolderIr}
use nebularr_operator.Changes.{Change, ChangeSet, empty_changes}
use nebularr_operator.Diff.Profiles.{folder_change, paths, create_folders, diff_root_folders}

-- The changes that add the missing folders.
missing : List String → List RootFolderIr → List Change
missing present [] = []
missing present (f ∷ desired) =
    let rest = missing present desired in
    if contains present f.path then rest else folder_change f.path ∷ rest

create_folders-missing :
    (present : List String) (desired : List RootFolderIr) (cs : ChangeSet)
    → create_folders present desired cs
      ≡ record cs { creates = cs.creates ++ missing present desired }
unfolding create_folders missing
create_folders-missing present [] cs = ground (arith, append-nil cs.creates)
create_folders-missing present (f ∷ desired) cs =
    create_folders-missing present desired _
    ∙ ground (arith, append_assoc cs.creates (folder_change f.path ∷ []) (missing present desired))

-- A service creates the folders that a list of changes names.
abbrev pub created_paths : List Change → List String
created_paths = map (λ (c : Change). c.name)

contains-created_paths :
    (present : List String) (desired : List RootFolderIr) (path : String)
    → (contains present path || contains (created_paths (missing present desired)) path)
      ≡ (contains present path || contains (paths desired) path)
unfolding missing
contains-created_paths present [] path = refl
contains-created_paths present (f ∷ desired) path =
    ground (arith, contains-created_paths present desired path)

missing-eq-nil :
    (present : List String) (desired : List RootFolderIr)
    → ((path : String) → contains (paths desired) path ≡ true → contains present path ≡ true)
    → missing present desired ≡ []
unfolding missing
missing-eq-nil present [] h = refl
missing-eq-nil present (f ∷ desired) h =
    ground (arith, missing-eq-nil present desired (λ p e. h p (ground arith)), h f.path)

-- `DiffRootFolders` writes no update and no delete. After its creates the service has exactly the
-- folders that it had and the desired ones, so none is ever lost.
pub root_folders_reconciled :
    (current desired : List RootFolderIr) (path : String)
    → let cs = diff_root_folders current desired empty_changes in
      (cs.updates ≡ [])
      × (cs.deletes ≡ [])
      × (contains (paths current ++ created_paths cs.creates) path
          ≡ (contains (paths current) path || contains (paths desired) path))
unfolding diff_root_folders
root_folders_reconciled current desired path = rw create_folders-missing (
  refl,
  refl,
  contains-append (paths current) (created_paths (missing (paths current) desired)) path
      ∙ contains-created_paths (paths current) desired path,
)

-- Once every desired path is among the current ones, the diff adds no change.
pub root_folders_stable :
    (current desired : List RootFolderIr) (changes : ChangeSet)
    → ((path : String)
        → contains (paths desired) path ≡ true
        → contains (paths current) path ≡ true)
    → diff_root_folders current desired changes ≡ changes
unfolding diff_root_folders
root_folders_stable current desired changes h =
    create_folders-missing (paths current) desired changes
    ∙ ground (arith, missing-eq-nil (paths current) desired h, append-nil changes.creates)
