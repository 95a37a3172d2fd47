-- ===== src/Mirror/Tree.antt =====
-- bin/fernfs/fs_map.rs: the changes of whole subtrees.
pub mod Prefixes
pub mod Rename
pub mod Removal
use fernfs.Prelude.{
  ℕ, zero, suc, Bool, true, false, ◌&&◌, Option, none, some, List, [], ◌∷◌, ◌++◌, length, drop,
  nat_eq, list_eq, ◌==◌, equal_lists, if◌then◌else◌,
}
use fernfs.Prelude.HashMap.{HashMap, get, insert, remove}
use fernfs.Mirror.Entry.{
  SymPath, set_insert, set_remove, set_contains, Children, FsEntry, is_directory,
}
use fernfs.Mirror.Map.{FsMap, modify_entry, remove_path}

-- `starts_with`
unfoldable pub starts_with : SymPath → SymPath → Bool
starts_with path [] = true
starts_with [] (x ∷ prefix) = false
starts_with (y ∷ path) (x ∷ prefix) = y == x && starts_with path prefix

-- A path to be moved, where to, and its identifier.
abbrev pub Update : Type 0
Update = SymPath × SymPath × ℕ

unfoldable pub updates_of : SymPath → SymPath → HashMap SymPath ℕ → List Update
updates_of from to [] = []
updates_of from to ((path, fileid) ∷ paths) =
    let rest = updates_of from to paths in
    if starts_with path from then (path, to ++ drop (length from) path, fileid) ∷ rest else rest

unfoldable pub move_alias : SymPath → SymPath → FsEntry → FsEntry
move_alias old new e = record e {
  aliases =
      if set_contains old e.aliases then set_insert new (set_remove old e.aliases) else e.aliases;
  name = if equal_lists e.name old then new else e.name;
}

unfoldable pub listed_children : FsEntry → Children
listed_children e = if is_directory e then elim e.children [ none ↦ [] | some cs ↦ cs ] else []

module _ {T : Type 0} where
  unfoldable pub move_path : Update → FsMap T → FsMap T
  move_path (old, new, fileid) m =
      modify_entry fileid (move_alias old new)
        (record m { path_to_id = insert (remove m.path_to_id old) new fileid })

  unfoldable pub move_paths : List Update → FsMap T → FsMap T
  move_paths [] m = m
  move_paths (u ∷ us) m = move_paths us (move_path u m)

  unfoldable pub rename_path_prefix : SymPath → SymPath → FsMap T → FsMap T
  rename_path_prefix from to m =
      if equal_lists from to then m else move_paths (updates_of from to m.path_to_id) m

  -- One child of a directory; `rec` is the recursive call.
  unfoldable pub remove_child_tree :
      (SymPath → ℕ → FsMap T → Option (FsMap T)) → SymPath → ℕ → FsMap T → Option (FsMap T)
  remove_child_tree rec path id m = elim (get m.id_to_path id) [
    | none ↦ some (remove_path path m).1
    | some e ↦ if is_directory e then rec path id m else some (remove_path path m).1
  ]

  unfoldable pub remove_children :
      (SymPath → ℕ → FsMap T → Option (FsMap T)) → SymPath → Children → FsMap T → Option (FsMap T)
  remove_children rec path [] m = some m
  remove_children rec path ((name, id) ∷ children) m =
      elim (remove_child_tree rec (path ++ (name ∷ [])) id m) [
        | none ↦ none
        | some m' ↦ remove_children rec path children m'
      ]

  -- The first argument is how deep the recursion may go; it is a stack overflow where that is
  -- exceeded.
  unfoldable pub remove_path_tree : ℕ → SymPath → ℕ → FsMap T → Option (FsMap T)
  remove_path_tree zero path id m = none
  remove_path_tree (suc stack) path id m = elim (get m.id_to_path id) [
    | none ↦ some m
    | some e ↦ elim (remove_children (remove_path_tree stack) path (listed_children e) m) [
      | none ↦ none
      | some m' ↦ some (remove_path path m').1
    ]
  ]

  unfoldable pub delete_entry : ℕ → ℕ → FsMap T → Option (FsMap T)
  delete_entry stack id m = elim (get m.id_to_path id) [
    | none ↦ some m
    | some e ↦ remove_path_tree stack e.name id m
  ]
