-- ===== src/Mirror/Changes.antt =====
-- bin/fernfs/fs.rs: removing and renaming.
pub mod Outside
use fernfs.Prelude.{
  ℕ, Bool, false, ◌&&◌, ◌||◌, Option, none, some, [], ◌∷◌, ◌++◌, ◌==◌, nat_eq, list_eq,
  if◌then◌else◌,
}
use fernfs.Prelude.HashMap.{get}
use fernfs.Io.{Bytes}
use fernfs.Xdr.Nfs3.{nfs3err_noent}
use fernfs.Mirror.Attributes.{Metadata, is_dir}
use fernfs.Mirror.Entry.{Symbol, SymPath, child_remove, FsEntry, is_directory}
use fernfs.Mirror.Map.{FsMap, modify_entry, remove_path}
use fernfs.Mirror.Tree.{rename_path_prefix, remove_path_tree}
use fernfs.Mirror.Host.{
  IoResult, Host, Interner, M, pure, throw, ◌>>=◌, ◌>>◌, attempt, fsmap_now, change_map, on_map,
  may_overflow, peek, act, as_io,
}
use fernfs.Mirror.PathBuf.{same_path}
use fernfs.Mirror.Refresh.{intern_name, refresh_entry}
use fernfs.Mirror.Files.{path_of, place_of, exists_now}
use fernfs.Mirror.Objects.{with_child}

unfoldable pub without_child : Symbol → FsEntry → FsEntry
without_child sym e = record e {
  children = elim e.children [ none ↦ none | some children ↦ some (child_remove sym children) ];
}

-- Whether two paths lead to one inode.
unfoldable pub same_file : IoResult Metadata → IoResult Metadata → Bool
same_file (IoResult.failed e) to = false
same_file (IoResult.done a) (IoResult.failed e) = false
same_file (IoResult.done a) (IoResult.done b) = a.dev == b.dev && a.ino == b.ino

module _ {T : Type 0} (stack : ℕ) where
  -- What the map has under the new name goes, a directory with all below it.
  unfoldable pub replace_target : SymPath → FsMap T → Option (FsMap T)
  replace_target to m = elim (get m.path_to_id to) [
    | none ↦ some m
    | some id ↦ elim (get m.id_to_path id) [
      | none ↦ some (remove_path to m).1
      | some e ↦
          if is_directory e then remove_path_tree stack to id m else some (remove_path to m).1
    ]
  ]

module _ {T : Type 0} where
  unfoldable pub move_child : ℕ → Symbol → ℕ → Symbol → Option ℕ → FsMap T → FsMap T
  move_child from_dirid oldsym to_dirid newsym none m =
      modify_entry from_dirid (without_child oldsym) m
  move_child from_dirid oldsym to_dirid newsym (some id) m =
      modify_entry to_dirid (with_child newsym id)
        (modify_entry from_dirid (without_child oldsym) m)

module _ {T H : Type 0} (stack : ℕ) where
  -- The map's part of a rename, if the map knows the old name.
  unfoldable pub rename_in_map : ℕ → Symbol → SymPath → ℕ → Symbol → SymPath → M T H (Unit {0})
  rename_in_map from_dirid oldsym from to_dirid newsym to = do
    m ← fsmap_now
    elim (get m.path_to_id from) [
      | none ↦ pure tt
      | some id ↦ do
        may_overflow (replace_target stack to)
        change_map (rename_path_prefix from to)
        moved ← fsmap_now
        change_map (move_child from_dirid oldsym to_dirid newsym (get moved.path_to_id to))
    ]

module _ {T H : Type 0} (interner : Interner T) (host : Host H) (stack : ℕ) where
  unfoldable pub remove_found : ℕ → Bytes → FsEntry → Bytes → Metadata → M T H (Unit {0})
  remove_found dirid name e path meta = do
    act (if is_dir meta.kind then host.remove_dir path else host.remove_file path) as_io
    sym ← on_map (intern_name interner host name)
    change_map (λ m. (remove_path (e.name ++ (sym ∷ [])) m).1)
    change_map (modify_entry dirid (without_child sym))
    ignored ← attempt (refresh_entry interner host stack dirid)
    pure tt

  unfoldable pub remove : ℕ → Bytes → M T H (Unit {0})
  remove dirid name = do
    (e, path) ← place_of interner host dirid name
    found ← peek (host.symlink_metadata path)
    elim found [
      | IoResult.failed err ↦ throw nfs3err_noent
      | IoResult.done meta ↦ remove_found dirid name e path meta
    ]

  unfoldable pub rename_found :
      ℕ → Bytes → FsEntry → Bytes → ℕ → Bytes → FsEntry → Bytes → M T H (Unit {0})
  rename_found from_dirid from_name from_e from_path to_dirid to_name to_e to_path = do
    act (host.rename from_path to_path) as_io
    oldsym ← on_map (intern_name interner host from_name)
    newsym ← on_map (intern_name interner host to_name)
    rename_in_map stack from_dirid oldsym (from_e.name ++ (oldsym ∷ [])) to_dirid newsym
        (to_e.name ++ (newsym ∷ []))
    refreshed ← attempt (refresh_entry interner host stack from_dirid)
    if to_dirid == from_dirid
        then pure tt
        else (do again ← attempt (refresh_entry interner host stack to_dirid); pure tt)

  unfoldable pub rename : ℕ → Bytes → ℕ → Bytes → M T H (Unit {0})
  rename from_dirid from_name to_dirid to_name = do
    (from_e, from_path) ← place_of interner host from_dirid from_name
    to_dir ← path_of interner host to_dirid
    (to_e, to_path) ← place_of interner host to_dirid to_name
    dir_there ← exists_now interner host to_dir
    from_there ← exists_now interner host from_path
    from_meta ← peek (host.symlink_metadata from_path)
    to_meta ← peek (host.symlink_metadata to_path)
    if dir_there && from_there
        then (if same_path from_path to_path || same_file from_meta to_meta
            then pure tt
            else rename_found from_dirid from_name from_e from_path to_dirid to_name to_e to_path)
        else throw nfs3err_noent
