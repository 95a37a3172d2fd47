-- ===== src/Mirror/Objects.antt =====
-- bin/fernfs/fs.rs and create_fs_object.rs: the making of an object on the host, and its place in the
-- map.
use fernfs.Prelude.{
  ℕ, Bool, false, Option, none, some, [], ◌∷◌, ◌++◌, list_eq, equal_lists, if◌then◌else◌,
}
use fernfs.Io.{Bytes}
use fernfs.Xdr.Nfs3.{NfsResult, nfs3err_exist, nfs3err_io, Fattr, Sattr}
use fernfs.Mirror.Attributes.{Metadata, metadata_to_fattr3}
use fernfs.Mirror.Entry.{Symbol, child_insert, FsEntry}
use fernfs.Mirror.Map.{FsMap, modify_entry, create_entry, find_entry}
use fernfs.Mirror.Host.{
  IoError, IoResult, Host, Interner, M, pure, throw, ◌>>=◌, ◌>>◌, attempt, fsmap_now, change_map,
  on_map, look, act, act_kind, as_io,
}
use fernfs.Mirror.Refresh.{find, intern_name, find_child}
use fernfs.Mirror.Files.{exists_now}
use fernfs.Mirror.Setattr.{file_setattr}

-- `CreateFSObject`
pub data CreateFsObject : Type 0 where
  directory : CreateFsObject
  file : Sattr → CreateFsObject
  exclusive : Bytes → CreateFsObject
  symlink : Sattr → Bytes → CreateFsObject

unfoldable pub with_child : Symbol → ℕ → FsEntry → FsEntry
with_child sym id e = record e {
  children = elim e.children [ none ↦ none | some children ↦ some (child_insert sym id children) ];
}

unfoldable pub set_verifier : Bytes → FsEntry → FsEntry
set_verifier verifier e = record e { exclusive_verifier = some verifier }

abbrev pub same_verifier : Bytes → Option Bytes → Bool
same_verifier verifier none = false
same_verifier verifier (some v) = equal_lists v verifier

module _ {T H : Type 0} (interner : Interner T) (host : Host H) where
  -- A child and its entry.
  unfoldable pub child_entry : ℕ → Bytes → FsMap T → Option (ℕ × FsEntry)
  child_entry dirid name m = elim (find_child interner host dirid name m) [
    | NfsResult.err e ↦ none
    | NfsResult.ok id ↦ elim (find_entry id m) [
      | NfsResult.err e ↦ none
      | NfsResult.ok entry ↦ some (id, entry)
    ]
  ]

  unfoldable pub check_exclusive_existing : ℕ → Bytes → Bytes → Bytes → M T H (Option (ℕ × Fattr))
  check_exclusive_existing dirid name verifier path = do
    m ← fsmap_now
    elim (child_entry dirid name m) [
      | none ↦ pure none
      | some (id, e) ↦
          if same_verifier verifier e.exclusive_verifier
          then (do
            meta ← look (host.symlink_metadata path) as_io
            pure (some (id, metadata_to_fattr3 id meta)))
          else pure none
    ]

  -- An object that is there already, which may be the one of an earlier call.
  unfoldable pub existing_object : ℕ → Bytes → Bytes → Bytes → M T H (Option (ℕ × Fattr))
  existing_object dirid name verifier path = do
    existing ← check_exclusive_existing dirid name verifier path
    elim existing [ none ↦ throw nfs3err_exist | some found ↦ pure (some found) ]

  unfoldable pub created_new :
      ℕ → Bytes → Bytes → Bytes → IoResult (Unit {0}) → M T H (Option (ℕ × Fattr))
  created_new dirid name verifier path (IoResult.done r) = pure none
  created_new dirid name verifier path (IoResult.failed IoError.already_exists) =
      existing_object dirid name verifier path
  created_new dirid name verifier path (IoResult.failed e) = throw nfs3err_io

  -- The object on the host: `some` is the answer already, `none` that it was created.
  unfoldable pub make_object : ℕ → Bytes → Bytes → CreateFsObject → M T H (Option (ℕ × Fattr))
  make_object dirid name path CreateFsObject.directory = do
    there ← exists_now interner host path
    if there then throw nfs3err_exist else (do act (host.create_dir path) as_io; pure none)
  make_object dirid name path (CreateFsObject.file attrs) = do
    act (host.create_file path) as_io
    ignored ← attempt (file_setattr host path attrs)
    pure none
  make_object dirid name path (CreateFsObject.exclusive verifier) = do
    there ← exists_now interner host path
    if there
        then existing_object dirid name verifier path
        else (do r ← act_kind (host.create_new path); created_new dirid name verifier path r)
  make_object dirid name path (CreateFsObject.symlink attrs target) = do
    there ← exists_now interner host path
    if there then throw nfs3err_exist else (do act (host.symlink target path) as_io; pure none)

  -- A new object's path and entry, and its place among the directory's children.
  unfoldable pub enter_child : ℕ → Bytes → FsEntry → Bytes → M T H (ℕ × Metadata)
  enter_child dirid name e path = do
    sym ← on_map (intern_name interner host name)
    meta ← look (host.symlink_metadata path) as_io
    id ← on_map (create_entry (e.name ++ (sym ∷ [])) meta)
    d ← find dirid
    change_map (modify_entry dirid (with_child sym id))
    pure (id, meta)

module _ {T H : Type 0} where
  unfoldable pub keep_verifier : ℕ → CreateFsObject → M T H (Unit {0})
  keep_verifier id CreateFsObject.directory = pure tt
  keep_verifier id (CreateFsObject.file attrs) = pure tt
  keep_verifier id (CreateFsObject.exclusive verifier) =
      change_map (modify_entry id (set_verifier verifier))
  keep_verifier id (CreateFsObject.symlink attrs target) = pure tt
