-- ===== src/Mirror/Refresh.antt =====
-- bin/fernfs/fs_map.rs: the map brought up to date with the host, one entry or one directory at a
-- time.
pub mod Vanished
use fernfs.Prelude.{
  ℕ, Bool, none, some, List, [], ◌∷◌, ◌++◌, ◌==◌, not, nat_eq, list_eq, if◌then◌else◌,
}
use fernfs.Prelude.HashMap.{get, insert, remove}
use fernfs.Io.{Bytes}
use fernfs.Xdr.Nfs3.{
  NfsResult, NfsStat, nfs3err_noent, nfs3err_acces, nfs3err_notdir, nfs3err_io, Fattr,
}
use fernfs.Xdr.Nfs3.Codec.{ftype_code}
use fernfs.Mirror.Attributes.{Metadata, metadata_to_fattr3, fattr3_differ}
use fernfs.Mirror.Entry.{Symbol, SymPath, Children, child_insert, has_child, FsEntry, is_directory}
use fernfs.Mirror.Map.{
  InodeKey, inode_eq, inode_key, FsMap, same_inode, modify_entry, set_fsmeta, remove_path,
  create_entry, find_entry,
}
use fernfs.Mirror.Tree.{delete_entry}
use fernfs.Mirror.Host.{
  IoError, IoResult, is_done, Host, Interner, push_path, M, pure, throw, ◌>>=◌, ◌>>◌, fsmap_now,
  change_map, on_map, may_overflow, look, as_io,
}

pub data RefreshResult : Type 0 where
  delete reload noop : RefreshResult

unfoldable pub set_children : Children → FsEntry → FsEntry
set_children cs e = record e { children = some cs; children_meta = e.fsmeta }

unfoldable pub set_aliases : SymPath → List SymPath → FsEntry → FsEntry
set_aliases name aliases e = record e { aliases = aliases; name = name }

unfoldable pub listing_error : IoError → NfsStat
listing_error IoError.not_found = nfs3err_noent
listing_error IoError.permission_denied = nfs3err_acces
listing_error IoError.not_a_directory = nfs3err_notdir
listing_error e = nfs3err_io

module _ {T H : Type 0} where
  unfoldable pub find : ℕ → M T H FsEntry
  find id s = some (find_entry id s.fsmap, s)

module _ {T : Type 0} where
  unfoldable pub remember_inode : ℕ → InodeKey → FsMap T → FsMap T
  remember_inode id k m = record m {
    id_to_inode = insert m.id_to_inode id k;
    inode_to_id = insert m.inode_to_id k id;
  }

  unfoldable pub forget_paths : List SymPath → FsMap T → FsMap T
  forget_paths [] m = m
  forget_paths (p ∷ ps) m = forget_paths ps (record m { path_to_id = remove m.path_to_id p })

  -- The children that are not among the new ones.
  unfoldable pub drop_children : SymPath → Children → Children → FsMap T → FsMap T
  drop_children name new [] m = m
  drop_children name new ((sym, id) ∷ old) m =
      drop_children name new old
        (if has_child sym new then m else (remove_path (name ++ (sym ∷ [])) m).1)

module _ {T H : Type 0} (interner : Interner T) (host : Host H) where
  unfoldable pub push_symbols : T → Bytes → SymPath → Bytes
  push_symbols table path [] = path
  push_symbols table path (sym ∷ syms) =
      push_symbols table (push_path path (interner.get table sym)) syms

  unfoldable pub sym_to_path : SymPath → FsMap T → Bytes
  sym_to_path syms m = push_symbols m.intern m.root syms

  -- `exists_no_traverse`
  unfoldable pub exists : Bytes → H → Bool
  exists path h = is_done (host.symlink_metadata path h)

  unfoldable pub intern_name : Bytes → FsMap T → Symbol × FsMap T
  intern_name name m =
      let (sym, table) = interner.intern name m.intern in (sym, record m { intern = table })

  unfoldable pub find_child : ℕ → Bytes → FsMap T → NfsResult ℕ
  find_child id filename m = elim (get m.id_to_path id) [
    | none ↦ NfsResult.err nfs3err_noent
    | some e ↦ elim (interner.check_interned m.intern filename) [
      | none ↦ NfsResult.err nfs3err_noent
      | some sym ↦ elim (get m.path_to_id (e.name ++ (sym ∷ []))) [
        | none ↦ NfsResult.err nfs3err_noent
        | some child ↦ NfsResult.ok child
      ]
    ]
  ]

  -- The paths that still exist on the host, in order, and those that do not.
  unfoldable pub existing : List SymPath → FsMap T → H → List SymPath
  existing [] m h = []
  existing (p ∷ ps) m h =
      let rest = existing ps m h in if exists (sym_to_path p m) h then p ∷ rest else rest

  unfoldable pub vanished : List SymPath → FsMap T → H → List SymPath
  vanished [] m h = []
  vanished (p ∷ ps) m h =
      let rest = vanished ps m h in if exists (sym_to_path p m) h then rest else p ∷ rest

module _ {T H : Type 0} (interner : Interner T) (host : Host H) (stack : ℕ) where
  unfoldable pub deleted : ℕ → M T H RefreshResult
  deleted id = do may_overflow (delete_entry stack id); pure RefreshResult.delete

  -- The attributes of an entry whose inode is still its own.
  unfoldable pub update_fsmeta : ℕ → FsEntry → Fattr → M T H RefreshResult
  update_fsmeta id e attr =
      let old = e.fsmeta in
      if not (fattr3_differ attr old)
      then pure RefreshResult.noop
      else if not (ftype_code old.ftype == ftype_code attr.ftype)
      then deleted id
      else (do change_map (modify_entry id (set_fsmeta attr)); pure RefreshResult.reload)

  -- The entry has the inode of `meta`.
  unfoldable pub refresh_same : ℕ → FsEntry → Metadata → M T H RefreshResult
  refresh_same id e meta = do
    change_map (remember_inode id (inode_key meta))
    update_fsmeta id e (metadata_to_fattr3 id meta)

  -- The entry under a path that exists.
  unfoldable pub refresh_present : ℕ → FsEntry → SymPath → List SymPath → M T H RefreshResult
  refresh_present id e primary aliases = do
    change_map (modify_entry id (set_aliases primary aliases))
    m ← fsmap_now
    meta ← look (host.symlink_metadata (sym_to_path interner host primary m)) as_io
    if same_inode (get m.id_to_inode id) (inode_key meta)
        then refresh_same id e meta
        else deleted id

  unfoldable pub refresh_aliases : ℕ → FsEntry → List SymPath → M T H RefreshResult
  refresh_aliases id e [] = deleted id
  refresh_aliases id e (primary ∷ aliases) = refresh_present id e primary (primary ∷ aliases)

  -- The root and the symbols of the map do not change while it looks for the paths.
  unfoldable pub refresh_entry : ℕ → M T H RefreshResult
  refresh_entry id s = elim (find_entry id s.fsmap) [
    | NfsResult.err stat ↦ some (NfsResult.err stat, s)
    | NfsResult.ok e ↦
        refresh_aliases id e (existing interner host e.aliases s.fsmap s.host) (record s {
          fsmap = forget_paths (vanished interner host e.aliases s.fsmap s.host) s.fsmap;
        })
  ]

  -- The names of a directory, entered into the map.
  unfoldable pub list_children : Bytes → SymPath → List (IoResult Bytes) → Children → M T H Children
  list_children path name [] new = pure new
  list_children path name (IoResult.failed e ∷ listing) new = throw (listing_error e)
  list_children path name (IoResult.done filename ∷ listing) new = do
    sym ← on_map (intern_name interner host filename)
    meta ← look (host.symlink_metadata (push_path path filename)) as_io
    id ← on_map (create_entry (name ++ (sym ∷ [])) meta)
    list_children path name listing (child_insert sym id new)

  unfoldable pub old_children : FsEntry → Children
  old_children e = elim e.children [ none ↦ [] | some cs ↦ cs ]

  unfoldable pub relist : ℕ → FsEntry → M T H (Unit {0})
  relist id e = do
    m ← fsmap_now
    listing ← look (host.read_dir (sym_to_path interner host e.name m)) listing_error
    new ← list_children (sym_to_path interner host e.name m) e.name listing []
    change_map (drop_children e.name new (old_children e))
    change_map (modify_entry id (set_children new))

  unfoldable pub refresh_dir_list : ℕ → M T H (Unit {0})
  refresh_dir_list id = do e ← find id; if is_directory e then relist id e else pure tt
