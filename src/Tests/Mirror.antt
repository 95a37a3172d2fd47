-- ===== src/Tests/Mirror.antt =====
-- The mirror over a host of three files: the root /r, the file f in it, and a file /x elsewhere.
pub mod Listing
pub mod Removing
use fernfs.Prelude.{
  ℕ, zero, suc, ◌+◌, ◌-◌, ◌≤◌, ◌≡◌, refl, Bool, true, false, Option, none, some, List, [], ◌∷◌,
  ◌++◌, arith, ◌==◌, list_eq, equal_lists, if◌then◌else◌, length, take, drop,
}
use fernfs.Prelude.HashMap.{HashMap, get, remove, insert, HasUniqueKeys}
use fernfs.Io.{Bytes}
use fernfs.Xdr.Rpc.{default_auth_unix}
use fernfs.Xdr.Nfs3.{NfsResult, nfs3err_serverfault, nfs3err_notsupp, Fattr}
use fernfs.Vfs.{FileSystem, read_write, DirEntry}
use fernfs.Vfs.Listing.{readdir_index}
use fernfs.Vfs.Listing.Laws.{part}
use fernfs.Mirror.Lookup.Pages.{readdir_index-readdir}
use fernfs.Mirror.Attributes.{FileKind, Metadata, metadata_to_fattr3, attributes}
use fernfs.Mirror.Entry.{SymPath, FsEntry, new_entry, set_contains, is_directory}
use fernfs.Mirror.Map.{
  FsMap, inode_key, inode_beq, new_map, create_entry, remove_path, create_path, new_path,
  find_entry,
}
use fernfs.Mirror.Map.Consistent.{IsConsistent}
use fernfs.Mirror.Map.Consistent.Creation.{new_map-IsConsistent, create_entry-IsConsistent}
use fernfs.Mirror.Map.Names.{names, names-remove_path, names-create_entry}
use fernfs.Mirror.Host.{IoError, IoResult, Host, Interner, Mirror, push_path, ◌>>=◌}
use fernfs.Mirror.Refresh.{
  RefreshResult, sym_to_path, push_symbols, exists, existing, vanished, forget_paths, refresh_entry,
  refresh_aliases, refresh_present, refresh_same, update_fsmeta, refresh_dir_list, relist,
  list_children,
}
use fernfs.Mirror.Refresh.Vanished.{refresh_entry_vanished}
use fernfs.Mirror.Files.{read, readlink, check_access, getattr, fsstat, commit}
use fernfs.Mirror.Files.Reading.{read_lem}
use fernfs.Mirror.Lookup.{lookup, readdir, dir_entry, listing_of, all_entries}
use fernfs.Mirror.Quiet.{Leaves, KeepsHost}
use fernfs.Mirror.Quiet.Methods.{looking-KeepsHost}
use fernfs.Mirror.Changes
use fernfs.Mirror.Changes.Outside.{remove_absolute}
use fernfs.Mirror.Map.Observe.{id_of}
use fernfs.Mirror.Tree.{listed_children, delete_entry, starts_with, rename_path_prefix}
use fernfs.Mirror.Tree.Rename.{id_of-rename_path_prefix}

abbrev root_path : Bytes
root_path = 47 ∷ 114 ∷ []

abbrev file_path : Bytes
file_path = 47 ∷ 114 ∷ 47 ∷ 102 ∷ []

abbrev outside_path : Bytes
outside_path = 47 ∷ 120 ∷ []

abbrev metadata : FileKind → ℕ → ℕ → Metadata
metadata kind size ino = record {
  kind = kind;
  mode = 33188;
  nlink = 1;
  uid = 0;
  gid = 0;
  size = size;
  atime = 1;
  atime_nsec = 0;
  mtime = 2;
  mtime_nsec = 0;
  ctime = 3;
  ctime_nsec = 0;
  dev = 1;
  ino = ino;
}

abbrev pub root_metadata : Metadata
root_metadata = metadata FileKind.dir 4096 2

abbrev pub file_metadata : Metadata
file_metadata = metadata FileKind.file 3 7

-- A path's metadata and contents.
abbrev pub Disk : Type 0
Disk = HashMap Bytes (Metadata × Bytes)

abbrev disk : Disk
disk =
    (root_path, (root_metadata, []))
    ∷ (file_path, (file_metadata, 1 ∷ 2 ∷ 3 ∷ []))
    ∷ (outside_path, (metadata FileKind.file 1 9, 5 ∷ []))
    ∷ []

abbrev found : {A : Type 0} → (Metadata × Bytes → A) → Bytes → Disk → IoResult A
found f path h = elim (get h path) [
  | none ↦ IoResult.failed IoError.not_found
  | some x ↦ IoResult.done (f x)
]

abbrev refused : {A : Type 0} → Disk → IoResult A × Disk
refused h = (IoResult.failed IoError.permission_denied, h)

abbrev removed : Bytes → Disk → IoResult (Unit {0}) × Disk
removed path h = (IoResult.done tt, remove h path)

abbrev pub test_host : Host Disk
test_host = record {
  symlink_metadata = found (λ x. x.0);
  open_nofollow = found (λ x. x.0);
  file_len = found (λ x. length x.1);
  read_exact = λ path start size h. found (λ x. take size (drop start x.1)) path h;
  read_dir = λ path h. IoResult.done (IoResult.done (102 ∷ []) ∷ []);
  read_link = λ path h. IoResult.failed IoError.invalid_input;
  statvfs = λ path h. IoResult.failed IoError.other;
  now = λ h. record { seconds = 9; nseconds = 0 };
  create_dir = λ path h. refused h;
  create_file = λ path h. refused h;
  create_new = λ path h. refused h;
  symlink = λ target path h. refused h;
  remove_dir = removed;
  remove_file = removed;
  rename = λ from to h. refused h;
  hard_link = λ from to h. refused h;
  write_file = λ path offset payload h. refused h;
  set_len = λ path size h. refused h;
  set_permissions = λ path mode h. refused h;
  chown = λ path uid gid h. refused h;
  set_file_atime = λ path time h. refused h;
  set_file_mtime = λ path time h. refused h;
}

-- A symbol is the place of its name in the table.
abbrev symbol_of : List Bytes → Bytes → ℕ → Option ℕ
symbol_of [] name n = none
symbol_of (b ∷ table) name n =
    let rest = symbol_of table name (n + 1) in if equal_lists b name then some n else rest

abbrev name_at : List Bytes → ℕ → Bytes
name_at [] n = []
name_at (b ∷ table) zero = b
name_at (b ∷ table) (suc n) = name_at table n

abbrev pub test_interner : Interner (List Bytes)
test_interner = record {
  intern = λ name table. elim (symbol_of table name 0) [
    | none ↦ (length table, table ++ (name ∷ []))
    | some n ↦ (n, table)
  ];
  get = name_at;
  check_interned = λ table name. symbol_of table name 0;
}

-- A map of the root alone; and one that knows the file f, whose name is the symbol 0.
abbrev root_map : FsMap (List Bytes)
root_map = new_map root_path ((102 ∷ []) ∷ []) root_metadata

abbrev known_map : FsMap (List Bytes)
known_map = (create_entry (0 ∷ []) file_metadata root_map).1

abbrev pub mirror : Mirror (List Bytes) Disk
mirror = record { fsmap = known_map; host = disk }

abbrev file_entry : FsEntry
file_entry = new_entry (0 ∷ []) (metadata_to_fattr3 1 file_metadata)

abbrev root_entry : FsEntry
root_entry = new_entry [] (metadata_to_fattr3 1 root_metadata)

root_agrees : IsConsistent root_map
root_agrees = new_map-IsConsistent root_path ((102 ∷ []) ∷ []) root_metadata

create_entry-IsConsistent_example : IsConsistent known_map
create_entry-IsConsistent_example =
    create_entry-IsConsistent root_map root_agrees (0 ∷ []) file_metadata
      (unfold new_map in omega arith)

known_agrees : IsConsistent known_map
known_agrees =
    create_entry-IsConsistent root_map root_agrees (0 ∷ []) file_metadata
      (unfold new_map in omega arith)

names-create_entry_example : names known_map (0 ∷ []) ≡ (
    if equal_lists (0 ∷ []) (0 ∷ [])
    then some (inode_key file_metadata)
    else names root_map (0 ∷ []))
names-create_entry_example = names-create_entry root_map (0 ∷ []) file_metadata (0 ∷ []) root_agrees

names-remove_path_example :
    names (remove_path (0 ∷ []) known_map).1 []
    ≡ (if equal_lists (0 ∷ []) [] then none else names known_map [])
names-remove_path_example = names-remove_path known_map (0 ∷ []) [] known_agrees

stored_once : HasUniqueKeys known_map.path_to_id
unfolding new_map create_entry create_path new_path get insert remove equal_lists inode_beq
stored_once = ((refl, tt), (tt, tt))

id_of-rename_path_prefix_example :
    id_of (rename_path_prefix (0 ∷ []) (1 ∷ []) known_map) (1 ∷ []) ≡ (
      if starts_with (1 ∷ []) (1 ∷ [])
      then elim (id_of known_map (0 ∷ [])) [ none ↦ id_of known_map (1 ∷ []) | some id ↦ some id ]
      else if starts_with (1 ∷ []) (0 ∷ [])
      then none
      else id_of known_map (1 ∷ []))
id_of-rename_path_prefix_example =
    id_of-rename_path_prefix (0 ∷ []) (1 ∷ []) (unfold starts_with in refl)
      (unfold starts_with in refl) known_map (1 ∷ []) stored_once

known_file : find_entry 1 known_map ≡ NfsResult.ok file_entry
unfolding find_entry new_map create_entry create_path new_path get insert remove equal_lists
    inode_beq
known_file = refl

known_root : find_entry 0 known_map ≡ NfsResult.ok root_entry
unfolding find_entry new_map create_entry create_path new_path get insert remove equal_lists
    inode_beq
known_root = refl

path_of_file : sym_to_path test_interner test_host (0 ∷ []) known_map ≡ file_path
unfolding sym_to_path push_symbols push_path new_map create_entry create_path new_path get
    equal_lists inode_beq
path_of_file = refl

read_back :
    (start size : ℕ)
    → start + size ≤ 3
    → test_host.read_exact (sym_to_path test_interner test_host (0 ∷ []) known_map) start size disk
      ≡ IoResult.done (take size (drop start (1 ∷ 2 ∷ 3 ∷ [])))
unfolding get equal_lists
read_back start size h = rw path_of_file refl

measured :
    test_host.file_len (sym_to_path test_interner test_host (0 ∷ []) known_map) disk
    ≡ IoResult.done 3
unfolding get equal_lists
measured = rw path_of_file refl

read_lem_example :
    read test_interner test_host 1 1 9 mirror ≡ some (NfsResult.ok (2 ∷ 3 ∷ [], true), mirror)
unfolding new_entry
read_lem_example =
    read_lem test_interner test_host 1 1 9 mirror file_entry (1 ∷ 2 ∷ 3 ∷ []) known_file measured
      read_back (omega arith)

remove_absolute_example :
    Leaves
      (removed outside_path disk).1
      (Changes.remove test_interner test_host 4 0 outside_path mirror)
unfolding get equal_lists
remove_absolute_example =
    remove_absolute test_interner test_host 4 0 outside_path mirror root_entry
      (metadata FileKind.file 1 9) known_root refl refl refl

looking-KeepsHost_example :
    KeepsHost (lookup test_interner test_host 4 0 (102 ∷ []))
    × KeepsHost (getattr test_interner test_host 4 0)
    × KeepsHost (check_access test_interner test_host 0 default_auth_unix 1)
    × KeepsHost (read test_interner test_host 0 1 2)
    × KeepsHost (readdir test_interner test_host 4 0 1 2)
    × KeepsHost (readlink test_interner test_host 0)
    × KeepsHost (fsstat test_interner test_host 4 0)
    × KeepsHost (commit test_interner test_host 4 0 1 2)
looking-KeepsHost_example =
    looking-KeepsHost test_interner test_host 4 0 1 2 (102 ∷ []) default_auth_unix

-- The host without the file.
abbrev without_file : Mirror (List Bytes) Disk
without_file = record { fsmap = known_map; host = (root_path, (root_metadata, [])) ∷ [] }

none_left : existing test_interner test_host ((0 ∷ []) ∷ []) known_map without_file.host ≡ []
unfolding existing exists get equal_lists
none_left = rw path_of_file refl

refresh_entry_vanished_example :
    refresh_entry test_interner test_host 4 1 without_file
    ≡ some (
      NfsResult.ok RefreshResult.delete,
      record without_file { fsmap = forget_paths ((0 ∷ []) ∷ []) known_map },
    )
unfolding set_contains listed_children is_directory metadata_to_fattr3 attributes equal_lists
    new_entry
refresh_entry_vanished_example =
    refresh_entry_vanished test_interner test_host 3 1 without_file file_entry known_file refl
      none_left refl
