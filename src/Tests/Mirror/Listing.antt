-- ===== src/Tests/Mirror/Listing.antt =====
-- The mirror's listing of its root through the default `readdir_index`.
use fernfs.Prelude.{
  ◌≡◌, refl, true, false, Option, none, some, List, [], ◌∷◌, arith, list_eq, equal_lists,
}
use fernfs.Prelude.HashMap.{get, remove, insert}
use fernfs.Io.{Bytes}
use fernfs.Xdr.Nfs3.{NfsResult, nfs3err_serverfault, nfs3err_notsupp, Fattr}
use fernfs.Vfs.{FileSystem, read_write, DirEntry}
use fernfs.Vfs.Listing.{readdir_index}
use fernfs.Vfs.Listing.Laws.{part}
use fernfs.Mirror.Lookup.Pages.{readdir_index-readdir}
use fernfs.Mirror.Attributes.{metadata_to_fattr3, attributes, mode_unmask, fattr3_differ}
use fernfs.Mirror.Entry.{new_entry, is_directory, child_insert, has_child}
use fernfs.Mirror.Map.{
  inode_beq, modify_entry, set_fsmeta, new_map, create_entry, create_path, new_path, find_entry,
}
use fernfs.Mirror.Host.{Mirror, push_path, ◌>>=◌}
use fernfs.Mirror.Refresh.{
  RefreshResult, remember_inode, set_aliases, find, drop_children, old_children, intern_name,
  set_children, sym_to_path, push_symbols, exists, existing, vanished, forget_paths, refresh_entry,
  refresh_aliases, refresh_present, refresh_same, update_fsmeta, refresh_dir_list, relist,
  list_children,
}
use fernfs.Mirror.Files.{read, getattr}
use fernfs.Mirror.Lookup.{
  lookup, readdir, dir_entry, listing_of, all_entries, child_entries, parent_of, parent_path,
}
use fernfs.Mirror.Changes
use fernfs.Xdr.Nfs3.Codec.{ftype_code}
use fernfs.Tests.Mirror.{Disk, root_metadata, file_metadata, test_host, test_interner, mirror}

-- What a method answers; a panic would end the connection.
abbrev settled :
    {A : Type 0}
    → Option (NfsResult A × Mirror (List Bytes) Disk)
    → Mirror (List Bytes) Disk
    → NfsResult A × Mirror (List Bytes) Disk
settled none s = (NfsResult.err nfs3err_serverfault, s)
settled (some x) s = x

abbrev unused : {A : Type 0} → Mirror (List Bytes) Disk → NfsResult A × Mirror (List Bytes) Disk
unused s = (NfsResult.err nfs3err_notsupp, s)

-- The methods that list a directory.
abbrev mirror_fs : FileSystem (Mirror (List Bytes) Disk)
mirror_fs = record {
  generation = 5;
  capabilities = read_write;
  root_dir = 0;
  fsinfo_rtmax = 1_048_576;
  lookup = λ dir name s. settled (lookup test_interner test_host 4 dir name s) s;
  getattr = λ id s. settled (getattr test_interner test_host 4 id s) s;
  setattr = λ id a s. unused s;
  read = λ id offset count s. settled (read test_interner test_host id offset count s) s;
  write = λ id offset payload stable s. unused s;
  create = λ dir name a s. unused s;
  create_exclusive = λ dir name v s. unused s;
  mkdir = λ dir name s. unused s;
  remove = λ dir name s. settled (Changes.remove test_interner test_host 4 dir name s) s;
  rename = λ from name to name' s. unused s;
  symlink = λ dir name target a s. unused s;
  readlink = λ id s. unused s;
  link = λ id dir name s. unused s;
  mknod = λ dir name t d a s. unused s;
  commit = λ id offset count s. unused s;
  check_access = λ id auth mask s. unused s;
  readdir = λ id start count s. settled (readdir test_interner test_host 4 id start count s) s;
  readdir_index = λ id start count s. unused s;
  readdir_simple_index = λ id start count s. unused s;
  fsinfo = λ id s. unused s;
  fsstat = λ id s. unused s;
  pathconf_linkmax = 0;
  pathconf_name_max = 32768;
  pathconf_no_trunc = true;
  pathconf_chown_restricted = true;
  pathconf_case_insensitive = false;
  pathconf_case_preserving = true;
}

-- The mirror after the root was listed: `.`, `..` and the file.
abbrev root_attr : Fattr
root_attr = metadata_to_fattr3 0 root_metadata

abbrev all_of_root : List DirEntry
all_of_root =
    dir_entry 0 (46 ∷ []) root_attr
    ∷ dir_entry 0 (46 ∷ 46 ∷ []) root_attr
    ∷ dir_entry 1 (102 ∷ []) (metadata_to_fattr3 1 file_metadata)
    ∷ []

abbrev root_refreshed : Mirror (List Bytes) Disk
root_refreshed = (settled (refresh_entry test_interner test_host 4 0 mirror) mirror).1

abbrev root_listed : Mirror (List Bytes) Disk
root_listed = (settled (refresh_dir_list test_interner test_host 4 0 root_refreshed) mirror).1

refreshes :
    refresh_entry test_interner test_host 4 0 mirror
    ≡ some (NfsResult.ok RefreshResult.reload, root_refreshed)
unfolding find_entry new_map create_entry create_path new_path get insert remove equal_lists
    inode_beq refresh_entry refresh_aliases refresh_present refresh_same update_fsmeta existing
    vanished forget_paths ◌>>=◌ new_entry exists sym_to_path push_symbols modify_entry fattr3_differ
    metadata_to_fattr3 attributes ftype_code remember_inode is_directory set_fsmeta push_path
    set_aliases
refreshes = refl

lists :
    refresh_dir_list test_interner test_host 4 0 root_refreshed
    ≡ some (NfsResult.ok tt, root_listed)
unfolding find_entry new_map create_entry create_path new_path get insert remove equal_lists
    inode_beq refresh_entry refresh_aliases refresh_present refresh_same update_fsmeta existing
    vanished forget_paths ◌>>=◌ new_entry exists sym_to_path push_symbols modify_entry fattr3_differ
    metadata_to_fattr3 attributes ftype_code remember_inode is_directory set_fsmeta push_path
    set_aliases refresh_dir_list relist list_children find
lists = refl

listing : listing_of test_interner 0 root_listed.fsmap ≡ NfsResult.ok all_of_root
unfolding find_entry new_map create_entry create_path new_path get insert remove equal_lists
    inode_beq refresh_entry refresh_aliases refresh_present refresh_same update_fsmeta existing
    vanished forget_paths ◌>>=◌ new_entry exists sym_to_path push_symbols modify_entry fattr3_differ
    metadata_to_fattr3 attributes ftype_code remember_inode is_directory set_fsmeta push_path
    set_aliases refresh_dir_list relist list_children find listing_of all_entries drop_children
    old_children mode_unmask child_insert has_child child_entries dir_entry parent_of parent_path
    intern_name set_children
listing = refl

readdir_index-readdir_example :
    readdir_index mirror_fs 0 1 2 mirror ≡ (NfsResult.ok (part all_of_root 1 2), root_listed)
readdir_index-readdir_example =
    readdir_index-readdir test_interner test_host 4 mirror_fs all_of_root 0 1 2 mirror
      root_refreshed root_listed RefreshResult.reload (λ n x t h. rw h refl) refreshes lists listing
      (omega arith) (omega arith)
