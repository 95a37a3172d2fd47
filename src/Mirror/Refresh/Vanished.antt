-- ===== src/Mirror/Refresh/Vanished.antt =====
-- bin/fernfs/fs_map.rs: the refresh of an entry all of whose paths have gone from the host.
use fernfs.Prelude.{
  ℕ, suc, ◌≡◌, refl, ◌∙◌, true, none, some, List, [], ◌∷◌, arith, nat_eq, list_eq, equal_lists_iff,
  if◌then◌else◌,
}
use fernfs.Prelude.HashMap.{get, remove, get-remove}
use fernfs.Xdr.Nfs3.{NfsResult}
use fernfs.Mirror.Entry.{SymPath, set_contains, FsEntry}
use fernfs.Mirror.Map.{FsMap, remove_path, find_entry}
use fernfs.Mirror.Tree.{listed_children, remove_children, remove_path_tree, delete_entry}
use fernfs.Mirror.Host.{Host, Interner, Mirror, ◌>>=◌, may_overflow}
use fernfs.Mirror.Refresh.{
  RefreshResult, forget_paths, existing, vanished, deleted, refresh_aliases, refresh_entry,
}

module _ {T : Type 0} where
  forget_paths_frame :
      (ps : List SymPath) (m : FsMap T) → (forget_paths ps m).id_to_path ≡ m.id_to_path
  unfolding forget_paths
  forget_paths_frame [] m = refl
  forget_paths_frame (p ∷ ps) m =
      forget_paths_frame ps (record m { path_to_id = remove m.path_to_id p })

  get-forget_paths :
      (ps : List SymPath) (m : FsMap T) (q : SymPath)
      → get (forget_paths ps m).path_to_id q
        ≡ (if set_contains q ps then none else get m.path_to_id q)
  unfolding forget_paths set_contains
  get-forget_paths [] m q = refl
  get-forget_paths (p ∷ ps) m q =
      get-forget_paths ps (record m { path_to_id = remove m.path_to_id p }) q
      ∙ rw (get-remove m.path_to_id p q) (ground (arith, equal_lists_iff p q, equal_lists_iff q p))

  found_entry :
      (id : ℕ) (m : FsMap T) (e : FsEntry)
      → find_entry id m ≡ NfsResult.ok e
      → get m.id_to_path id ≡ some e
  unfolding find_entry
  found_entry id m e h = ground arith

module _ {T H : Type 0} (interner : Interner T) (host : Host H) where
  all_vanished :
      (ps : List SymPath) (m : FsMap T) (h : H)
      → existing interner host ps m h ≡ []
      → vanished interner host ps m h ≡ ps
  unfolding existing vanished
  all_vanished [] m h u = refl
  all_vanished (p ∷ ps) m h u = ground (arith, all_vanished ps m h)

module _ {T H : Type 0} (interner : Interner T) (host : Host H) (stack id : ℕ) (s : Mirror T H)
    (e : FsEntry) where
  -- If none of the paths of an entry is left on the host, and the map lists no children of it, its
  -- refresh answers that it is deleted; but only its paths are forgotten, and the identifier keeps
  -- its entry and its inode.
  pub refresh_entry_vanished :
      find_entry id s.fsmap ≡ NfsResult.ok e
      → set_contains e.name e.aliases ≡ true
      → existing interner host e.aliases s.fsmap s.host ≡ []
      → listed_children e ≡ []
      → refresh_entry interner host (suc stack) id s
        ≡ some
            (NfsResult.ok RefreshResult.delete, record s { fsmap = forget_paths e.aliases s.fsmap })
  unfolding ◌>>=◌ refresh_entry refresh_aliases deleted delete_entry remove_path_tree
      remove_children remove_path
  refresh_entry_vanished found named gone leaf =
      let m = forget_paths e.aliases s.fsmap in
      let entry : get s.fsmap.id_to_path id ≡ some e = found_entry id s.fsmap e found in
      let kept : get m.id_to_path id ≡ some e = rw (forget_paths_frame e.aliases s.fsmap) entry in
      let forgotten : get m.path_to_id e.name ≡ none =
        get-forget_paths e.aliases s.fsmap e.name ∙ rw named refl in
      let nothing : delete_entry (suc stack) id m ≡ some m =
        rw (delete_entry, kept, remove_path_tree, kept, leaf, remove_path, forgotten) refl in
      rw (refresh_entry, found, gone, all_vanished interner host e.aliases s.fsmap s.host gone)
        (rw (refresh_aliases, deleted, ◌>>=◌, may_overflow, nothing) refl)
