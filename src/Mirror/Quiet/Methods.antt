-- ===== src/Mirror/Quiet/Methods.antt =====
-- bin/fernfs: the refreshes, and the methods that look.
use fernfs.Prelude.{ℕ, refl, ◌≡◌, List, [], ◌∷◌, Option-cases, inl, inr, ◌⊎◌}
use fernfs.Io.{Bytes}
use fernfs.Xdr.Nfs3.{NfsResult, NfsStat, Fattr}
use fernfs.Xdr.Rpc.{AuthUnix}
use fernfs.Mirror.Attributes.{Metadata}
use fernfs.Mirror.Entry.{SymPath, Children, FsEntry}
use fernfs.Mirror.Map.{find_entry}
use fernfs.Mirror.Host.{IoError, IoResult, Host, Interner}
use fernfs.Mirror.Refresh.{
  deleted, update_fsmeta, refresh_same, refresh_present, refresh_aliases, refresh_entry,
  list_children, relist, refresh_dir_list,
}
use fernfs.Mirror.Files.{
  path_of, place_of, exists_now, read_clamped, read, opened_metadata, check_access, readlink,
  getattr, commit, fsstat, read_window,
}
use fernfs.Mirror.Lookup.{
  confirmed, known_child, find_again, lookup_host, lookup_known, lookup, readdir,
}
use fernfs.Mirror.Quiet.{
  KeepsHost, bind-KeepsHost, if-KeepsHost, pure-KeepsHost, throw-KeepsHost, look-KeepsHost,
  peek-KeepsHost, on_map-KeepsHost, attempt-KeepsHost, fsmap_now-KeepsHost, change_map-KeepsHost,
  may_overflow-KeepsHost, find-KeepsHost,
}

NfsResult-cases :
    {A : Type 0} (r : NfsResult A)
    → ((e : NfsStat) × (r ≡ NfsResult.err e)) ⊎ ((a : A) × (r ≡ NfsResult.ok a))
NfsResult-cases (NfsResult.ok a) = inr (a, refl)
NfsResult-cases (NfsResult.err e) = inl (e, refl)

module _ {T H : Type 0} (interner : Interner T) (host : Host H) where
  path_of-KeepsHost : (id : ℕ) → KeepsHost (path_of interner host id)
  unfolding path_of
  path_of-KeepsHost id =
      bind-KeepsHost (find-KeepsHost id)
        λ e. bind-KeepsHost fsmap_now-KeepsHost λ m. pure-KeepsHost _

  pub place_of-KeepsHost : (id : ℕ) (name : Bytes) → KeepsHost (place_of interner host id name)
  unfolding place_of
  place_of-KeepsHost id name =
      bind-KeepsHost (find-KeepsHost id)
        λ e. bind-KeepsHost fsmap_now-KeepsHost λ m. pure-KeepsHost _

  exists_now-KeepsHost : (path : Bytes) → KeepsHost (exists_now interner host path)
  unfolding exists_now
  exists_now-KeepsHost path = record { leaves = λ s. refl }

module _ {T H : Type 0} where
  confirmed-KeepsHost : (id : ℕ) (r : NfsResult ℕ) → KeepsHost (confirmed {T = T} {H = H} id r)
  unfolding confirmed
  confirmed-KeepsHost id (NfsResult.ok again) = pure-KeepsHost _
  confirmed-KeepsHost id (NfsResult.err e) = throw-KeepsHost _

module _ {T H : Type 0} (interner : Interner T) (host : Host H) (stack : ℕ) where
  deleted-KeepsHost : (id : ℕ) → KeepsHost (deleted interner host stack id)
  unfolding deleted
  deleted-KeepsHost id = bind-KeepsHost (may_overflow-KeepsHost _) λ u. pure-KeepsHost _

  update_fsmeta-KeepsHost :
      (id : ℕ) (e : FsEntry) (attr : Fattr)
      → KeepsHost (update_fsmeta interner host stack id e attr)
  unfolding update_fsmeta
  update_fsmeta-KeepsHost id e attr = if-KeepsHost _ (pure-KeepsHost _) (
      if-KeepsHost _ (deleted-KeepsHost id)
        (bind-KeepsHost (change_map-KeepsHost _) λ u. pure-KeepsHost _))

  refresh_present-KeepsHost :
      (id : ℕ) (e : FsEntry) (p : SymPath) (ps : List SymPath)
      → KeepsHost (refresh_present interner host stack id e p ps)
  unfolding refresh_present refresh_same
  refresh_present-KeepsHost id e p ps = bind-KeepsHost (change_map-KeepsHost _) λ u.
      bind-KeepsHost fsmap_now-KeepsHost λ m. bind-KeepsHost (look-KeepsHost _ _) λ meta.
        if-KeepsHost _ (bind-KeepsHost (change_map-KeepsHost _) λ v. update_fsmeta-KeepsHost id e _)
          (deleted-KeepsHost id)

  refresh_aliases-KeepsHost :
      (id : ℕ) (e : FsEntry) (ps : List SymPath)
      → KeepsHost (refresh_aliases interner host stack id e ps)
  unfolding refresh_aliases
  refresh_aliases-KeepsHost id e [] = deleted-KeepsHost id
  refresh_aliases-KeepsHost id e (p ∷ ps) = refresh_present-KeepsHost id e p (p ∷ ps)

  pub refresh_entry-KeepsHost : (id : ℕ) → KeepsHost (refresh_entry interner host stack id)
  unfolding refresh_entry
  refresh_entry-KeepsHost id = record {
    leaves = λ s. elim (NfsResult-cases (find_entry id s.fsmap)) [
      | inl (stat, h) ↦ rw (refresh_entry, h) refl
      | inr (e, h) ↦ rw (refresh_entry, h) ((refresh_aliases-KeepsHost id e _).leaves _)
    ];
  }

  list_children-KeepsHost :
      (path : Bytes) (name : SymPath) (listing : List (IoResult Bytes)) (new : Children)
      → KeepsHost (list_children interner host stack path name listing new)
  unfolding list_children
  list_children-KeepsHost path name [] new = pure-KeepsHost _
  list_children-KeepsHost path name (IoResult.failed e ∷ listing) new = throw-KeepsHost _
  list_children-KeepsHost path name (IoResult.done filename ∷ listing) new =
      bind-KeepsHost (on_map-KeepsHost _) λ sym. bind-KeepsHost (look-KeepsHost _ _) λ meta.
        bind-KeepsHost (on_map-KeepsHost _) λ id. list_children-KeepsHost path name listing _

  refresh_dir_list-KeepsHost : (id : ℕ) → KeepsHost (refresh_dir_list interner host stack id)
  unfolding refresh_dir_list relist
  refresh_dir_list-KeepsHost id = bind-KeepsHost (find-KeepsHost id) λ e.
      if-KeepsHost _
        (bind-KeepsHost fsmap_now-KeepsHost λ m. bind-KeepsHost (look-KeepsHost _ _) λ listing.
          bind-KeepsHost (list_children-KeepsHost _ _ _ _)
            λ new. bind-KeepsHost (change_map-KeepsHost _) λ u. change_map-KeepsHost _)
        (pure-KeepsHost _)

  getattr-KeepsHost : (id : ℕ) → KeepsHost (getattr interner host stack id)
  unfolding getattr
  getattr-KeepsHost id = bind-KeepsHost (refresh_entry-KeepsHost id) λ r.
      if-KeepsHost _ (throw-KeepsHost _) (bind-KeepsHost (find-KeepsHost id) λ e. pure-KeepsHost _)

  find_again-KeepsHost :
      (dirid : ℕ) (name : Bytes) → KeepsHost (find_again interner host dirid name)
  unfolding find_again
  find_again-KeepsHost dirid name = record { leaves = λ s. refl }

  lookup_host-KeepsHost :
      (dirid : ℕ) (name : Bytes) → KeepsHost (lookup_host interner host stack dirid name)
  unfolding lookup_host
  lookup_host-KeepsHost dirid name =
      bind-KeepsHost (place_of-KeepsHost interner host dirid name) λ (e, path).
        bind-KeepsHost (exists_now-KeepsHost interner host path) λ there.
          if-KeepsHost _
            (bind-KeepsHost (refresh_entry-KeepsHost dirid) λ r.
              if-KeepsHost _ (throw-KeepsHost _) (
                bind-KeepsHost (refresh_dir_list-KeepsHost dirid)
                  λ u. find_again-KeepsHost dirid name))
            (throw-KeepsHost _)

  lookup_known-KeepsHost :
      (dirid : ℕ) (name : Bytes) (id : ℕ)
      → KeepsHost (lookup_known interner host stack dirid name id)
  unfolding lookup_known
  lookup_known-KeepsHost dirid name id = bind-KeepsHost (refresh_entry-KeepsHost id) λ r.
      bind-KeepsHost fsmap_now-KeepsHost
        λ m. if-KeepsHost _ (lookup_host-KeepsHost dirid name) (confirmed-KeepsHost id _)

  lookup-KeepsHost : (dirid : ℕ) (name : Bytes) → KeepsHost (lookup interner host stack dirid name)
  unfolding lookup
  lookup-KeepsHost dirid name = bind-KeepsHost fsmap_now-KeepsHost λ m.
      elim (Option-cases (known_child interner host dirid name m)) [
        | inl h ↦ rw h (lookup_host-KeepsHost dirid name)
        | inr (id, h) ↦ rw h (lookup_known-KeepsHost dirid name id)
      ]

  readdir-KeepsHost :
      (dirid start max : ℕ) → KeepsHost (readdir interner host stack dirid start max)
  unfolding readdir
  readdir-KeepsHost dirid start max = bind-KeepsHost (refresh_entry-KeepsHost dirid) λ r.
      bind-KeepsHost (refresh_dir_list-KeepsHost dirid)
        λ u. bind-KeepsHost fsmap_now-KeepsHost λ m. record { leaves = λ s. refl }

  fsstat-KeepsHost : (id : ℕ) → KeepsHost (fsstat interner host stack id)
  unfolding fsstat
  fsstat-KeepsHost id = bind-KeepsHost (attempt-KeepsHost (getattr-KeepsHost id)) λ attr.
      bind-KeepsHost fsmap_now-KeepsHost λ m.
        if-KeepsHost _ (throw-KeepsHost _)
          (bind-KeepsHost (look-KeepsHost _ _) λ stats. pure-KeepsHost _)

  read-KeepsHost : (id offset count : ℕ) → KeepsHost (read interner host id offset count)
  unfolding read read_clamped
  read-KeepsHost id offset count = bind-KeepsHost (path_of-KeepsHost interner host id) λ path.
      bind-KeepsHost (look-KeepsHost _ _) λ len.
        elim (Option-cases (read_window len offset count)) [
          | inl h ↦ rw (read_clamped, h) (record { leaves = λ s. tt })
          | inr (w, h) ↦
              rw (read_clamped, h) (bind-KeepsHost (look-KeepsHost _ _) λ buf. pure-KeepsHost _)
        ]

  readlink-KeepsHost : (id : ℕ) → KeepsHost (readlink interner host id)
  unfolding readlink
  readlink-KeepsHost id =
      bind-KeepsHost (path_of-KeepsHost interner host id) λ path. look-KeepsHost _ _

  opened_metadata-KeepsHost :
      (path : Bytes) (opened : IoResult Metadata)
      → KeepsHost (opened_metadata interner host path opened)
  unfolding opened_metadata
  opened_metadata-KeepsHost path (IoResult.done meta) = pure-KeepsHost _
  opened_metadata-KeepsHost path (IoResult.failed IoError.symlink_loop) = look-KeepsHost _ _
  opened_metadata-KeepsHost path (IoResult.failed IoError.not_found) = throw-KeepsHost _
  opened_metadata-KeepsHost path (IoResult.failed IoError.permission_denied) = throw-KeepsHost _
  opened_metadata-KeepsHost path (IoResult.failed IoError.not_a_directory) = throw-KeepsHost _
  opened_metadata-KeepsHost path (IoResult.failed IoError.already_exists) = throw-KeepsHost _
  opened_metadata-KeepsHost path (IoResult.failed IoError.invalid_input) = throw-KeepsHost _
  opened_metadata-KeepsHost path (IoResult.failed IoError.other) = throw-KeepsHost _

  check_access-KeepsHost :
      (id : ℕ) (auth : AuthUnix) (access : ℕ)
      → KeepsHost (check_access interner host id auth access)
  unfolding check_access
  check_access-KeepsHost id auth access =
      bind-KeepsHost (path_of-KeepsHost interner host id) λ path.
        bind-KeepsHost (peek-KeepsHost _)
          λ opened. bind-KeepsHost (opened_metadata-KeepsHost path opened) λ meta. pure-KeepsHost _

  -- None of the methods that look, and none that only commits, changes anything on the host: not
  -- `lookup`, `getattr`, `check_access`, `read`, `readdir`, `readlink`, `fsstat` or `commit`, whatever
  -- they answer, and whatever they have to bring up to date in the map.
  pub looking-KeepsHost :
      (id x y : ℕ) (name : Bytes) (auth : AuthUnix)
      → KeepsHost (lookup interner host stack id name)
        × KeepsHost (getattr interner host stack id)
        × KeepsHost (check_access interner host id auth x)
        × KeepsHost (read interner host id x y)
        × KeepsHost (readdir interner host stack id x y)
        × KeepsHost (readlink interner host id)
        × KeepsHost (fsstat interner host stack id)
        × KeepsHost (commit interner host stack id x y)
  unfolding commit
  looking-KeepsHost id x y name auth = (
    lookup-KeepsHost id name,
    getattr-KeepsHost id,
    check_access-KeepsHost id auth x,
    read-KeepsHost id x y,
    readdir-KeepsHost id x y,
    readlink-KeepsHost id,
    fsstat-KeepsHost id,
    getattr-KeepsHost id,
  )
