-- ===== src/Mirror/Files.antt =====
-- bin/fernfs/fs.rs: the methods of MirrorFS on one object: reading, writing, access and statistics.
pub mod Reading
use fernfs.Prelude.{
  ℕ, ◌+◌, ◌-◌, ◌*◌, ◌%◌, ◌^◌, min, Bool, true, false, ◌||◌, Option, none, some, [], ◌∷◌, ltb, leb,
  ◌==◌, nat_eq, list_eq, if◌then◌else◌, length, usize_max,
}
use fernfs.Io.{Bytes}
use fernfs.Xdr.Rpc.{AuthUnix}
use fernfs.Xdr.Nfs3.{
  NfsResult, NfsStat, nfs3err_noent, nfs3err_acces, nfs3err_io, nfs3err_inval, nfs3err_badtype,
  Fattr, StableHow, file_sync,
}
use fernfs.Xdr.Nfs3.Fs.{FsStat}
use fernfs.Vfs.{read_write}
use fernfs.Vfs.Permissions.{access_mask}
use fernfs.Mirror.Attributes.{Metadata, metadata_to_fattr3}
use fernfs.Mirror.Entry.{FsEntry}
use fernfs.Mirror.Map.{modify_entry, set_fsmeta}
use fernfs.Mirror.Host.{
  IoError, IoResult, Host, StatVfs, Interner, push_path, M, pure, throw, ◌>>=◌, ◌>>◌, attempt,
  fsmap_now, change_map, look, peek, act, as_io,
}
use fernfs.Mirror.Refresh.{RefreshResult, find, sym_to_path, exists, refresh_entry}

abbrev pub as_noent : IoError → NfsStat
as_noent e = nfs3err_noent

unfoldable pub access_error : IoError → NfsStat
access_error IoError.not_found = nfs3err_noent
access_error IoError.permission_denied = nfs3err_acces
access_error e = nfs3err_io

unfoldable pub readlink_error : IoError → NfsStat
readlink_error IoError.invalid_input = nfs3err_badtype
readlink_error IoError.not_found = nfs3err_noent
readlink_error e = nfs3err_io

-- Where a range starts in a file of some length, how many bytes it has there, and whether it reaches
-- the end. The end of the range wraps round; a range that then ends before it starts is a panic.
unfoldable pub read_window : ℕ → ℕ → ℕ → Option (ℕ × ℕ × Bool)
read_window len offset count =
    let end = (offset + count) % 2 ^ 64 in
    let start = min offset len in
    let stop = min end len in
    if ltb stop start then none else some (start, stop - start, leb len end)

unfoldable pub saturating_mul : ℕ → ℕ → ℕ
saturating_mul a b = min (a * b) usize_max

unfoldable pub has_nul : Bytes → Bool
has_nul [] = false
has_nul (b ∷ bs) = b == 0 || has_nul bs

unfoldable pub fsstat_of : Option Fattr → StatVfs → FsStat
fsstat_of attr stats =
    let block_size = if ltb 0 stats.f_frsize then stats.f_frsize else stats.f_bsize in
    record {
      obj_attributes = attr;
      tbytes = saturating_mul block_size stats.f_blocks;
      fbytes = saturating_mul block_size stats.f_bfree;
      abytes = saturating_mul block_size stats.f_bavail;
      tfiles = stats.f_files;
      ffiles = stats.f_ffree;
      afiles = stats.f_favail;
      invarsec = 0;
    }

abbrev pub is_delete : RefreshResult → Bool
is_delete RefreshResult.delete = true
is_delete RefreshResult.reload = false
is_delete RefreshResult.noop = false

abbrev pub ok_of {ℓ} : {A : Type ℓ} → NfsResult A → Option A
ok_of (NfsResult.ok a) = some a
ok_of (NfsResult.err e) = none

module _ {T H : Type 0} (interner : Interner T) (host : Host H) where
  -- The path of an entry on the host.
  unfoldable pub path_of : ℕ → M T H Bytes
  path_of id = do e ← find id; m ← fsmap_now; pure (sym_to_path interner host e.name m)

  -- A directory's entry, and the path of a name in it.
  unfoldable pub place_of : ℕ → Bytes → M T H (FsEntry × Bytes)
  place_of dirid name = do
    e ← find dirid
    m ← fsmap_now
    pure (e, push_path (sym_to_path interner host e.name m) name)

  unfoldable pub exists_now : Bytes → M T H Bool
  exists_now path s = some (NfsResult.ok (exists interner host path s.host), s)

  unfoldable pub read_clamped : Bytes → ℕ → ℕ → ℕ → M T H (Bytes × Bool)
  read_clamped path offset count len = elim (read_window len offset count) [
    | none ↦ λ s. none
    | some (start, size, eof) ↦ do
      buf ← look (host.read_exact path start size) as_io
      pure (buf, eof)
  ]

  -- The file is opened, and a failed seek is a failed `read_exact` here: both are answered alike.
  unfoldable pub read : ℕ → ℕ → ℕ → M T H (Bytes × Bool)
  read id offset count = do
    path ← path_of id
    len ← look (host.file_len path) as_noent
    read_clamped path offset count len

  unfoldable pub opened_metadata : Bytes → IoResult Metadata → M T H Metadata
  opened_metadata path (IoResult.done meta) = pure meta
  opened_metadata path (IoResult.failed IoError.symlink_loop) =
      look (host.symlink_metadata path) as_io
  opened_metadata path (IoResult.failed e) = throw (access_error e)

  unfoldable pub check_access : ℕ → AuthUnix → ℕ → M T H ℕ
  check_access id auth access = do
    path ← path_of id
    opened ← peek (host.open_nofollow path)
    meta ← opened_metadata path opened
    pure (access_mask (metadata_to_fattr3 id meta) auth read_write access)

  unfoldable pub readlink : ℕ → M T H Bytes
  readlink id = do path ← path_of id; look (host.read_link path) readlink_error

  unfoldable pub write : ℕ → ℕ → Bytes → M T H (Fattr × StableHow × ℕ)
  write id offset payload = do
    path ← path_of id
    meta ← act (host.write_file path offset payload) as_io
    change_map (modify_entry id (set_fsmeta (metadata_to_fattr3 id meta)))
    pure (metadata_to_fattr3 id meta, file_sync, length payload % 2 ^ 32)

module _ {T H : Type 0} (interner : Interner T) (host : Host H) (stack : ℕ) where
  unfoldable pub getattr : ℕ → M T H Fattr
  getattr id = do
    r ← refresh_entry interner host stack id
    if is_delete r then throw nfs3err_noent else (do e ← find id; pure e.fsmeta)

  unfoldable pub commit : ℕ → ℕ → ℕ → M T H Fattr
  commit id offset count = getattr id

  unfoldable pub fsstat : ℕ → M T H FsStat
  fsstat id = do
    attr ← attempt (getattr id)
    m ← fsmap_now
    if has_nul m.root
        then throw nfs3err_inval
        else (do stats ← look (host.statvfs m.root) as_io; pure (fsstat_of (ok_of attr) stats))
