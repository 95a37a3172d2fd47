-- ===== src/Mirror/Special.antt =====
-- bin/fernfs/fs.rs: hard links, and special files, for which the mirror makes regular ones.
use fernfs.Prelude.{ℕ, Option, none, some, if◌then◌else◌}
use fernfs.Io.{Bytes}
use fernfs.Xdr.Nfs3.{
  nfs3err_exist, nfs3err_badtype, Ftype, nf3reg, nf3dir, nf3blk, nf3chr, nf3lnk, nf3sock, nf3fifo,
  SpecData, Fattr, Sattr,
}
use fernfs.Mirror.Attributes.{metadata_to_fattr3}
use fernfs.Mirror.Map.{modify_entry, set_fsmeta}
use fernfs.Mirror.Host.{Host, Interner, M, pure, throw, ◌>>=◌, ◌>>◌, change_map, look, act, as_io}
use fernfs.Mirror.Files.{path_of, place_of, exists_now}
use fernfs.Mirror.Objects.{enter_child}

abbrev pub or_default : Option ℕ → ℕ → ℕ
or_default none n = n
or_default (some mode) n = mode

module _ {T H : Type 0} (host : Host H) where
  -- Only if both are given.
  unfoldable pub set_owner : Bytes → Option ℕ → Option ℕ → M T H (Unit {0})
  set_owner path none gid = pure tt
  set_owner path (some uid) none = pure tt
  set_owner path (some uid) (some gid) = act (host.chown path uid gid) as_io

  -- A regular file in the place of a device, a pipe or a socket.
  unfoldable pub placeholder : Bytes → Sattr → M T H (Unit {0})
  placeholder path attrs = do
    act (host.create_file path) as_io
    act (host.set_permissions path (or_default attrs.mode 438)) as_io
    set_owner path attrs.uid attrs.gid

  unfoldable pub make_special : Bytes → Ftype → Sattr → M T H (Unit {0})
  make_special path nf3chr attrs = placeholder path attrs
  make_special path nf3blk attrs = placeholder path attrs
  make_special path nf3fifo attrs = placeholder path attrs
  make_special path nf3sock attrs = placeholder path attrs
  make_special path nf3reg attrs = throw nfs3err_badtype
  make_special path nf3dir attrs = throw nfs3err_badtype
  make_special path nf3lnk attrs = throw nfs3err_badtype

module _ {T H : Type 0} (interner : Interner T) (host : Host H) where
  unfoldable pub mknod : ℕ → Bytes → Ftype → SpecData → Sattr → M T H (ℕ × Fattr)
  mknod dirid name ftype specdata attrs = do
    (e, path) ← place_of interner host dirid name
    there ← exists_now interner host path
    if there then throw nfs3err_exist else (do
      make_special host path ftype attrs
      (id, meta) ← enter_child interner host dirid name e path
      pure (id, metadata_to_fattr3 id meta))

  unfoldable pub link : ℕ → ℕ → Bytes → M T H Fattr
  link file_id link_dir_id link_name = do
    source ← path_of interner host file_id
    (e, target) ← place_of interner host link_dir_id link_name
    there ← exists_now interner host target
    if there then throw nfs3err_exist else (do
      act (host.hard_link source target) as_io
      entered ← enter_child interner host link_dir_id link_name e target
      meta ← look (host.symlink_metadata source) as_io
      change_map (modify_entry file_id (set_fsmeta (metadata_to_fattr3 file_id meta)))
      pure (metadata_to_fattr3 file_id meta))
