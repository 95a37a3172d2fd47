-- ===== src/Mirror/Setattr.antt =====
-- fs_util.rs: the setting of attributes on the host; `setattr` of bin/fernfs/fs.rs.
use fernfs.Prelude.{ℕ, Option, none, some}
use fernfs.Io.{Bytes}
use fernfs.Xdr.Nfs3.{
  Fattr, SetTime, dont_change, set_to_server_time, set_to_client_time, NfsTime, Sattr,
}
use fernfs.Mirror.Attributes.{mode_unmask, metadata_to_fattr3}
use fernfs.Mirror.Map.{modify_entry, set_fsmeta}
use fernfs.Mirror.Host.{
  IoResult, Host, Interner, M, pure, ◌>>=◌, ◌>>◌, change_map, look, act, try_act, as_io,
}
use fernfs.Mirror.Files.{path_of}

module _ {T H : Type 0} (host : Host H) where
  -- A failure to set a time is let pass.
  unfoldable pub set_time : (NfsTime → H → IoResult (Unit {0}) × H) → SetTime → M T H (Unit {0})
  set_time set dont_change = pure tt
  set_time set set_to_server_time = try_act (λ h. set (host.now h) h)
  set_time set (set_to_client_time time) = try_act (set time)

  unfoldable pub set_mode : Bytes → Option ℕ → M T H (Unit {0})
  set_mode path none = pure tt
  set_mode path (some mode) = try_act (host.set_permissions path (mode_unmask mode))

  unfoldable pub set_size : Bytes → Option ℕ → M T H (Unit {0})
  set_size path none = pure tt
  set_size path (some size) = act (host.set_len path size) as_io

  -- The owner and the group are not set.
  unfoldable pub path_setattr : Bytes → Sattr → M T H (Unit {0})
  path_setattr path setattr = do
    set_time (host.set_file_atime path) setattr.atime
    set_time (host.set_file_mtime path) setattr.mtime
    set_mode path setattr.mode
    set_size path setattr.size

  unfoldable pub file_setattr : Bytes → Sattr → M T H (Unit {0})
  file_setattr path setattr = do set_mode path setattr.mode; set_size path setattr.size

module _ {T H : Type 0} (interner : Interner T) (host : Host H) where
  unfoldable pub setattr : ℕ → Sattr → M T H Fattr
  setattr id attrs = do
    path ← path_of interner host id
    path_setattr host path attrs
    meta ← look (host.symlink_metadata path) as_io
    change_map (modify_entry id (set_fsmeta (metadata_to_fattr3 id meta)))
    pure (metadata_to_fattr3 id meta)
