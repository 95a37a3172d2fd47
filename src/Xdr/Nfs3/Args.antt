-- ===== src/Xdr/Nfs3/Args.antt =====
-- protocol/xdr/nfs3: mod.rs, file.rs and dir.rs: the arguments of the procedures, and the weak cache
-- consistency data of their replies.
pub mod RoundTrip
use fernfs.Prelude.{
  ℕ, ◌||◌, Bool, true, false, Option, none, some, List, [], ◌∷◌, ◌==◌, if◌then◌else◌,
}
use fernfs.Io.{Result, ok, invalid_data, Bytes, Reader, ◌>>=◌, pure, fail, ◌⊕◌}
use fernfs.Xdr.Word.{write_u32, read_u32, write_u64, read_u64}
use fernfs.Xdr.Opaque.{write_opaque, read_opaque}
use fernfs.Xdr.Array.{write_enum, read_enum, write_option, read_option}
use fernfs.Xdr.Nfs3.{
  Ftype, nf3reg, nf3dir, nf3blk, nf3chr, nf3lnk, nf3sock, nf3fifo, NfsTime, SpecData, SetTime,
  dont_change, set_to_server_time, set_to_client_time, Sattr, DirOpArgs, WccAttr, WccData,
  StableHow, unstable, data_sync, file_sync, CreateMode, unchecked, guarded, exclusive,
}
use fernfs.Xdr.Nfs3.Codec.{ftype_of, write_nfstime, read_nfstime, read_specdata, write_fattr}

unfoldable pub write_set_time : SetTime → Result Bytes
write_set_time dont_change = write_u32 0
write_set_time set_to_server_time = write_u32 1
write_set_time (set_to_client_time t) = write_u32 2 ⊕ write_nfstime t

unfoldable pub read_set_time_arm : ℕ → Reader SetTime
read_set_time_arm v =
    if v == 0
    then pure dont_change
    else if v == 1
    then pure set_to_server_time
    else if v == 2
    then (do t ← read_nfstime; pure (set_to_client_time t))
    else fail invalid_data

unfoldable pub read_set_time : Reader SetTime
read_set_time = do v ← read_u32; read_set_time_arm v

unfoldable pub write_sattr : Sattr → Result Bytes
write_sattr a =
    write_option write_u32 a.mode
    ⊕ write_option write_u32 a.uid
    ⊕ write_option write_u32 a.gid
    ⊕ write_option write_u64 a.size
    ⊕ write_set_time a.atime
    ⊕ write_set_time a.mtime

unfoldable pub read_sattr : Reader Sattr
read_sattr = do
  mode ← read_option read_u32
  uid ← read_option read_u32
  gid ← read_option read_u32
  size ← read_option read_u64
  atime ← read_set_time
  mtime ← read_set_time
  pure (record { mode = mode; uid = uid; gid = gid; size = size; atime = atime; mtime = mtime })

unfoldable pub write_diropargs : DirOpArgs → Result Bytes
write_diropargs a = write_opaque a.dir ⊕ write_opaque a.name

unfoldable pub read_diropargs : Reader DirOpArgs
read_diropargs = do dir ← read_opaque; name ← read_opaque; pure (record { dir = dir; name = name })

unfoldable pub write_wcc_attr : WccAttr → Result Bytes
write_wcc_attr a = write_u64 a.size ⊕ write_nfstime a.mtime ⊕ write_nfstime a.ctime

unfoldable pub write_wcc_data : WccData → Result Bytes
write_wcc_data d = write_option write_wcc_attr d.before ⊕ write_option write_fattr d.after

unfoldable pub stable_how_code : StableHow → ℕ
stable_how_code unstable = 0
stable_how_code data_sync = 1
stable_how_code file_sync = 2

unfoldable pub stable_how_of : ℕ → Option StableHow
stable_how_of v =
    if v == 0
    then some unstable
    else if v == 1
    then some data_sync
    else if v == 2
    then some file_sync
    else none

unfoldable pub createmode_of : ℕ → Option CreateMode
createmode_of v =
    if v == 0
    then some unchecked
    else if v == 1
    then some guarded
    else if v == 2
    then some exclusive
    else none

unfoldable pub read_createmode : Reader CreateMode
read_createmode = read_enum createmode_of

pub record Setattr3Args : Type 0 where
  pub object : Bytes
  pub new_attribute : Sattr
  pub guard : Option NfsTime

unfoldable pub read_setattr3args : Reader Setattr3Args
read_setattr3args = do
  object ← read_opaque
  new_attribute ← read_sattr
  guard ← read_option read_nfstime
  pure (record { object = object; new_attribute = new_attribute; guard = guard })

-- READ3args and COMMIT3args, which are alike
pub record Range3Args : Type 0 where
  pub file : Bytes
  pub offset : ℕ
  pub count : ℕ

unfoldable pub read_range3args : Reader Range3Args
read_range3args = do
  file ← read_opaque
  offset ← read_u64
  count ← read_u32
  pure (record { file = file; offset = offset; count = count })

pub record Write3Args : Type 0 where
  pub file : Bytes
  pub offset : ℕ
  pub count : ℕ
  pub stable : ℕ
  pub payload : Bytes

unfoldable pub write_write3args : Write3Args → Result Bytes
write_write3args a =
    write_opaque a.file
    ⊕ write_u64 a.offset
    ⊕ write_u32 a.count
    ⊕ write_u32 a.stable
    ⊕ write_opaque a.payload

unfoldable pub read_write3args : Reader Write3Args
read_write3args = do
  file ← read_opaque
  offset ← read_u64
  count ← read_u32
  stable ← read_u32
  payload ← read_opaque
  pure (record { file = file; offset = offset; count = count; stable = stable; payload = payload })

pub record Link3Args : Type 0 where
  pub file : Bytes
  pub link : DirOpArgs

unfoldable pub read_link3args : Reader Link3Args
read_link3args = do
  file ← read_opaque
  link ← read_diropargs
  pure (record { file = file; link = link })

pub record Mkdir3Args : Type 0 where
  pub dirops : DirOpArgs
  pub attributes : Sattr

unfoldable pub read_mkdir3args : Reader Mkdir3Args
read_mkdir3args = do
  dirops ← read_diropargs
  attributes ← read_sattr
  pure (record { dirops = dirops; attributes = attributes })

pub record Symlink3Args : Type 0 where
  pub dirops : DirOpArgs
  pub symlink_attributes : Sattr
  pub symlink_data : Bytes

-- `symlinkdata3` is read in place.
unfoldable pub read_symlink3args : Reader Symlink3Args
read_symlink3args = do
  dirops ← read_diropargs
  symlink_attributes ← read_sattr
  symlink_data ← read_opaque
  pure (record {
    dirops = dirops;
    symlink_attributes = symlink_attributes;
    symlink_data = symlink_data;
  })

pub record DeviceData : Type 0 where
  pub dev_attributes : Sattr
  pub spec : SpecData

unfoldable pub read_devicedata : Reader DeviceData
read_devicedata = do
  dev_attributes ← read_sattr
  spec ← read_specdata
  pure (record { dev_attributes = dev_attributes; spec = spec })

pub record MknodData : Type 0 where
  pub mknod_type : Ftype
  pub device : Option DeviceData
  pub pipe_attributes : Option Sattr

unfoldable pub read_device : Ftype → Reader MknodData
read_device t = do
  d ← read_devicedata
  pure (record { mknod_type = t; device = some d; pipe_attributes = none })

unfoldable pub read_pipe : Ftype → Reader MknodData
read_pipe t = do
  a ← read_sattr
  pure (record { mknod_type = t; device = none; pipe_attributes = some a })

unfoldable pub read_mknoddata_arm : Ftype → Reader MknodData
read_mknoddata_arm nf3chr = read_device nf3chr
read_mknoddata_arm nf3blk = read_device nf3blk
read_mknoddata_arm nf3sock = read_pipe nf3sock
read_mknoddata_arm nf3fifo = read_pipe nf3fifo
read_mknoddata_arm t = pure (record { mknod_type = t; device = none; pipe_attributes = none })

unfoldable pub read_mknoddata : Reader MknodData
read_mknoddata = do t ← read_enum ftype_of; read_mknoddata_arm t

pub record Mknod3Args : Type 0 where
  pub where_dir : DirOpArgs
  pub what : MknodData

unfoldable pub read_mknod3args : Reader Mknod3Args
read_mknod3args = do
  where_dir ← read_diropargs
  what ← read_mknoddata
  pure (record { where_dir = where_dir; what = what })
