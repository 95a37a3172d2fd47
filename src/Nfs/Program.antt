-- ===== src/Nfs/Program.antt =====
-- protocol/nfs/v3/mod.rs: the version and the table of procedures.
use fernfs.Prelude.{ℕ, ◌≡◌, ◌≤◌, arith, ◌==◌, if◌then◌else◌}
use fernfs.Xdr.Rpc.{prog_mismatch_reply_message, proc_unavail_reply_message}
use fernfs.Xdr.Rpc.Codec.{write_rpc_msg}
use fernfs.Vfs.{FileSystem}
use fernfs.Rpc.Dispatch.{NfsHandler, nfs_version}
use fernfs.Nfs.Look.{
  nfsproc3_null, nfsproc3_getattr, nfsproc3_lookup, nfsproc3_access, nfsproc3_readlink,
  nfsproc3_read,
}
use fernfs.Nfs.Change.{nfsproc3_setattr, nfsproc3_write, nfsproc3_commit}
use fernfs.Nfs.Create.{nfsproc3_create, nfsproc3_mkdir, nfsproc3_symlink, nfsproc3_mknod}
use fernfs.Nfs.Remove.{nfsproc3_remove, nfsproc3_rmdir, nfsproc3_rename, nfsproc3_link}
use fernfs.Nfs.Listing.{nfsproc3_readdir, nfsproc3_readdirplus}
use fernfs.Nfs.Stat.{nfsproc3_fsinfo, nfsproc3_fsstat, nfsproc3_pathconf}

pub data NfsProgram : Type 0 where
  null getattr setattr lookup access readlink read write create mkdir symlink mknod : NfsProgram
  remove rmdir rename link readdir readdirplus fsstat fsinfo pathconf commit invalid : NfsProgram

-- `from_u32`, and INVALID, 22, for what has no name
unfoldable pub nfs_program_of : ℕ → NfsProgram
nfs_program_of v =
    if v == 0
    then null
    else if v == 1
    then getattr
    else if v == 2
    then setattr
    else if v == 3
    then lookup
    else if v == 4
    then access
    else if v == 5
    then readlink
    else if v == 6
    then read
    else if v == 7
    then write
    else if v == 8
    then create
    else if v == 9
    then mkdir
    else if v == 10
    then symlink
    else if v == 11
    then mknod
    else if v == 12
    then remove
    else if v == 13
    then rmdir
    else if v == 14
    then rename
    else if v == 15
    then link
    else if v == 16
    then readdir
    else if v == 17
    then readdirplus
    else if v == 18
    then fsstat
    else if v == 19
    then fsinfo
    else if v == 20
    then pathconf
    else if v == 21
    then commit
    else invalid

nfs_program_of_unnamed : (v : ℕ) → 22 ≤ v → nfs_program_of v ≡ invalid
unfolding nfs_program_of
nfs_program_of_unnamed v h = ground arith

module _ {S : Type 0} (vfs : FileSystem S) where
  unfoldable pub run_procedure : NfsProgram → NfsHandler S
  run_procedure NfsProgram.null auth xid c input s = nfsproc3_null vfs auth xid s
  run_procedure NfsProgram.getattr auth xid c input s = nfsproc3_getattr vfs auth xid input s
  run_procedure NfsProgram.setattr auth xid c input s = nfsproc3_setattr vfs auth xid input s
  run_procedure NfsProgram.lookup auth xid c input s = nfsproc3_lookup vfs auth xid input s
  run_procedure NfsProgram.access auth xid c input s = nfsproc3_access vfs auth xid input s
  run_procedure NfsProgram.readlink auth xid c input s = nfsproc3_readlink vfs auth xid input s
  run_procedure NfsProgram.read auth xid c input s = nfsproc3_read vfs auth xid input s
  run_procedure NfsProgram.write auth xid c input s = nfsproc3_write vfs auth xid input s
  run_procedure NfsProgram.create auth xid c input s = nfsproc3_create vfs auth xid input s
  run_procedure NfsProgram.mkdir auth xid c input s = nfsproc3_mkdir vfs auth xid input s
  run_procedure NfsProgram.symlink auth xid c input s = nfsproc3_symlink vfs auth xid input s
  run_procedure NfsProgram.mknod auth xid c input s = nfsproc3_mknod vfs auth xid input s
  run_procedure NfsProgram.remove auth xid c input s = nfsproc3_remove vfs auth xid input s
  run_procedure NfsProgram.rmdir auth xid c input s = nfsproc3_rmdir vfs auth xid input s
  run_procedure NfsProgram.rename auth xid c input s = nfsproc3_rename vfs auth xid input s
  run_procedure NfsProgram.link auth xid c input s = nfsproc3_link vfs auth xid input s
  run_procedure NfsProgram.readdir auth xid c input s = nfsproc3_readdir vfs auth xid input s
  run_procedure NfsProgram.readdirplus auth xid c input s =
      nfsproc3_readdirplus vfs auth xid input s
  run_procedure NfsProgram.fsstat auth xid c input s = nfsproc3_fsstat vfs xid input s
  run_procedure NfsProgram.fsinfo auth xid c input s = nfsproc3_fsinfo vfs xid input s
  run_procedure NfsProgram.pathconf auth xid c input s = nfsproc3_pathconf vfs xid input s
  run_procedure NfsProgram.commit auth xid c input s = nfsproc3_commit vfs auth xid input s
  run_procedure NfsProgram.invalid auth xid c input s =
      (write_rpc_msg (proc_unavail_reply_message xid), s)

  unfoldable pub handle_nfs : NfsHandler S
  handle_nfs auth xid c input s =
      if c.vers == nfs_version
      then run_procedure (nfs_program_of c.proc) auth xid c input s
      else (write_rpc_msg (prog_mismatch_reply_message xid nfs_version), s)
