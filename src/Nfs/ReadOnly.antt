-- ===== src/Nfs/ReadOnly.antt =====
-- protocol/nfs/v3: what the changing procedures have in common: a read-only export, a handle that
-- is refused, and a directory that the client may not modify.
use fernfs.Prelude.{ℕ, ◌≡◌, none}
use fernfs.Io.{Result, ok, Bytes, ◌⊕◌}
use fernfs.Xdr.Rpc.{AuthUnix}
use fernfs.Xdr.Nfs3.{NfsResult, nfs3err_rofs, DirOpArgs, CreateMode, WccData, default_wcc_data}
use fernfs.Xdr.Nfs3.Args.{
  write_wcc_data, read_diropargs, read_createmode, Mkdir3Args, read_mkdir3args, Symlink3Args,
  read_symlink3args, Mknod3Args, Link3Args, read_link3args, read_mknod3args,
}
use fernfs.Vfs.Handles.{fh_to_id}
use fernfs.Vfs.{read_only, read_write, FileSystem}
use fernfs.Nfs.Steps.{Outcome, answer, post_op_attr, writable, when_writable}
use fernfs.Nfs.Change.{nfsproc3_setattr, nfsproc3_write}
use fernfs.Nfs.Create.{nfsproc3_create, nfsproc3_mkdir, nfsproc3_symlink, nfsproc3_mknod}
use fernfs.Nfs.Remove.{nfsproc3_remove, nfsproc3_rmdir, nfsproc3_rename, nfsproc3_link}

pub data Changing : Type 0 where
  setattr write create mkdir symlink mknod remove rmdir rename link : Changing

unfoldable pub change :
    {S : Type 0} → FileSystem S → AuthUnix → ℕ → Changing → Bytes → S → Outcome S
change vfs auth xid Changing.setattr = nfsproc3_setattr vfs auth xid
change vfs auth xid Changing.write = nfsproc3_write vfs auth xid
change vfs auth xid Changing.create = nfsproc3_create vfs auth xid
change vfs auth xid Changing.mkdir = nfsproc3_mkdir vfs auth xid
change vfs auth xid Changing.symlink = nfsproc3_symlink vfs auth xid
change vfs auth xid Changing.mknod = nfsproc3_mknod vfs auth xid
change vfs auth xid Changing.remove = nfsproc3_remove vfs auth xid
change vfs auth xid Changing.rmdir = nfsproc3_rmdir vfs auth xid
change vfs auth xid Changing.rename = nfsproc3_rename vfs auth xid
change vfs auth xid Changing.link = nfsproc3_link vfs auth xid

-- The body that goes with a status that is not a success; LINK's begins with the file's attributes.
abbrev pub failure : Changing → WccData → Result Bytes
failure Changing.link wcc = post_op_attr none ⊕ write_wcc_data wcc
failure _ wcc = write_wcc_data wcc

-- The input of a procedure that changes one directory, and the handle of that directory. LINK looks at
-- the handle of its file first, which is good here.
pub data Targets (generation : ℕ) : Changing → Bytes → Bytes → Type 0 where
  to_remove :
      {input rest : Bytes} {a : DirOpArgs}
      → read_diropargs input ≡ ok (a, rest)
      → Targets generation Changing.remove input a.dir
  to_rmdir :
      {input rest : Bytes} {a : DirOpArgs}
      → read_diropargs input ≡ ok (a, rest)
      → Targets generation Changing.rmdir input a.dir
  to_mkdir :
      {input rest : Bytes} {a : Mkdir3Args}
      → read_mkdir3args input ≡ ok (a, rest)
      → Targets generation Changing.mkdir input a.dirops.dir
  to_symlink :
      {input rest : Bytes} {a : Symlink3Args}
      → read_symlink3args input ≡ ok (a, rest)
      → Targets generation Changing.symlink input a.dirops.dir
  to_mknod :
      {input rest : Bytes} {a : Mknod3Args}
      → read_mknod3args input ≡ ok (a, rest)
      → Targets generation Changing.mknod input a.where_dir.dir
  to_create :
      {input rest rest' : Bytes} {a : DirOpArgs} {mode : CreateMode}
      → read_diropargs input ≡ ok (a, rest)
      → read_createmode rest ≡ ok (mode, rest')
      → Targets generation Changing.create input a.dir
  to_link :
      {input rest : Bytes} {a : Link3Args} {fileid : ℕ}
      → read_link3args input ≡ ok (a, rest)
      → fh_to_id generation a.file ≡ NfsResult.ok fileid
      → Targets generation Changing.link input a.link.dir

module _ {S : Type 0} (vfs : FileSystem S) (auth : AuthUnix) (xid : ℕ) where
  writable_read_only :
      (body : Result Bytes) (go : Outcome S) (s : S)
      → vfs.capabilities ≡ read_only
      → writable vfs xid body go s ≡ (answer xid nfs3err_rofs body, s)
  unfolding writable when_writable
  writable_read_only body go s e = rw (e, when_writable)

  pub writable_read_write :
      (body : Result Bytes) (go : Outcome S) (s : S)
      → vfs.capabilities ≡ read_write
      → writable vfs xid body go s ≡ go
  unfolding writable when_writable
  writable_read_write body go s e = rw (e, when_writable)

  -- On a read-only export none of the ten procedures SETATTR, WRITE, CREATE, MKDIR, SYMLINK, MKNOD,
  -- REMOVE, RMDIR, RENAME and LINK calls a method of the file system, whatever its input, readable or
  -- not: each answers that the file system is read-only. COMMIT, which has no such guard, is not
  -- among them.
  pub change_read_only :
      (p : Changing) (input : Bytes) (s : S)
      → vfs.capabilities ≡ read_only
      → change vfs auth xid p input s ≡ (answer xid nfs3err_rofs (failure p default_wcc_data), s)
  unfolding change nfsproc3_setattr nfsproc3_write nfsproc3_create nfsproc3_mkdir nfsproc3_symlink
      nfsproc3_mknod nfsproc3_remove nfsproc3_rmdir nfsproc3_rename nfsproc3_link
  change_read_only Changing.setattr input s e = writable_read_only _ _ s e
  change_read_only Changing.write input s e = writable_read_only _ _ s e
  change_read_only Changing.create input s e = writable_read_only _ _ s e
  change_read_only Changing.mkdir input s e = writable_read_only _ _ s e
  change_read_only Changing.symlink input s e = writable_read_only _ _ s e
  change_read_only Changing.mknod input s e = writable_read_only _ _ s e
  change_read_only Changing.remove input s e = writable_read_only _ _ s e
  change_read_only Changing.rmdir input s e = writable_read_only _ _ s e
  change_read_only Changing.rename input s e = writable_read_only _ _ s e
  change_read_only Changing.link input s e = writable_read_only _ _ s e
