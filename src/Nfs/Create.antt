-- ===== src/Nfs/Create.antt =====
-- protocol/nfs/v3: create.rs, mkdir.rs, symlink.rs and mknod.rs.
use fernfs.Prelude.{ℕ, ◌||◌, Bool, true, false, Option, none, some, if◌then◌else◌}
use fernfs.Io.{Bytes}
use fernfs.Xdr.Opaque.{read_fixed}
use fernfs.Xdr.Rpc.{AuthUnix}
use fernfs.Xdr.Nfs3.{
  nfs3err_exist, nfs3err_inval, NfsResult, Ftype, nf3chr, nf3blk, nf3sock, nf3fifo, SpecData, Fattr,
  SetTime, dont_change, Sattr, default_sattr, WccAttr, default_wcc_data, CreateMode, unchecked,
  guarded, exclusive,
}
use fernfs.Xdr.Nfs3.Args.{
  read_diropargs, read_createmode, read_sattr, read_mkdir3args, Mkdir3Args, read_symlink3args,
  Symlink3Args, read_mknod3args, MknodData, DeviceData, write_wcc_data,
}
use fernfs.Vfs.{FileSystem}
use fernfs.Nfs.Steps.{
  Outcome, answer, on_result, on_args, writable, in_directory, with_wcc, created,
}
use fernfs.Nfs.Change.{is_some}

abbrev is_changed : SetTime → Bool
is_changed dont_change = false
is_changed t = true

-- Whether the client asks for any attribute.
unfoldable pub has_attrs : Sattr → Bool
has_attrs a =
    is_some a.mode
    || is_some a.uid
    || is_some a.gid
    || is_some a.size
    || is_changed a.atime
    || is_changed a.mtime

abbrev pub or_default : Option Sattr → Sattr
or_default none = default_sattr
or_default (some a) = a

abbrev no_spec : SpecData
no_spec = record { specdata1 = 0; specdata2 = 0 }

abbrev with_device : Ftype → Option DeviceData → Option (Ftype × SpecData × Sattr)
with_device t none = none
with_device t (some d) = some (t, d.spec, d.dev_attributes)

device_or_pipe : Ftype → Option DeviceData → Option Sattr → Option (Ftype × SpecData × Sattr)
device_or_pipe nf3chr d p = with_device nf3chr d
device_or_pipe nf3blk d p = with_device nf3blk d
device_or_pipe nf3sock d p = some (nf3sock, no_spec, or_default p)
device_or_pipe nf3fifo d p = some (nf3fifo, no_spec, or_default p)
device_or_pipe t d p = none

-- Which node MKNOD makes, with its numbers and attributes; `none` for a type that it does not make.
unfoldable pub node_of : MknodData → Option (Ftype × SpecData × Sattr)
unfolding device_or_pipe
node_of what = device_or_pipe what.mknod_type what.device what.pipe_attributes

module _ {S : Type 0} (vfs : FileSystem S) (xid : ℕ) where
  -- The directory's attributes are read once more, and the reply is made.
  unfoldable pub conclude_create : ℕ → Option WccAttr → NfsResult ℕ → Option Fattr → S → Outcome S
  conclude_create dirid before (NfsResult.ok fid) attr s =
      with_wcc vfs dirid before (λ wcc s. (created vfs xid fid attr wcc, s)) s
  conclude_create dirid before (NfsResult.err e) attr s =
      with_wcc vfs dirid before (λ wcc s. (answer xid e (write_wcc_data wcc), s)) s

  make_file : Bytes → Sattr → ℕ → Option WccAttr → S → Outcome S
  make_file name attributes dirid before s =
      on_result (vfs.create dirid name attributes s)
        (λ r s. conclude_create dirid before (NfsResult.ok r.0) (some r.1) s)
        (λ e s. conclude_create dirid before (NfsResult.err e) none s)

  -- The verifier or the attributes are read only now.
  unfoldable pub create_in : CreateMode → Bytes → Bytes → ℕ → Option WccAttr → S → Outcome S
  unfolding make_file
  create_in unchecked name input dirid before s =
      on_args (read_sattr input)
        (λ attributes rest.
          on_result (vfs.lookup dirid name s)
            (λ existing s.
              on_result (vfs.setattr existing attributes s)
                (λ attr s. conclude_create dirid before (NfsResult.ok existing) (some attr) s)
                (λ e s. conclude_create dirid before (NfsResult.err e) none s))
            (λ e s. make_file name attributes dirid before s))
        s
  create_in guarded name input dirid before s =
      on_args (read_sattr input)
        (λ attributes rest.
          on_result (vfs.lookup dirid name s)
            (λ existing s.
              with_wcc vfs dirid before
                (λ wcc s. (answer xid nfs3err_exist (write_wcc_data wcc), s)) s)
            (λ e s. make_file name attributes dirid before s))
        s
  create_in exclusive name input dirid before s =
      on_args (read_fixed 8 input)
        (λ verifier rest.
          on_result (vfs.create_exclusive dirid name verifier s)
            (λ fid s. conclude_create dirid before (NfsResult.ok fid) none s)
            (λ e s. conclude_create dirid before (NfsResult.err e) none s))
        s

  -- The attributes are set on the new directory after those of its parent were read again.
  unfoldable pub mkdir_in : Mkdir3Args → ℕ → Option WccAttr → S → Outcome S
  mkdir_in args dirid before s =
      on_result (vfs.mkdir dirid args.dirops.name s)
        (λ r s.
          with_wcc vfs dirid before
            (λ wcc s.
              if has_attrs args.attributes
              then on_result (vfs.setattr r.0 args.attributes s)
                  (λ updated s. (created vfs xid r.0 (some updated) wcc, s))
                  (λ stat s. (answer xid stat (write_wcc_data wcc), s))
              else (created vfs xid r.0 (some r.1) wcc, s))
            s)
        (λ e s. with_wcc vfs dirid before (λ wcc s. (answer xid e (write_wcc_data wcc), s)) s)

  unfoldable pub symlink_in : Symlink3Args → ℕ → Option WccAttr → S → Outcome S
  symlink_in args dirid before s =
      on_result (vfs.symlink dirid args.dirops.name args.symlink_data args.symlink_attributes s)
        (λ r s. conclude_create dirid before (NfsResult.ok r.0) (some r.1) s)
        (λ e s. conclude_create dirid before (NfsResult.err e) none s)

  unfoldable pub mknod_in :
      Bytes → Option (Ftype × SpecData × Sattr) → ℕ → Option WccAttr → S → Outcome S
  mknod_in name none dirid before s =
      conclude_create dirid before (NfsResult.err nfs3err_inval) none s
  mknod_in name (some (ftype, spec, attrs)) dirid before s =
      on_result (vfs.mknod dirid name ftype spec attrs s)
        (λ r s. conclude_create dirid before (NfsResult.ok r.0) (some r.1) s)
        (λ e s. conclude_create dirid before (NfsResult.err e) none s)

module _ {S : Type 0} (vfs : FileSystem S) (auth : AuthUnix) (xid : ℕ) where
  unfoldable pub nfsproc3_create : Bytes → S → Outcome S
  nfsproc3_create input s =
      writable vfs xid (write_wcc_data default_wcc_data)
        (on_args (read_diropargs input)
          (λ dirops rest.
            on_args (read_createmode rest)
              (λ mode rest'.
                in_directory vfs auth xid dirops.dir write_wcc_data
                  (create_in vfs xid mode dirops.name rest') s)
              s)
          s)
        s

  unfoldable pub nfsproc3_mkdir : Bytes → S → Outcome S
  nfsproc3_mkdir input s =
      writable vfs xid (write_wcc_data default_wcc_data)
        (on_args (read_mkdir3args input)
          (λ args rest.
            in_directory vfs auth xid args.dirops.dir write_wcc_data (mkdir_in vfs xid args) s)
          s)
        s

  unfoldable pub nfsproc3_symlink : Bytes → S → Outcome S
  nfsproc3_symlink input s =
      writable vfs xid (write_wcc_data default_wcc_data)
        (on_args (read_symlink3args input)
          (λ args rest.
            in_directory vfs auth xid args.dirops.dir write_wcc_data (symlink_in vfs xid args) s)
          s)
        s

  unfoldable pub nfsproc3_mknod : Bytes → S → Outcome S
  nfsproc3_mknod input s =
      writable vfs xid (write_wcc_data default_wcc_data)
        (on_args (read_mknod3args input)
          (λ args rest.
            in_directory vfs auth xid args.where_dir.dir write_wcc_data
              (mknod_in vfs xid args.where_dir.name (node_of args.what)) s)
          s)
        s
