-- ===== src/Nfs/Look.antt =====
-- protocol/nfs/v3: the procedures that change nothing: null.rs, getattr.rs, lookup.rs, access.rs,
-- readlink.rs and read.rs.
use fernfs.Prelude.{ℕ, ◌%◌, ◌^◌, min, none, some, length}
use fernfs.Io.{Bytes, ◌⊕◌}
use fernfs.Xdr.Word.{write_u32, read_u32, write_bool}
use fernfs.Xdr.Opaque.{write_opaque, read_opaque, max_block_size}
use fernfs.Xdr.Rpc.{AuthUnix, make_success_reply}
use fernfs.Xdr.Rpc.Codec.{write_rpc_msg}
use fernfs.Xdr.Nfs3.{nfs3_ok, DirOpArgs}
use fernfs.Xdr.Nfs3.Codec.{write_nfsstat, write_fattr}
use fernfs.Xdr.Nfs3.Args.{read_diropargs, Range3Args, read_range3args}
use fernfs.Vfs.{FileSystem}
use fernfs.Vfs.Handles.{id_to_fh, fh_to_id}
use fernfs.Nfs.Steps.{Outcome, answer, post_op_attr, to_option, on_result, on_id, on_args, allowed}

module _ {S : Type 0} (vfs : FileSystem S) (auth : AuthUnix) (xid : ℕ) where
  unfoldable pub nfsproc3_null : S → Outcome S
  nfsproc3_null s = (write_rpc_msg (make_success_reply xid), s)

  unfoldable pub getattr_of : Bytes → S → Outcome S
  getattr_of handle s =
      on_id (fh_to_id vfs.generation handle)
        (λ id.
          on_result (vfs.getattr id s) (λ attr s. (answer xid nfs3_ok (write_fattr attr), s))
            (λ stat s. (write_rpc_msg (make_success_reply xid) ⊕ write_nfsstat stat, s)))
        (λ stat. (write_rpc_msg (make_success_reply xid) ⊕ write_nfsstat stat, s))

  unfoldable pub nfsproc3_getattr : Bytes → S → Outcome S
  unfolding getattr_of
  nfsproc3_getattr input s = on_args (read_opaque input) (λ handle rest. getattr_of handle s) s

  -- The attributes of the directory are read before the access is checked.
  lookup_in : DirOpArgs → S → Outcome S
  lookup_in dirops s =
      on_id (fh_to_id vfs.generation dirops.dir)
        (λ dirid.
          let (r, s1) = vfs.getattr dirid s in
          let dir_attr = to_option r in
          allowed vfs auth dirid 2 1
            (λ s.
              on_result (vfs.lookup dirid dirops.name s)
                (λ fid s.
                  let (q, s') = vfs.getattr fid s in
                  (
                    answer xid nfs3_ok (
                        write_opaque (id_to_fh vfs.generation fid)
                        ⊕ post_op_attr (to_option q)
                        ⊕ post_op_attr dir_attr),
                    s',
                  ))
                (λ stat s. (answer xid stat (post_op_attr dir_attr), s)))
            (λ stat s. (answer xid stat (post_op_attr dir_attr), s)) s1)
        (λ stat. (answer xid stat (post_op_attr none), s))

  unfoldable pub nfsproc3_lookup : Bytes → S → Outcome S
  unfolding lookup_in
  nfsproc3_lookup input s = on_args (read_diropargs input) (λ dirops rest. lookup_in dirops s) s

  unfoldable pub access_of : Bytes → ℕ → S → Outcome S
  access_of handle access s =
      on_id (fh_to_id vfs.generation handle)
        (λ id.
          on_result (vfs.getattr id s)
            (λ attr s.
              on_result (vfs.check_access id auth access s)
                (λ granted s.
                  (answer xid nfs3_ok (post_op_attr (some attr) ⊕ write_u32 granted), s))
                (λ stat s. (answer xid stat (post_op_attr (some attr)), s)))
            (λ stat s. (answer xid stat (post_op_attr none), s)))
        (λ stat. (answer xid stat (post_op_attr none), s))

  unfoldable pub nfsproc3_access : Bytes → S → Outcome S
  unfolding access_of
  nfsproc3_access input s =
      on_args (read_opaque input)
        (λ handle rest. on_args (read_u32 rest) (λ access rest'. access_of handle access s) s) s

  readlink_of : Bytes → S → Outcome S
  readlink_of handle s =
      on_id (fh_to_id vfs.generation handle)
        (λ id.
          on_result (vfs.getattr id s)
            (λ attr s.
              on_result (vfs.readlink id s)
                (λ path s. (answer xid nfs3_ok (post_op_attr (some attr) ⊕ write_opaque path), s))
                (λ stat s. (answer xid stat (post_op_attr (some attr)), s)))
            (λ stat s. (answer xid stat (post_op_attr none), s)))
        (λ stat. (answer xid stat (post_op_attr none), s))

  unfoldable pub nfsproc3_readlink : Bytes → S → Outcome S
  unfolding readlink_of
  nfsproc3_readlink input s = on_args (read_opaque input) (λ handle rest. readlink_of handle s) s

  -- How many bytes are asked of the file system.
  unfoldable pub read_count : ℕ → ℕ
  read_count count = min count (min vfs.fsinfo_rtmax max_block_size)

  read_range : Range3Args → S → Outcome S
  read_range args s =
      on_id (fh_to_id vfs.generation args.file)
        (λ id.
          let (r, s1) = vfs.getattr id s in
          let obj_attr = to_option r in
          allowed vfs auth id 1 0
            (λ s.
              on_result (vfs.read id args.offset (read_count args.count) s)
                (λ q s.
                  let (bytes, eof) = q in
                  (
                    answer xid nfs3_ok (
                        post_op_attr obj_attr
                        ⊕ write_u32 (length bytes % 2 ^ 32)
                        ⊕ write_bool eof
                        ⊕ write_opaque bytes),
                    s,
                  ))
                (λ stat s. (answer xid stat (post_op_attr obj_attr), s)))
            (λ stat s. (answer xid stat (post_op_attr obj_attr), s)) s1)
        (λ stat. (answer xid stat (post_op_attr none), s))

  unfoldable pub nfsproc3_read : Bytes → S → Outcome S
  unfolding read_range
  nfsproc3_read input s = on_args (read_range3args input) (λ args rest. read_range args s) s
