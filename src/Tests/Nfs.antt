-- ===== src/Tests/Nfs.antt =====
-- Procedures of NFS version 3 on the file system of Demo, read-only, denied, and with old handles.
use fernfs.Prelude.{ℕ, ◌≡◌, refl, some, [], ◌∷◌, ◌++◌, arith}
use fernfs.Io.{ok, err, unexpected_eof, Bytes, ◌>>=◌, pure, ◌⊕◌}
use fernfs.Xdr.Word.{read_u32, read_u64, read_bool, write_u32, u32_bytes, write_bool}
use fernfs.Xdr.Opaque.{
  read_opaque, read_usize, read_exact, read_padding, padding_len, write_opaque, write_usize,
  write_padding,
}
use fernfs.Xdr.Array.{read_option, write_option, write_enum}
use fernfs.Xdr.Rpc.{AuthUnix, default_auth_unix, make_success_reply}
use fernfs.Xdr.Rpc.Codec.{
  write_rpc_msg, write_rpc_body, write_reply_body, write_accepted_reply, write_opaque_auth,
  write_accept_body, auth_flavor_code,
}
use fernfs.Xdr.Nfs3.{
  NfsResult, nfs3err_rofs, nfs3err_acces, nfs3err_stale, DirOpArgs, default_sattr, default_wcc_data,
}
use fernfs.Xdr.Nfs3.Codec.{write_nfsstat, nfsstat_code, read_nfstime}
use fernfs.Xdr.Nfs3.Args.{
  read_diropargs, read_sattr, read_set_time, read_set_time_arm, Setattr3Args, read_setattr3args,
  Write3Args, read_write3args, write_wcc_data,
}
use fernfs.Vfs.{FileSystem, read_only}
use fernfs.Vfs.Handles.{fh_to_id, from_le_bytes}
use fernfs.Nfs.Steps.{answer, wcc_attr_of, writable, when_writable}
use fernfs.Nfs.Remove.{nfsproc3_rename}
use fernfs.Nfs.ReadOnly.{Changing, change, failure, to_remove, change_read_only}
use fernfs.Nfs.Denied.{change_denied}
use fernfs.Nfs.Replies.{
  read_reply, read_no_wcc, read_two_no_wcc, no_attributes, nfsproc3_rename_read_only,
}
use fernfs.Nfs.Look.{nfsproc3_access}
use fernfs.Nfs.Access.{read_granted, nfsproc3_access_reply}
use fernfs.Vfs.Defaults.{default_check_access}
use fernfs.Vfs.Permissions.{unix_mode_perms}
use fernfs.Vfs.Permissions.Laws.{IsExact, may_lookup, may_modify, may_delete}
use fernfs.Xdr.Nfs3.{nfs3_ok}
use fernfs.Io.{RoundTrips}
use fernfs.Tests.Demo.{demo_fs, directory}

abbrev frozen : FileSystem ℕ
frozen = record demo_fs { capabilities = read_only }

abbrev guest : AuthUnix
guest = record default_auth_unix { uid = 1000 }

-- The handle that a server of the generation `g` makes for the root.
abbrev root_handle : ℕ → Bytes
root_handle g = g ∷ 0 ∷ 0 ∷ 0 ∷ 0 ∷ 0 ∷ 0 ∷ 0 ∷ 1 ∷ 0 ∷ 0 ∷ 0 ∷ 0 ∷ 0 ∷ 0 ∷ 0 ∷ []

abbrev handle_bytes : ℕ → Bytes
handle_bytes g = 0 ∷ 0 ∷ 0 ∷ 16 ∷ root_handle g

-- The entry `a` of the root.
abbrev entry_a : ℕ → Bytes
entry_a g = handle_bytes g ++ (0 ∷ 0 ∷ 0 ∷ 1 ∷ 97 ∷ 0 ∷ 0 ∷ 0 ∷ [])

abbrev args_a : ℕ → DirOpArgs
args_a g = record { dir = root_handle g; name = 97 ∷ [] }

reads_entry : (g : ℕ) → read_diropargs (entry_a g) ≡ ok (args_a g, [])
unfolding read_diropargs read_opaque read_usize read_u32 read_exact read_padding padding_len ◌>>=◌
    pure
reads_entry g = refl

reads_handle : read_opaque (handle_bytes 5) ≡ ok (root_handle 5, [])
unfolding read_opaque read_usize read_u32 read_exact read_padding padding_len ◌>>=◌ pure
reads_handle = refl

root_found : fh_to_id 5 (root_handle 5) ≡ NfsResult.ok 1
unfolding fh_to_id from_le_bytes
root_found = refl

old_handle : fh_to_id 5 (root_handle 4) ≡ NfsResult.err nfs3err_stale
unfolding fh_to_id from_le_bytes
old_handle = refl

change_read_only_example :
    change frozen guest 7 Changing.remove (entry_a 5) 0
    ≡ (answer 7 nfs3err_rofs (failure Changing.remove default_wcc_data), 0)
change_read_only_example = change_read_only frozen guest 7 Changing.remove (entry_a 5) 0 refl

change_denied_example : change demo_fs guest 7 Changing.remove (entry_a 5) 0 ≡ (
  answer 7 nfs3err_acces (
      write_wcc_data
        (record { before = some (wcc_attr_of (directory 1)); after = some (directory 1) })),
  0,
)
change_denied_example =
    change_denied demo_fs guest 7 Changing.remove (entry_a 5) (root_handle 5) 0 0 0 1 0
      (directory 1) refl (to_remove (reads_entry 5)) root_found refl refl refl

-- No attribute, and the guard 3 seconds.
abbrev setattr_bytes : Bytes
setattr_bytes =
    handle_bytes 5
    ++ (0 ∷ 0 ∷ 0 ∷ 0 ∷ 0 ∷ 0 ∷ 0 ∷ 0 ∷ 0 ∷ 0 ∷ 0 ∷ 0 ∷ 0 ∷ 0 ∷ 0 ∷ 0 ∷ 0 ∷ 0 ∷ 0 ∷ 0 ∷ 0 ∷ 0 ∷ 0
        ∷ 0 ∷ 0 ∷ 0 ∷ 0 ∷ 1 ∷ 0 ∷ 0 ∷ 0 ∷ 3 ∷ 0 ∷ 0 ∷ 0 ∷ 0 ∷ [])

abbrev setattr_args : Setattr3Args
setattr_args = record {
  object = root_handle 5;
  new_attribute = default_sattr;
  guard = some (record { seconds = 3; nseconds = 0 });
}

reads_setattr : read_setattr3args setattr_bytes ≡ ok (setattr_args, [])
unfolding read_setattr3args read_sattr read_set_time read_set_time_arm read_option read_bool
    read_nfstime read_opaque read_usize read_u32 read_exact read_padding padding_len ◌>>=◌ pure
reads_setattr = refl

-- A count of 9, and one byte.
abbrev write_bytes : Bytes
write_bytes =
    handle_bytes 5
    ++ (0 ∷ 0 ∷ 0 ∷ 0 ∷ 0 ∷ 0 ∷ 0 ∷ 0 ∷ 0 ∷ 0 ∷ 0 ∷ 9 ∷ 0 ∷ 0 ∷ 0 ∷ 2 ∷ 0 ∷ 0 ∷ 0 ∷ 1 ∷ 65 ∷ 0 ∷ 0
        ∷ 0 ∷ [])

abbrev write_args : Write3Args
write_args = record { file = root_handle 5; offset = 0; count = 9; stable = 2; payload = 65 ∷ [] }

reads_write : read_write3args write_bytes ≡ ok (write_args, [])
unfolding read_write3args read_u64 read_opaque read_usize read_u32 read_exact read_padding
    padding_len ◌>>=◌ pure
reads_write = refl

abbrev no_sattr : Bytes
no_sattr =
    0 ∷ 0 ∷ 0 ∷ 0 ∷ 0 ∷ 0 ∷ 0 ∷ 0 ∷ 0 ∷ 0 ∷ 0 ∷ 0 ∷ 0 ∷ 0 ∷ 0 ∷ 0 ∷ 0 ∷ 0 ∷ 0 ∷ 0 ∷ 0 ∷ 0 ∷ 0 ∷ 0
    ∷ []

reads_sattr : read_sattr no_sattr ≡ ok (default_sattr, [])
unfolding read_sattr read_set_time read_set_time_arm read_option read_bool read_u32 ◌>>=◌ pure
reads_sattr = refl

abbrev rename_reply : Bytes
rename_reply =
    0 ∷ 0 ∷ 0 ∷ 7 ∷ 0 ∷ 0 ∷ 0 ∷ 1 ∷ 0 ∷ 0 ∷ 0 ∷ 0 ∷ 0 ∷ 0 ∷ 0 ∷ 0 ∷ 0 ∷ 0 ∷ 0 ∷ 0 ∷ 0 ∷ 0 ∷ 0 ∷ 0
    ∷ 0 ∷ 0 ∷ 0 ∷ 30 ∷ 0 ∷ 0 ∷ 0 ∷ 0 ∷ 0 ∷ 0 ∷ 0 ∷ 0 ∷ []

renamed : (nfsproc3_rename frozen guest 7 [] 0).0 ≡ ok rename_reply
unfolding nfsproc3_rename writable when_writable answer make_success_reply write_rpc_msg
    write_rpc_body write_reply_body write_accepted_reply write_opaque_auth write_accept_body
    auth_flavor_code write_nfsstat nfsstat_code write_wcc_data write_enum write_option write_opaque
    write_usize write_padding padding_len write_bool write_u32 u32_bytes ◌⊕◌
renamed = refl

nfsproc3_rename_read_only_example :
    (read_reply read_no_wcc rename_reply
      ≡ ok ((make_success_reply 7, nfs3err_rofs, no_attributes), []))
    × (read_reply read_two_no_wcc rename_reply ≡ err unexpected_eof)
nfsproc3_rename_read_only_example =
    nfsproc3_rename_read_only frozen guest 7 [] rename_reply 0 (omega arith) refl renamed

abbrev asking : FileSystem ℕ
asking = record demo_fs {
  check_access = λ id auth access s. default_check_access demo_fs id auth access s;
}

reads_access :
    read_opaque (handle_bytes 5 ++ (0 ∷ 0 ∷ 0 ∷ 63 ∷ [])) ≡ ok (root_handle 5, 0 ∷ 0 ∷ 0 ∷ 63 ∷ [])
unfolding read_opaque read_usize read_u32 read_exact read_padding padding_len ◌>>=◌ pure
reads_access = refl

reads_mask : read_u32 (0 ∷ 0 ∷ 0 ∷ 63 ∷ []) ≡ ok (63, [])
unfolding read_u32
reads_mask = refl

nfsproc3_access_reply_example :
    (granted : ℕ) × RoundTrips
      (nfsproc3_access asking guest 7 (handle_bytes 5 ++ (0 ∷ 0 ∷ 0 ∷ 63 ∷ [])) 0).0
      (read_reply read_granted)
      (make_success_reply 7, nfs3_ok, (some (directory 1), granted))
    × (let p = unix_mode_perms (directory 1) guest in
        IsExact p.read
          (may_lookup (directory 1).ftype p)
          (may_modify (directory 1).ftype p p.write)
          (may_delete (directory 1).ftype p p.write)
          p.exec
          63
          granted)
unfolding default_check_access
nfsproc3_access_reply_example =
    nfsproc3_access_reply asking guest 7 (handle_bytes 5 ++ (0 ∷ 0 ∷ 0 ∷ 63 ∷ [])) (root_handle 5)
      (0 ∷ 0 ∷ 0 ∷ 63 ∷ []) [] 63 1 (directory 1) 0 (omega arith) (omega arith) reads_access
      reads_mask root_found refl refl
