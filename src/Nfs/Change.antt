-- ===== src/Nfs/Change.antt =====
-- protocol/nfs/v3: setattr.rs, write.rs and commit.rs.
use fernfs.Prelude.{
  ℕ, ◌&&◌, not, Bool, true, false, Option, none, some, ◌==◌, if◌then◌else◌, length,
}
use fernfs.Io.{Bytes, ◌⊕◌}
use fernfs.Xdr.Word.{write_u32}
use fernfs.Xdr.Opaque.{write_fixed}
use fernfs.Xdr.Array.{write_enum}
use fernfs.Xdr.Rpc.{AuthUnix, garbage_args_reply_message}
use fernfs.Xdr.Rpc.Codec.{write_rpc_msg}
use fernfs.Xdr.Nfs3.{
  nfs3_ok, nfs3err_not_sync, NfsTime, Fattr, WccAttr, WccData, default_wcc_data, StableHow,
}
use fernfs.Xdr.Nfs3.Args.{
  Setattr3Args, read_setattr3args, Write3Args, read_write3args, Range3Args, read_range3args,
  write_wcc_data, stable_how_code, stable_how_of,
}
use fernfs.Vfs.{FileSystem}
use fernfs.Vfs.Handles.{fh_to_id, server_id}
use fernfs.Nfs.Steps.{
  Outcome, answer, wcc_attr_of, to_option, on_result, on_id, on_args, writable, allowed, with_wcc,
}

-- The guard is absent, or the time of the last change.
unfoldable pub guard_holds : Option NfsTime → NfsTime → Bool
guard_holds none ctime = true
guard_holds (some c) ctime = c.seconds == ctime.seconds && c.nseconds == ctime.nseconds

abbrev pub is_some {ℓ} : {A : Type ℓ} → Option A → Bool
is_some none = false
is_some (some a) = true

abbrev pub map_attr : Option Fattr → Option WccAttr
map_attr none = none
map_attr (some a) = some (wcc_attr_of a)

module _ {S : Type 0} (vfs : FileSystem S) (auth : AuthUnix) (xid : ℕ) where
  unfoldable pub guarded_setattr : Setattr3Args → ℕ → Fattr → S → Outcome S
  guarded_setattr args id current s =
      if guard_holds args.guard current.ctime
      then on_result (vfs.setattr id args.new_attribute s)
          (λ attr s. (
            answer xid nfs3_ok (
                write_wcc_data (record { before = some (wcc_attr_of current); after = some attr })),
            s,
          ))
          (λ stat s. (answer xid stat (write_wcc_data default_wcc_data), s))
      else (answer xid nfs3err_not_sync (write_wcc_data default_wcc_data), s)

  -- Only a new size asks for the right to MODIFY.
  unfoldable pub setattr_of : Setattr3Args → S → Outcome S
  setattr_of args s =
      on_id (fh_to_id vfs.generation args.object)
        (λ id.
          on_result (vfs.getattr id s)
            (λ current s.
              let denied : WccData = record {
                before = some (wcc_attr_of current);
                after = some current;
              } in
              if is_some args.new_attribute.size
              then allowed vfs auth id 4 2 (guarded_setattr args id current)
                  (λ stat s. (answer xid stat (write_wcc_data denied), s)) s
              else guarded_setattr args id current s)
            (λ stat s. (answer xid stat (write_wcc_data default_wcc_data), s)))
        (λ stat. (answer xid stat (write_wcc_data default_wcc_data), s))

  unfoldable pub nfsproc3_setattr : Bytes → S → Outcome S
  unfolding setattr_of
  nfsproc3_setattr input s =
      writable vfs xid (write_wcc_data default_wcc_data)
        (on_args (read_setattr3args input) (λ args rest. setattr_of args s) s) s

  unfoldable pub write_with : Write3Args → ℕ → Option WccAttr → Option StableHow → S → Outcome S
  write_with args id before none s = (write_rpc_msg (garbage_args_reply_message xid), s)
  write_with args id before (some stable) s =
      on_result (vfs.write id args.offset args.payload stable s)
        (λ r s.
          let (fattr, committed, count) = r in
          (
            answer xid nfs3_ok (
                write_wcc_data (record { before = before; after = some fattr })
                ⊕ write_u32 count
                ⊕ write_enum stable_how_code committed
                ⊕ write_fixed (server_id vfs.generation)),
            s,
          ))
        (λ stat s. (answer xid stat (write_wcc_data default_wcc_data), s))

  unfoldable pub write_of : Write3Args → S → Outcome S
  write_of args s =
      if not (length args.payload == args.count)
      then (write_rpc_msg (garbage_args_reply_message xid), s)
      else on_id (fh_to_id vfs.generation args.file)
          (λ id.
            let (r, s1) = vfs.getattr id s in
            let before = map_attr (to_option r) in
            allowed vfs auth id 4 2 (write_with args id before (stable_how_of args.stable))
              (λ stat s.
                (answer xid stat (write_wcc_data (record { before = before; after = none })), s))
              s1)
          (λ stat. (answer xid stat (write_wcc_data default_wcc_data), s))

  unfoldable pub nfsproc3_write : Bytes → S → Outcome S
  unfolding write_of write_with
  nfsproc3_write input s =
      writable vfs xid (write_wcc_data default_wcc_data)
        (on_args (read_write3args input) (λ args rest. write_of args s) s) s

  commit_of : Range3Args → S → Outcome S
  commit_of args s =
      on_id (fh_to_id vfs.generation args.file)
        (λ id.
          let (r, s1) = vfs.getattr id s in
          let before = map_attr (to_option r) in
          on_result (vfs.commit id args.offset args.count s1)
            (λ fattr s. (
              answer xid nfs3_ok (
                  write_wcc_data (record { before = before; after = some fattr })
                  ⊕ write_fixed (server_id vfs.generation)),
              s,
            ))
            (λ stat s.
              with_wcc vfs id before (λ wcc s. (answer xid stat (write_wcc_data wcc), s)) s))
        (λ stat. (answer xid stat (write_wcc_data default_wcc_data), s))

  unfoldable pub nfsproc3_commit : Bytes → S → Outcome S
  unfolding commit_of
  nfsproc3_commit input s = on_args (read_range3args input) (λ args rest. commit_of args s) s
