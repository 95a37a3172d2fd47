-- ===== src/Nfs/Remove.antt =====
-- protocol/nfs/v3: remove.rs, rmdir.rs, rename.rs and link.rs.
use fernfs.Prelude.{ℕ, ◌&&◌, Bool, true, false, Option, none, some, if◌then◌else◌}
use fernfs.Io.{Result, Bytes, ◌⊕◌}
use fernfs.Xdr.Rpc.{AuthUnix}
use fernfs.Xdr.Nfs3.{
  NfsStat, nfs3_ok, nfs3err_acces, nfs3err_notdir, NfsResult, Ftype, nf3dir, DirOpArgs, WccAttr,
  WccData, default_wcc_data,
}
use fernfs.Xdr.Nfs3.Args.{read_diropargs, Link3Args, read_link3args, write_wcc_data}
use fernfs.Vfs.{FileSystem}
use fernfs.Vfs.Handles.{fh_to_id}
use fernfs.Vfs.Permissions.{bit}
use fernfs.Nfs.Steps.{
  Outcome, answer, post_op_attr, wcc_attr_of, to_option, on_result, on_id, on_args, writable,
  in_directory, with_wcc,
}

abbrev pub is_dir : Ftype → Bool
is_dir nf3dir = true
is_dir t = false

-- Two bodies, for the directories that a rename leaves and enters.
abbrev pub two_wcc : WccData → WccData → Result Bytes
two_wcc from to = write_wcc_data from ⊕ write_wcc_data to

module _ {S : Type 0} (vfs : FileSystem S) (xid : ℕ) where
  unfoldable pub status_with_wcc : NfsStat → ℕ → Option WccAttr → S → Outcome S
  status_with_wcc stat dirid before s =
      with_wcc vfs dirid before (λ wcc s. (answer xid stat (write_wcc_data wcc), s)) s

  unfoldable pub remove_in : Bytes → ℕ → Option WccAttr → S → Outcome S
  remove_in name dirid before s =
      on_result (vfs.remove dirid name s) (λ u s. status_with_wcc nfs3_ok dirid before s)
        (λ e s. status_with_wcc e dirid before s)

  -- Only a directory is removed.
  unfoldable pub rmdir_in : Bytes → ℕ → Option WccAttr → S → Outcome S
  rmdir_in name dirid before s =
      on_result (vfs.lookup dirid name s)
        (λ target s.
          on_result (vfs.getattr target s)
            (λ attr s.
              if is_dir attr.ftype
              then remove_in name dirid before s
              else status_with_wcc nfs3err_notdir dirid before s)
            (λ stat s. status_with_wcc stat dirid before s))
        (λ stat s. status_with_wcc stat dirid before s)

  unfoldable pub link_in : Bytes → ℕ → ℕ → Option WccAttr → S → Outcome S
  link_in name fileid dirid before s =
      on_result (vfs.link fileid dirid name s)
        (λ fattr s.
          with_wcc vfs dirid before
            (λ wcc s. (answer xid nfs3_ok (post_op_attr (some fattr) ⊕ write_wcc_data wcc), s)) s)
        (λ stat s.
          let (r, s1) = vfs.getattr fileid s in
          with_wcc vfs dirid before
            (λ wcc s. (answer xid stat (post_op_attr (to_option r) ⊕ write_wcc_data wcc), s)) s1)

  -- Both directories are read again after the rename.
  rename_in : DirOpArgs → DirOpArgs → ℕ → ℕ → Option WccAttr → Option WccAttr → S → Outcome S
  rename_in from to from_dirid to_dirid pre_from pre_to s =
      let conclude = λ (stat : NfsStat) (s : S).
        with_wcc vfs from_dirid pre_from
          (λ from_wcc s.
            with_wcc vfs to_dirid pre_to
              (λ to_wcc s. (answer xid stat (two_wcc from_wcc to_wcc), s)) s)
          s in
      on_result (vfs.rename from_dirid from.name to_dirid to.name s) (λ u s. conclude nfs3_ok s)
        conclude

  -- What the two checks of access come to; an error of the first is reported first.
  unfoldable pub both : NfsResult ℕ → NfsResult ℕ → NfsResult (Unit {0})
  both (NfsResult.ok from) (NfsResult.ok to) =
      if bit from 2 && bit to 2 then NfsResult.ok tt else NfsResult.err nfs3err_acces
  both (NfsResult.err e) to = NfsResult.err e
  both (NfsResult.ok from) (NfsResult.err e) = NfsResult.err e

module _ {S : Type 0} (vfs : FileSystem S) (auth : AuthUnix) (xid : ℕ) where
  unfoldable pub nfsproc3_remove : Bytes → S → Outcome S
  nfsproc3_remove input s =
      writable vfs xid (write_wcc_data default_wcc_data)
        (on_args (read_diropargs input)
          (λ dirops rest.
            in_directory vfs auth xid dirops.dir write_wcc_data (remove_in vfs xid dirops.name) s)
          s)
        s

  unfoldable pub nfsproc3_rmdir : Bytes → S → Outcome S
  nfsproc3_rmdir input s =
      writable vfs xid (write_wcc_data default_wcc_data)
        (on_args (read_diropargs input)
          (λ dirops rest.
            in_directory vfs auth xid dirops.dir write_wcc_data (rmdir_in vfs xid dirops.name) s)
          s)
        s

  rename_of : DirOpArgs → DirOpArgs → S → Outcome S
  unfolding rename_in
  rename_of from to s =
      let fail : NfsStat → S → Outcome S =
        λ stat s. (answer xid stat (two_wcc default_wcc_data default_wcc_data), s) in
      on_id (fh_to_id vfs.generation from.dir)
        (λ from_dirid.
          on_id (fh_to_id vfs.generation to.dir)
            (λ to_dirid.
              on_result (vfs.getattr from_dirid s)
                (λ from_attr s.
                  on_result (vfs.getattr to_dirid s)
                    (λ to_attr s.
                      let pre_from = some (wcc_attr_of from_attr) in
                      let pre_to = some (wcc_attr_of to_attr) in
                      let (from_access, s1) = vfs.check_access from_dirid auth 4 s in
                      let (to_access, s2) = vfs.check_access to_dirid auth 4 s1 in
                      on_result (both vfs xid from_access to_access, s2)
                        (λ u s. rename_in vfs xid from to from_dirid to_dirid pre_from pre_to s)
                        (λ stat s. (
                          answer xid stat (
                              two_wcc (record { before = pre_from; after = some from_attr })
                                (record { before = pre_to; after = some to_attr })),
                          s,
                        )))
                    fail)
                fail)
            (λ stat. fail stat s))
        (λ stat. fail stat s)

  -- On a read-only export one body is written, where RENAME3resfail has two.
  unfoldable pub nfsproc3_rename : Bytes → S → Outcome S
  unfolding rename_of
  nfsproc3_rename input s =
      writable vfs xid (write_wcc_data default_wcc_data)
        (on_args (read_diropargs input)
          (λ from rest. on_args (read_diropargs rest) (λ to rest'. rename_of from to s) s) s)
        s

  unfoldable pub link_body : WccData → Result Bytes
  link_body wcc = post_op_attr none ⊕ write_wcc_data wcc

  unfoldable pub link_of : Link3Args → S → Outcome S
  unfolding link_body
  link_of args s =
      on_id (fh_to_id vfs.generation args.file)
        (λ fileid.
          in_directory vfs auth xid args.link.dir (link_body)
            (link_in vfs xid args.link.name fileid) s)
        (λ stat. (answer xid stat (link_body default_wcc_data), s))

  unfoldable pub nfsproc3_link : Bytes → S → Outcome S
  unfolding link_of link_body
  nfsproc3_link input s =
      writable vfs xid (link_body default_wcc_data)
        (on_args (read_link3args input) (λ args rest. link_of args s) s) s
