-- ===== src/Nfs/Stat.antt =====
-- protocol/nfs/v3: fsinfo.rs, fsstat.rs and pathconf.rs, what the file system says of itself.
use fernfs.Prelude.{ℕ, none}
use fernfs.Io.{Bytes}
use fernfs.Xdr.Opaque.{read_opaque}
use fernfs.Xdr.Nfs3.{nfs3_ok}
use fernfs.Xdr.Nfs3.Fs.{write_fsinfo, write_fsstat, write_pathconf}
use fernfs.Vfs.{FileSystem}
use fernfs.Vfs.Handles.{fh_to_id}
use fernfs.Nfs.Steps.{Outcome, answer, post_op_attr, to_option, on_result, on_id, on_args}

module _ {S : Type 0} (vfs : FileSystem S) (xid : ℕ) where
  -- A handle is all that the three procedures read, and a refused one is answered alike.
  unfoldable pub of_handle : Bytes → (ℕ → Outcome S) → S → Outcome S
  of_handle input go s =
      on_args (read_opaque input)
        (λ handle rest.
          on_id (fh_to_id vfs.generation handle) go
            (λ stat. (answer xid stat (post_op_attr none), s)))
        s

  unfoldable pub nfsproc3_fsinfo : Bytes → S → Outcome S
  nfsproc3_fsinfo input s =
      of_handle input
        (λ id.
          on_result (vfs.fsinfo id s) (λ fsinfo s. (answer xid nfs3_ok (write_fsinfo fsinfo), s))
            (λ stat s. (answer xid stat (post_op_attr none), s)))
        s

  unfoldable pub nfsproc3_fsstat : Bytes → S → Outcome S
  nfsproc3_fsstat input s =
      of_handle input
        (λ id.
          on_result (vfs.fsstat id s) (λ res s. (answer xid nfs3_ok (write_fsstat res), s))
            (λ stat s.
              let (r, s') = vfs.getattr id s in (answer xid stat (post_op_attr (to_option r)), s')))
        s

  unfoldable pub nfsproc3_pathconf : Bytes → S → Outcome S
  nfsproc3_pathconf input s =
      of_handle input
        (λ id.
          let (r, s') = vfs.getattr id s in
          (
            answer xid nfs3_ok (
                write_pathconf (record {
                  obj_attributes = to_option r;
                  linkmax = vfs.pathconf_linkmax;
                  name_max = vfs.pathconf_name_max;
                  no_trunc = vfs.pathconf_no_trunc;
                  chown_restricted = vfs.pathconf_chown_restricted;
                  case_insensitive = vfs.pathconf_case_insensitive;
                  case_preserving = vfs.pathconf_case_preserving;
                })),
            s',
          ))
        s
