-- ===== src/Nfs/Denied.antt =====
-- protocol/nfs/v3: what a procedure that changes a directory does where the directory's handle is
-- refused, or the client may not modify it.
use fernfs.Prelude.{ℕ, ◌≡◌, ◌∙◌, false, some}
use fernfs.Io.{Bytes}
use fernfs.Xdr.Rpc.{AuthUnix}
use fernfs.Xdr.Nfs3.{NfsStat, nfs3err_acces, NfsResult, Fattr, WccAttr, default_wcc_data}
use fernfs.Prelude.{Option}
use fernfs.Vfs.{read_write, FileSystem}
use fernfs.Vfs.Handles.{fh_to_id}
use fernfs.Vfs.Permissions.{bit}
use fernfs.Nfs.Steps.{Outcome, answer, wcc_attr_of, in_directory, allowed}
use fernfs.Nfs.Create.{nfsproc3_create, nfsproc3_mkdir, nfsproc3_symlink, nfsproc3_mknod}
use fernfs.Nfs.Remove.{nfsproc3_remove, nfsproc3_rmdir, nfsproc3_link, link_of, link_body}
use fernfs.Nfs.ReadOnly.{
  Changing, change, Targets, to_remove, to_rmdir, to_mkdir, to_symlink, to_mknod, to_create,
  to_link, failure, writable_read_write,
}

module _ {S : Type 0} (vfs : FileSystem S) (auth : AuthUnix) (xid : ℕ) where
  -- What the procedure comes to, if the two parts that all of them begin with come to `outcome`.
  through_directory :
      (p : Changing) (input handle : Bytes) (s : S) (outcome : Outcome S)
      → vfs.capabilities ≡ read_write
      → Targets vfs.generation p input handle
      → ((go : ℕ → Option WccAttr → S → Outcome S)
          → in_directory vfs auth xid handle (failure p) go s ≡ outcome)
      → change vfs auth xid p input s ≡ outcome
  unfolding change nfsproc3_create nfsproc3_mkdir nfsproc3_symlink nfsproc3_mknod nfsproc3_remove
      nfsproc3_rmdir nfsproc3_link link_of link_body
  through_directory p input handle s outcome w (to_remove e) h =
      writable_read_write vfs auth xid _ _ s w ∙ rw e (h _)
  through_directory p input handle s outcome w (to_rmdir e) h =
      writable_read_write vfs auth xid _ _ s w ∙ rw e (h _)
  through_directory p input handle s outcome w (to_mkdir e) h =
      writable_read_write vfs auth xid _ _ s w ∙ rw e (h _)
  through_directory p input handle s outcome w (to_symlink e) h =
      writable_read_write vfs auth xid _ _ s w ∙ rw e (h _)
  through_directory p input handle s outcome w (to_mknod e) h =
      writable_read_write vfs auth xid _ _ s w ∙ rw e (h _)
  through_directory p input handle s outcome w (to_create e f) h =
      writable_read_write vfs auth xid _ _ s w ∙ rw e (rw f (h _))
  through_directory p input handle s outcome w (to_link e f) h =
      writable_read_write vfs auth xid _ _ s w ∙ rw e (rw f (h _))

  -- A directory's handle that is refused, stale or bad, is answered so by every procedure that
  -- changes one directory, LINK with a good file included, and the file system is not called.
  pub change_refused :
      (p : Changing) (input handle : Bytes) (s : S) (stat : NfsStat)
      → vfs.capabilities ≡ read_write
      → Targets vfs.generation p input handle
      → fh_to_id vfs.generation handle ≡ NfsResult.err stat
      → change vfs auth xid p input s ≡ (answer xid stat (failure p default_wcc_data), s)
  change_refused p input handle s stat w t e =
      through_directory p input handle s _ w t (λ go. unfold in_directory in rw e)

  -- Where the client is not granted MODIFY on the directory, each of CREATE, MKDIR, SYMLINK, MKNOD,
  -- REMOVE, RMDIR and LINK, the procedures that change one directory, answers that access is denied,
  -- with the directory's attributes, in LINK behind those of the file, which are left out, and calls
  -- nothing but the two methods that look at the directory. The arguments can be read, and the handle of
  -- LINK's file is good.
  pub change_denied :
      (p : Changing) (input handle : Bytes) (s s1 s2 : S) (dirid granted : ℕ) (attr : Fattr)
      → vfs.capabilities ≡ read_write
      → Targets vfs.generation p input handle
      → fh_to_id vfs.generation handle ≡ NfsResult.ok dirid
      → vfs.getattr dirid s ≡ (NfsResult.ok attr, s1)
      → vfs.check_access dirid auth 4 s1 ≡ (NfsResult.ok granted, s2)
      → bit granted 2 ≡ false
      → change vfs auth xid p input s ≡ (
        answer xid nfs3err_acces
            (failure p (record { before = some (wcc_attr_of attr); after = some attr })),
        s2,
      )
  change_denied p input handle s s1 s2 dirid granted attr w t e a c b =
      through_directory p input handle s _ w t
        (λ go. unfold in_directory allowed in rw (e, a, c, b))
