-- ===== src/Nfs/Steps.antt =====
-- protocol/nfs/v3: the steps that the procedures have in common, which the source writes out in
-- each: the status and body of a reply, the file of a handle, the access that is asked for, and the
-- directory that is changed.
use fernfs.Prelude.{ℕ, Option, none, some, if◌then◌else◌}
use fernfs.Io.{Result, ok, err, Bytes, ◌⊕◌}
use fernfs.Xdr.Opaque.{write_opaque}
use fernfs.Xdr.Array.{write_option}
use fernfs.Xdr.Rpc.{AuthUnix, make_success_reply}
use fernfs.Xdr.Rpc.Codec.{write_rpc_msg}
use fernfs.Xdr.Nfs3.{
  NfsStat, nfs3_ok, nfs3err_acces, nfs3err_rofs, NfsResult, Fattr, WccAttr, WccData,
  default_wcc_data,
}
use fernfs.Xdr.Nfs3.Codec.{write_nfsstat, write_fattr}
use fernfs.Xdr.Nfs3.Args.{write_wcc_data}
use fernfs.Vfs.{Capabilities, read_only, read_write, FileSystem}
use fernfs.Vfs.Handles.{id_to_fh, fh_to_id}
use fernfs.Vfs.Permissions.{bit}

-- What is written, and the state of the file system.
abbrev pub Outcome : Type 0 → Type 0
Outcome S = Result Bytes × S

unfoldable pub answer : ℕ → NfsStat → Result Bytes → Result Bytes
answer xid stat body = write_rpc_msg (make_success_reply xid) ⊕ write_nfsstat stat ⊕ body

abbrev pub post_op_attr : Option Fattr → Result Bytes
post_op_attr a = write_option write_fattr a

abbrev pub wcc_attr_of : Fattr → WccAttr
wcc_attr_of a = record { size = a.size; mtime = a.mtime; ctime = a.ctime }

-- `.ok()`
abbrev pub to_option {ℓ} : {A : Type ℓ} → NfsResult A → Option A
to_option (NfsResult.ok a) = some a
to_option (NfsResult.err e) = none

module _ {S : Type 0} where
  -- A `match` on a result, whose arms go on from the state that the call left.
  abbrev pub on_result {ℓ} :
      {A : Type ℓ} → NfsResult A × S → (A → S → Outcome S) → (NfsStat → S → Outcome S) → Outcome S
  on_result (NfsResult.ok a, s) f g = f a s
  on_result (NfsResult.err e, s) f g = g e s

  abbrev pub on_id : NfsResult ℕ → (ℕ → Outcome S) → (NfsStat → Outcome S) → Outcome S
  on_id (NfsResult.ok id) f g = f id
  on_id (NfsResult.err e) f g = g e

  -- `deserialize::<T>(input)?`
  abbrev pub on_args {ℓ} :
      {A : Type ℓ} → Result (A × Bytes) → (A → Bytes → Outcome S) → S → Outcome S
  on_args (ok (a, rest)) f s = f a rest
  on_args (err e) f s = (err e, s)

module _ {S : Type 0} (xid : ℕ) where
  -- `matches!(capabilities, ReadWrite)`, which each changing procedure asks before it reads
  unfoldable pub when_writable : Capabilities → Result Bytes → Outcome S → S → Outcome S
  when_writable read_write body go s = go
  when_writable read_only body go s = (answer xid nfs3err_rofs body, s)

module _ {S : Type 0} (vfs : FileSystem S) where
  -- The directory's attributes are read again for the reply.
  unfoldable pub with_wcc : ℕ → Option WccAttr → (WccData → S → Outcome S) → S → Outcome S
  with_wcc dirid before go s =
      let (r, s') = vfs.getattr dirid s in go (record { before = before; after = to_option r }) s'

  -- `check_access` for one bit of the mask, the bit `k`
  unfoldable pub allowed :
      AuthUnix → ℕ → ℕ → ℕ → (S → Outcome S) → (NfsStat → S → Outcome S) → S → Outcome S
  allowed auth id mask k go deny s =
      on_result (vfs.check_access id auth mask s)
        (λ granted s. if bit granted k then go s else deny nfs3err_acces s) deny

module _ {S : Type 0} (vfs : FileSystem S) (xid : ℕ) where
  unfoldable pub writable : Result Bytes → Outcome S → S → Outcome S
  writable body go s = when_writable xid vfs.capabilities body go s

  -- The body of CREATE3resok, MKDIR3resok, SYMLINK3resok and MKNOD3resok.
  unfoldable pub created : ℕ → Option Fattr → WccData → Result Bytes
  created fid attr wcc = answer xid nfs3_ok (
      write_option write_opaque (some (id_to_fh vfs.generation fid))
      ⊕ post_op_attr attr
      ⊕ write_wcc_data wcc)

module _ {S : Type 0} (vfs : FileSystem S) (auth : AuthUnix) (xid : ℕ) where
  -- What every change of a directory begins with: its handle, its attributes, and the right to
  -- MODIFY it. `fail` writes the body of a reply that is not a success.
  unfoldable pub in_directory :
      Bytes → (WccData → Result Bytes) → (ℕ → Option WccAttr → S → Outcome S) → S → Outcome S
  in_directory handle fail go s =
      on_id (fh_to_id vfs.generation handle)
        (λ dirid.
          on_result (vfs.getattr dirid s)
            (λ dir_attr s.
              let before = some (wcc_attr_of dir_attr) in
              allowed vfs auth dirid 4 2 (go dirid before)
                (λ stat s.
                  (answer xid stat (fail (record { before = before; after = some dir_attr })), s))
                s)
            (λ stat s. (answer xid stat (fail default_wcc_data), s)))
        (λ stat. (answer xid stat (fail default_wcc_data), s))
