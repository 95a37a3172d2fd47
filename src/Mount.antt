-- ===== src/Mount.antt =====
-- protocol/nfs/mount: the MOUNT protocol.
pub mod Laws
pub mod Replies
use fernfs.Prelude.{
  ℕ, ◌+◌, Bool, true, false, Option, none, some, List, [], ◌∷◌, ◌++◌, ◌==◌, if◌then◌else◌, length,
}
use mathlib.Core.List.{reverse}
use fernfs.Io.{Result, ok, err, Bytes, ◌⊕◌}
use fernfs.Xdr.Word.{write_u32, write_bool}
use fernfs.Xdr.Opaque.{write_opaque, read_opaque}
use fernfs.Xdr.Array.{write_array}
use fernfs.Xdr.Nfs3.{NfsResult}
use fernfs.Xdr.Rpc.{CallBody, make_success_reply, proc_unavail_reply_message}
use fernfs.Xdr.Rpc.Codec.{write_rpc_msg}
use fernfs.Vfs.{FileSystem}
use fernfs.Vfs.Handles.{id_to_fh}
use fernfs.Vfs.Paths.{slash, path_to_id}

-- protocol/xdr/mount.rs: the codes of `mountstat3` that the server answers with
abbrev pub mnt3_ok : ℕ
mnt3_ok = 0

abbrev pub mnt3err_noent : ℕ
mnt3err_noent = 2

unfoldable pub trim_start_slashes : Bytes → Bytes
trim_start_slashes [] = []
trim_start_slashes (b ∷ path) =
    let rest = trim_start_slashes path in if b == slash then rest else b ∷ path

-- The last bytes are looked at first: the end of a path is the beginning of its reverse.
unfoldable pub trim_end_slashes : Bytes → Bytes
trim_end_slashes path = reverse (trim_start_slashes (reverse path))

unfoldable pub trim_slashes : Bytes → Bytes
trim_slashes path = trim_end_slashes (trim_start_slashes path)

unfoldable pub strip_prefix : Bytes → Bytes → Option Bytes
strip_prefix [] requested = some requested
strip_prefix (p ∷ prefix) [] = none
strip_prefix (p ∷ prefix) (b ∷ requested) =
    let rest = strip_prefix prefix requested in if p == b then rest else none

-- what is left behind the export's name: nothing, or a path below it
unfoldable pub below : Bytes → Option Bytes
below [] = some []
below (b ∷ rest) = if b == slash then some rest else none

below_export : Option Bytes → Option Bytes
below_export none = none
below_export (some rest) = below rest

abbrev pub strip_root : Bytes → Option Bytes
strip_root [] = none
strip_root (b ∷ rest) = if b == slash then some rest else none

abbrev pub is_root : Bytes → Bool
is_root (b ∷ []) = b == slash
is_root _ = false

unfoldable pub export_subpath : Bytes → Bytes → Option Bytes
unfolding below_export
export_subpath requested export =
    if is_root export then strip_root requested else below_export (strip_prefix export requested)

-- The part of the context that the protocol uses: the export's name, and whether a listener for
-- mounts is set.
pub record Exports : Type 0 where
  pub export_name : Bytes
  pub has_listener : Bool

module _ {S : Type 0} (vfs : FileSystem S) (context : Exports) where
  -- What is written; the signals that were sent to the listener; and the state of the file system.
  abbrev pub Outcome : Type 0
  Outcome = Result Bytes × List Bool × S

  abbrev pub signal : Bool → List Bool
  signal mounted = if context.has_listener then mounted ∷ [] else []

  abbrev pub no_entry : ℕ → Result Bytes
  no_entry xid = write_rpc_msg (make_success_reply xid) ⊕ write_u32 mnt3err_noent

  -- `mountres3_ok`: the handle, and AUTH_NULL and AUTH_UNIX
  abbrev pub mounted_reply : ℕ → ℕ → Result Bytes
  mounted_reply xid fileid =
      write_rpc_msg (make_success_reply xid)
      ⊕ write_u32 mnt3_ok
      ⊕ write_opaque (id_to_fh vfs.generation fileid)
      ⊕ write_array write_u32 (0 ∷ 1 ∷ [])

  unfoldable pub found : ℕ → NfsResult ℕ × S → Outcome
  found xid (NfsResult.ok fileid, s) = (mounted_reply xid fileid, signal true, s)
  found xid (NfsResult.err e, s) = (no_entry xid, [], s)

  mount_path : ℕ → Option Bytes → S → Outcome
  mount_path xid none s = (no_entry xid, [], s)
  mount_path xid (some path) s = found xid (path_to_id vfs (slash ∷ trim_slashes path) s)

  unfoldable pub mountproc3_mnt : ℕ → Bytes → S → Outcome
  unfolding mount_path found
  mountproc3_mnt xid input s = elim (read_opaque input) [
    | ok (path, rest) ↦ mount_path xid (export_subpath path context.export_name) s
    | err e ↦ (err e, [], s)
  ]

  unfoldable pub mountproc3_null : ℕ → S → Outcome
  mountproc3_null xid s = (write_rpc_msg (make_success_reply xid), [], s)

  -- The path is read, and only shown in a log.
  unfoldable pub mountproc3_umnt : ℕ → Bytes → S → Outcome
  mountproc3_umnt xid input s = elim (read_opaque input) [
    | ok (path, rest) ↦
        (write_rpc_msg (make_success_reply xid) ⊕ write_u32 mnt3_ok, signal false, s)
    | err e ↦ (err e, [], s)
  ]

  unfoldable pub mountproc3_umnt_all : ℕ → S → Outcome
  mountproc3_umnt_all xid s =
      (write_rpc_msg (make_success_reply xid) ⊕ write_u32 mnt3_ok, signal false, s)

  -- One export, with no groups.
  unfoldable pub mountproc3_export : ℕ → S → Outcome
  mountproc3_export xid s = (
    write_rpc_msg (make_success_reply xid)
        ⊕ write_bool true
        ⊕ write_opaque context.export_name
        ⊕ write_bool false
        ⊕ write_bool false,
    [],
    s,
  )

  unfoldable pub handle_mount : ℕ → CallBody → Bytes → S → Outcome
  unfolding mountproc3_mnt mountproc3_null mountproc3_umnt mountproc3_umnt_all mountproc3_export
  handle_mount xid call input s =
      if call.proc == 0
      then mountproc3_null xid s
      else if call.proc == 1
      then mountproc3_mnt xid input s
      else if call.proc == 3
      then mountproc3_umnt xid input s
      else if call.proc == 4
      then mountproc3_umnt_all xid s
      else if call.proc == 5
      then mountproc3_export xid s
      else (write_rpc_msg (proc_unavail_reply_message xid), [], s)
