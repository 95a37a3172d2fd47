-- ===== src/Rpc/Dispatch.antt =====
-- protocol/rpc/wire.rs: what is done for one call, and which program's handler runs for it;
-- protocol/rpc/context.rs: what the call's handler may look at.
pub mod Laws
pub mod Retransmission
use Prim.Native.String.{String}
use fernfs.Prelude.{
  ℕ, Bool, true, false, ◌&&◌, ◌||◌, not, Option, none, some, List, [], ◌∷◌, ◌++◌, ◌==◌,
  if◌then◌else◌, length, drop,
}
use fernfs.Io.{Error, Result, ok, err, bad_call_format, Bytes}
use fernfs.Xdr.Portmap
use fernfs.Xdr.Rpc.{
  AuthFlavor, auth_null, auth_unix, auth_short, auth_des, AuthUnix, CallBody, RpcBody, call, reply,
  RpcMsg, prog_unavail_reply_message, prog_mismatch_reply_message, rpc_vers_mismatch,
}
use fernfs.Xdr.Rpc.Codec.{write_rpc_msg, read_rpc_msg, read_auth_unix}
use fernfs.Vfs.{FileSystem}
use fernfs.Portmap.{PortmapTable, handle_portmap}
use fernfs.Mount.{Exports, Outcome, handle_mount}
use fernfs.Rpc.Tracker.Keys.{Key}
use fernfs.Rpc.Tracker
use fernfs.Rpc.Tracker.{TransactionTracker, TransactionStatus, check, record_response}
use fernfs.Rpc.Queue.{ResponseBuffer}

abbrev pub nfs_program : ℕ
nfs_program = 100003

abbrev pub nfs_version : ℕ
nfs_version = 3

abbrev pub mount_program : ℕ
mount_program = 100005

abbrev pub nfs_acl_program : ℕ
nfs_acl_program = 100227

abbrev pub nfs_id_map_program : ℕ
nfs_id_map_program = 100270

abbrev pub nfs_localio_program : ℕ
nfs_localio_program = 400122

abbrev pub nfs_metadata_program : ℕ
nfs_metadata_program = 200024

-- The parts of the context that belong to a connection.
pub record Context : Type 0 where
  pub client_addr : String
  pub auth : AuthUnix
  pub exports : Exports

-- What the handlers change: the portmapper's table, the signals sent to the mount listener, and
-- the file system.
pub record Services (S : Type 0) : Type 0 where
  pub portmap_table : PortmapTable
  pub mount_signals : List Bool
  pub files : S

-- What all connections share.
pub record Server (S : Type 0) : Type 0 where
  pub transaction_tracker : TransactionTracker
  pub services : Services S

pub data RpcOutcome : Type 0 where
  send : ℕ → Bool → RpcOutcome
  drop_reply : RpcOutcome

-- The NFS program is an interface here: with which credentials, for which call, on which
-- arguments, and what it writes.
abbrev pub NfsHandler : Type 0 → Type 0
NfsHandler S = AuthUnix → ℕ → CallBody → Bytes → S → Result Bytes × S

abbrev is_auth_unix : AuthFlavor → Bool
is_auth_unix auth_unix = true
is_auth_unix auth_null = false
is_auth_unix auth_short = false
is_auth_unix auth_des = false

-- The credentials that the handler sees; bytes after them are not looked at.
unfoldable pub authenticate : Context → CallBody → Result AuthUnix
authenticate context c =
    let read : Result AuthUnix = elim (read_auth_unix c.cred.body) [
      | ok (auth, rest) ↦ ok auth
      | err e ↦ err e
    ] in
    if is_auth_unix c.cred.flavor then read else ok context.auth

abbrev pub key_of : Context → ℕ → Key
key_of context xid = record { xid = xid; client_addr = context.client_addr }

-- `Cursor::new(&mut buffer)` writes from the buffer's start on.
abbrev pub overwrite : Bytes → Bytes → Bytes
overwrite buffer bytes = bytes ++ drop (length bytes) buffer

-- A command with the times at which the tracker is asked and the reply is recorded.
pub record Command : Type 0 where
  pub message : Bytes
  pub context : Context
  pub now : ℕ
  pub later : ℕ

abbrev pub is_empty_bytes : Bytes → Bool
is_empty_bytes [] = true
is_empty_bytes (b ∷ bytes) = false

module _ {S : Type 0} where
  -- The outcome and what was written; a failed call's entry is cleared.
  unfoldable pub finish :
      Key → TransactionTracker → Result Bytes × Services S → Result (RpcOutcome × Bytes) × Server S
  finish key t (ok w, s) =
      (ok (send key.xid true, w), record { transaction_tracker = t; services = s })
  finish key t (err e, s) =
      (err e, record { transaction_tracker = Tracker.clear t key; services = s })

  -- The reply is recorded at the time `later`, unless it is a replay or nothing was written. What
  -- a failed call has written stays behind in the buffer; here none of it is kept.
  unfoldable pub conclude :
      Context
      → ℕ
      → ResponseBuffer
      → Result (RpcOutcome × Bytes) × Server S
      → Result Bool × ResponseBuffer × Server S
  conclude context later out (err e, server) = (err e, out, server)
  conclude context later out (ok (drop_reply, w), server) =
      (ok false, record out { buffer = overwrite out.buffer w }, server)
  conclude context later out (ok (send xid recorded, w), server) =
      let buffer' = overwrite out.buffer w in
      let t = server.transaction_tracker in
      (
        ok true,
        record out { buffer = buffer' },
        record server {
          transaction_tracker =
              if recorded && not (is_empty_bytes buffer')
              then record_response t (key_of context xid) buffer' later
              else t;
        },
      )

module _ {S : Type 0} (vfs : FileSystem S) (handle_nfs : NfsHandler S) where
  run_nfs : AuthUnix → ℕ → CallBody → Bytes → Services S → Result Bytes × Services S
  run_nfs auth xid c input s =
      if c.vers == nfs_version
      then (let (w, files') = handle_nfs auth xid c input s.files in
          (w, record s { files = files' }))
      else (write_rpc_msg (prog_mismatch_reply_message xid nfs_version), s)

  run_portmap : ℕ → CallBody → Bytes → Services S → Result Bytes × Services S
  run_portmap xid c input s =
      let (w, table) = handle_portmap xid c input s.portmap_table in
      (w, record s { portmap_table = table })

  run_mount : Context → ℕ → CallBody → Bytes → Services S → Result Bytes × Services S
  run_mount context xid c input s =
      let (w, signals, files') = handle_mount vfs context.exports xid c input s.files in
      (w, record s { mount_signals = s.mount_signals ++ signals; files = files' })

  -- The `match` on the program of a call.
  unfoldable pub dispatch :
      Context → AuthUnix → ℕ → CallBody → Bytes → Services S → Result Bytes × Services S
  unfolding run_nfs run_portmap run_mount
  dispatch context auth xid c input s =
      if c.prog == nfs_program
      then run_nfs auth xid c input s
      else if c.prog == Portmap.program
      then run_portmap xid c input s
      else if c.prog == mount_program
      then run_mount context xid c input s
      else if c.prog == nfs_acl_program
          || c.prog == nfs_id_map_program
          || c.prog == nfs_metadata_program
      then (write_rpc_msg (prog_unavail_reply_message xid), s)
      else if c.prog == nfs_localio_program
      then (write_rpc_msg (prog_unavail_reply_message xid), s)
      else (write_rpc_msg (prog_unavail_reply_message xid), s)

  -- A version other than 2 is refused before the program is looked at.
  unfoldable pub run_new :
      Context → AuthUnix → ℕ → CallBody → Bytes → Services S → Result Bytes × Services S
  run_new context auth xid c input s =
      if not (c.rpcvers == 2)
      then (write_rpc_msg (rpc_vers_mismatch xid), s)
      else dispatch context auth xid c input s

  unfoldable pub run_call :
      Context
      → AuthUnix
      → ℕ
      → CallBody
      → Bytes
      → Services S
      → TransactionStatus × TransactionTracker
      → Result (RpcOutcome × Bytes) × Server S
  run_call context auth xid c input s (TransactionStatus.completed response, t) =
      (ok (send xid false, response), record { transaction_tracker = t; services = s })
  run_call context auth xid c input s (TransactionStatus.in_progress, t) =
      (ok (drop_reply, []), record { transaction_tracker = t; services = s })
  run_call context auth xid c input s (TransactionStatus.new, t) =
      finish (key_of context xid) t (run_new context auth xid c input s)

  unfoldable pub handle_body :
      Context → ℕ → ℕ → RpcBody → Bytes → Server S → Result (RpcOutcome × Bytes) × Server S
  handle_body context now xid (reply b) input server = (err bad_call_format, server)
  handle_body context now xid (call c) input server = elim (authenticate context c) [
    | ok auth ↦
        run_call context auth xid c input server.services
          (check server.transaction_tracker (key_of context xid) now)
    | err e ↦ (err e, server)
  ]

  -- `handle_rpc`, which asks the tracker at the time `now`
  unfoldable pub handle_rpc :
      Context → ℕ → Bytes → Server S → Result (RpcOutcome × Bytes) × Server S
  handle_rpc context now input server = elim (read_rpc_msg input) [
    | ok (msg, rest) ↦ handle_body context now msg.xid msg.body rest server
    | err e ↦ (err e, server)
  ]

  unfoldable pub process_rpc_command :
      Command → ResponseBuffer → Server S → Result Bool × ResponseBuffer × Server S
  process_rpc_command c out server =
      conclude c.context c.later out (handle_rpc c.context c.now c.message server)
