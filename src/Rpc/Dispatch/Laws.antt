-- ===== src/Rpc/Dispatch/Laws.antt =====
-- protocol/rpc/wire.rs: the branches of the handling of one call.
use fernfs.Prelude.{
  ℕ, zero, suc, ◌+◌, ◌≤◌, ◌⊎◌, inl, inr, Bool-cases, ◌≡◌, ◌≢◌, refl, true, false, some, [], ◌++◌,
  append-nil, ◌==◌, ==_iff, arith, length, drop,
}
use fernfs.Io.{Error, ok, err, bad_call_format, Bytes}
use fernfs.Xdr.Portmap
use fernfs.Xdr.Rpc.{AuthUnix, CallBody, call, reply, ReplyBody, RpcMsg, prog_unavail_reply_message}
use fernfs.Xdr.Rpc.Codec.{write_rpc_msg, read_rpc_msg}
use fernfs.Vfs.{FileSystem}
use fernfs.Rpc.Tracker.Keys.{key_eq}
use fernfs.Rpc.Tracker.{completed, in_progress, check}
use fernfs.Rpc.Tracker.Laws.{IsValid, entry, check-in_progress, check-completed}
use fernfs.Rpc.Queue.{ResponseBuffer, new_buffer}
use fernfs.Rpc.Dispatch.{
  Context, Services, Server, NfsHandler, Command, authenticate, key_of, nfs_program, mount_program,
  dispatch, run_call, handle_body, handle_rpc, conclude, process_rpc_command,
}

-- The command holds this call, its arguments and these credentials.
pub record Holds (c : Command) (xid : ℕ) (body : CallBody) (rest : Bytes) (auth : AuthUnix)
    : Type 0 where
  pub reads : read_rpc_msg c.message ≡ ok (record { xid = xid; body = call body }, rest)
  pub authentic : authenticate c.context body ≡ ok auth

-- What is refused before the tracker is asked, and with which error.
pub data Rejected (c : Command) : Error → Type 0 where
  unreadable : {e : Error} → read_rpc_msg c.message ≡ err e → Rejected c e
  bad_credentials :
      {e : Error} {xid : ℕ} {body : CallBody} {rest : Bytes}
      → read_rpc_msg c.message ≡ ok (record { xid = xid; body = call body }, rest)
      → authenticate c.context body ≡ err e
      → Rejected c e
  is_reply :
      {msg : RpcMsg} {b : ReplyBody} {rest : Bytes}
      → read_rpc_msg c.message ≡ ok (msg, rest)
      → msg.body ≡ reply b
      → Rejected c bad_call_format

drop-nil : (n : ℕ) → drop {A = ℕ} n [] ≡ []
drop-nil zero = refl
drop-nil (suc n) = refl

pub overwrite_nil : (w : Bytes) → w ++ drop (length w) [] ≡ w
overwrite_nil w = rw (drop-nil (length w)) (append-nil w)

module _ {S : Type 0} (vfs : FileSystem S) (handle_nfs : NfsHandler S) where
  pub process_call :
      (c : Command) (xid : ℕ) (body : CallBody) (rest : Bytes) (auth : AuthUnix)
      (out : ResponseBuffer) (server : Server S)
      → Holds c xid body rest auth
      → process_rpc_command vfs handle_nfs c out server
        ≡ conclude c.context c.later out (
            run_call vfs handle_nfs c.context auth xid body rest server.services
              (check server.transaction_tracker (key_of c.context xid) c.now))
  unfolding process_rpc_command handle_rpc handle_body
  process_call c xid body rest auth out server h =
      rw (h.reads, handle_rpc) (rw (h.authentic, handle_body) refl)

  -- While a call's reply is kept, a retransmission gets just that reply, byte for byte: no handler
  -- runs, the services stay as they are, and the reply is kept for another period.
  pub process-completed :
      (c : Command) (xid : ℕ) (body : CallBody) (rest : Bytes) (auth : AuthUnix) (server : Server S)
      (since : ℕ) (r : Bytes)
      → Holds c xid body rest auth
      → IsValid server.transaction_tracker
      → entry server.transaction_tracker (key_of c.context xid) ≡ some (completed since r)
      → c.now ≤ since + server.transaction_tracker.retention_period
      → let (answer, out, server') = process_rpc_command vfs handle_nfs c new_buffer server in
        (answer ≡ ok true)
        × (out.buffer ≡ r)
        × (server'.services ≡ server.services)
        × (entry server'.transaction_tracker (key_of c.context xid) ≡ some (completed c.now r))
  unfolding run_call conclude
  process-completed c xid body rest auth server since r h valid e young =
      let k =
        check-completed server.transaction_tracker (key_of c.context xid) c.now since r valid e
          young in
      rw (process_call c xid body rest auth new_buffer server h)
        (ground (arith, k, overwrite_nil r))

  -- While a call is in progress, a retransmission gets no reply, and changes nothing.
  pub process-in_progress :
      (c : Command) (xid : ℕ) (body : CallBody) (rest : Bytes) (auth : AuthUnix) (server : Server S)
      → Holds c xid body rest auth
      → IsValid server.transaction_tracker
      → entry server.transaction_tracker (key_of c.context xid) ≡ some in_progress
      → let (answer, out, server') = process_rpc_command vfs handle_nfs c new_buffer server in
        (answer ≡ ok false)
        × (out.buffer ≡ [])
        × (server'.services ≡ server.services)
        × (entry server'.transaction_tracker (key_of c.context xid) ≡ some in_progress)
  unfolding run_call conclude
  process-in_progress c xid body rest auth server h valid e =
      let k = check-in_progress server.transaction_tracker (key_of c.context xid) c.now valid e in
      rw (process_call c xid body rest auth new_buffer server h) (ground (arith, k))

  -- A message that cannot be read, whose credentials cannot be read, or that is a reply, is an
  -- error, and neither the tracker nor the services see anything of it.
  pub process-Rejected :
      (c : Command) (server : Server S) (e : Error)
      → Rejected c e
      → process_rpc_command vfs handle_nfs c new_buffer server ≡ (err e, new_buffer, server)
  unfolding process_rpc_command handle_rpc handle_body conclude
  process-Rejected c server e (Rejected.unreadable r) = rw (r, handle_rpc) refl
  process-Rejected c server e (Rejected.bad_credentials r a) =
      rw (r, handle_rpc) (rw (a, handle_body) refl)
  process-Rejected c server e (Rejected.is_reply r b) =
      rw (r, handle_rpc) (rw (b, handle_body) refl)

  -- Each program changes only what is its own: the portmapper its table, the mount program the
  -- signals; the files belong to NFS and mount.
  pub dispatch_frame :
      (context : Context) (auth : AuthUnix) (xid : ℕ) (c : CallBody) (input : Bytes)
      (s : Services S)
      → let (w, s') = dispatch vfs handle_nfs context auth xid c input s in
        ((c.prog ≡ Portmap.program) ⊎ (s'.portmap_table ≡ s.portmap_table))
        × ((c.prog ≡ mount_program) ⊎ (s'.mount_signals ≡ s.mount_signals))
        × ((c.prog ≡ mount_program) ⊎ (c.prog ≡ nfs_program) ⊎ (s'.files ≡ s.files))
  unfolding dispatch
  dispatch_frame context auth xid c input s = (
    elim (Bool-cases (c.prog == Portmap.program)) [
      | inl e ↦ inl ((==_iff _ _).0 e)
      | inr e ↦ inr (ground arith)
    ],
    elim (Bool-cases (c.prog == mount_program)) [
      | inl e ↦ inl ((==_iff _ _).0 e)
      | inr e ↦ inr (ground arith)
    ],
    elim (Bool-cases (c.prog == mount_program)) [
      | inl e ↦ inl ((==_iff _ _).0 e)
      | inr e ↦ inr (elim (Bool-cases (c.prog == nfs_program)) [
        | inl f ↦ inl ((==_iff _ _).0 f)
        | inr f ↦ inr (ground arith)
      ])
    ],
  )

  -- A call of a program that is not served changes nothing, and is answered that the program is
  -- not available.
  pub dispatch_unavailable :
      (context : Context) (auth : AuthUnix) (xid : ℕ) (c : CallBody) (input : Bytes)
      (s : Services S)
      → c.prog ≢ nfs_program
      → c.prog ≢ Portmap.program
      → c.prog ≢ mount_program
      → dispatch vfs handle_nfs context auth xid c input s
        ≡ (write_rpc_msg (prog_unavail_reply_message xid), s)
  unfolding dispatch
  dispatch_unavailable context auth xid c input s n p m = ground arith
