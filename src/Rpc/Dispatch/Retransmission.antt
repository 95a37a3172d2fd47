-- ===== src/Rpc/Dispatch/Retransmission.antt =====
-- protocol/rpc/wire.rs with transaction_tracker.rs: what a client sees that sends a call again.
use fernfs.Prelude.{
  ℕ, ◌+◌, ◌≤◌, ◌≡◌, refl, ◌∙◌, true, false, none, List, [], arith, All, ◌≢◌, append-nil,
}
use fernfs.Prelude.HashMap.{get-remove}
use fernfs.Io.{Error, ok, err, Bytes}
use fernfs.Xdr.Word.{IsU32}
use fernfs.Xdr.Rpc.{AuthUnix, CallBody, reply, msg_denied, rpc_mismatch, rpc_vers_mismatch}
use fernfs.Xdr.Rpc.Codec.{read_rpc_msg}
use fernfs.Xdr.Rpc.RoundTrip.{read_rpc_msg-write_rpc_msg}
use fernfs.Vfs.{FileSystem}
use fernfs.Rpc.Tracker.Keys.{key_eq, key_beq_iff}
use fernfs.Rpc.Tracker.{new, check, record_response, clear}
use fernfs.Rpc.Tracker.Laws.{IsValid, entry, check-IsValid, check-new, clear-IsValid}
use fernfs.Rpc.Tracker.Trace.{Op, run}
use fernfs.Rpc.Tracker.Replay.{IsWithin, check-retention, replays_recorded}
use fernfs.Rpc.Queue.{new_buffer}
use fernfs.Rpc.Dispatch.{
  Services, Server, NfsHandler, Command, key_of, is_empty_bytes, finish, run_new, run_call,
  conclude, process_rpc_command,
}
use fernfs.Rpc.Dispatch.Laws.{Holds, process_call, overwrite_nil}

module _ {S : Type 0} (vfs : FileSystem S) (handle_nfs : NfsHandler S) where
  -- The first time a call is seen its handler runs once, and its reply is sent and recorded.
  process-new :
      (c : Command) (xid : ℕ) (body : CallBody) (rest : Bytes) (auth : AuthUnix) (server : Server S)
      (w : Bytes) (s' : Services S)
      → Holds c xid body rest auth
      → IsValid server.transaction_tracker
      → entry server.transaction_tracker (key_of c.context xid) ≡ none
      → run_new vfs handle_nfs c.context auth xid body rest server.services ≡ (ok w, s')
      → is_empty_bytes w ≡ false
      → process_rpc_command vfs handle_nfs c new_buffer server ≡ (
        ok true,
        record { buffer = w; has_content = false },
        record {
          transaction_tracker =
              record_response
                (check server.transaction_tracker (key_of c.context xid) c.now).1
                (key_of c.context xid)
                w
                c.later;
          services = s';
        },
      )
  unfolding run_call finish conclude
  process-new c xid body rest auth server w s' h valid e r full =
      let k = check-new server.transaction_tracker (key_of c.context xid) c.now valid e in
      rw (process_call vfs handle_nfs c xid body rest auth new_buffer server h)
        (ground (arith, k, overwrite_nil w))

  -- A call that is sent again within the retention period of its reply, from the same address and
  -- whatever the server did in between for other calls, on this connection or on others, gets the
  -- reply that it got the first time, and changes no service.
  pub retransmission_replayed :
      (first again : Command) (xid : ℕ) (body body' : CallBody) (rest rest' : Bytes)
      (auth auth' : AuthUnix) (server server' : Server S) (ops : List Op) (w : Bytes)
      (s' : Services S)
      → Holds first xid body rest auth
      → Holds again xid body' rest' auth'
      → again.context.client_addr ≡ first.context.client_addr
      → IsValid server.transaction_tracker
      → entry server.transaction_tracker (key_of first.context xid) ≡ none
      → run_new vfs handle_nfs first.context auth xid body rest server.services ≡ (ok w, s')
      → is_empty_bytes w ≡ false
      → server'.transaction_tracker
        ≡ run (process_rpc_command vfs handle_nfs first new_buffer server).2.transaction_tracker ops
      → All
          (IsWithin
            (key_of first.context xid)
            first.later
            server.transaction_tracker.retention_period)
          ops
      → first.later ≤ again.now
      → again.now ≤ first.later + server.transaction_tracker.retention_period
      → let (answer, out, final) = process_rpc_command vfs handle_nfs again new_buffer server' in
        (answer ≡ ok true)
        × (out.buffer ≡ (process_rpc_command vfs handle_nfs first new_buffer server).1.buffer)
        × (final.services ≡ server'.services)
  unfolding run_call conclude
  retransmission_replayed first again xid body body' rest rest' auth auth' server server' ops w s' h
        h' same valid e r full between within lo hi =
      let key = key_of first.context xid in
      let t = (check server.transaction_tracker key first.now).1 in
      let p = process-new first xid body rest auth server w s' h valid e r full in
      let period = check-retention server.transaction_tracker key first.now in
      let k =
        replays_recorded t key w first.later again.now ops
          (check-IsValid server.transaction_tracker key first.now valid) (rw period within) lo
          (rw period hi) in
      rw (process_call vfs handle_nfs again xid body' rest' auth' new_buffer server' h')
        (rw (same, between, p) (ground (arith, k, overwrite_nil w)))

  -- A handler that fails leaves no entry: no reply is recorded, and the call is run again when it
  -- is sent again.
  pub process_failed :
      (c : Command) (xid : ℕ) (body : CallBody) (rest : Bytes) (auth : AuthUnix) (server : Server S)
      (e : Error) (s' : Services S) (later : ℕ)
      → Holds c xid body rest auth
      → IsValid server.transaction_tracker
      → entry server.transaction_tracker (key_of c.context xid) ≡ none
      → run_new vfs handle_nfs c.context auth xid body rest server.services ≡ (err e, s')
      → let (answer, out, server') = process_rpc_command vfs handle_nfs c new_buffer server in
        (answer ≡ err e)
        × (server'.services ≡ s')
        × ((check server'.transaction_tracker (key_of c.context xid) later).0 ≡ new)
  unfolding run_call finish conclude
  process_failed c xid body rest auth server e s' later h valid absent r =
      let key = key_of c.context xid in
      let t = (check server.transaction_tracker key c.now).1 in
      let k = check-new server.transaction_tracker key c.now valid absent in
      let gone : entry (clear t key) key ≡ none =
        unfold clear in get-remove t.transactions key key ∙ rw ((key_beq_iff key key).1 refl) in
      let t-valid =
        clear-IsValid t key (check-IsValid server.transaction_tracker key c.now valid) in
      rw (process_call vfs handle_nfs c xid body rest auth new_buffer server h)
        (ground (arith, k, check-new (clear t key) key later t-valid gone))

  -- A call of an RPC version other than 2 runs no handler, and its reply, which is recorded, is
  -- denied with the version range 0 to 0.
  pub process_rpc_version :
      (c : Command) (xid : ℕ) (body : CallBody) (rest : Bytes) (auth : AuthUnix) (server : Server S)
      → Holds c xid body rest auth
      → IsValid server.transaction_tracker
      → entry server.transaction_tracker (key_of c.context xid) ≡ none
      → body.rpcvers ≢ 2
      → IsU32 xid
      → let (answer, out, server') = process_rpc_command vfs handle_nfs c new_buffer server in
        (answer ≡ ok true)
        × (server'.services ≡ server.services)
        × (read_rpc_msg out.buffer
            ≡ ok (
              record {
                xid = xid;
                body = reply (msg_denied (rpc_mismatch (record { low = 0; high = 0 })));
              },
              [],
            ))
  unfolding run_call run_new finish conclude rpc_vers_mismatch
  process_rpc_version c xid body rest auth server h valid absent v u =
      let k = check-new server.transaction_tracker (key_of c.context xid) c.now valid absent in
      let reply_sent =
        read_rpc_msg-write_rpc_msg (rpc_vers_mismatch xid)
          (unfold rpc_vers_mismatch in (u, omega arith)) in
      let w = reply_sent.bytes in
      rw (process_call vfs handle_nfs c xid body rest auth new_buffer server h)
        (ground (arith, k, overwrite_nil w, append-nil w, reply_sent.writes, reply_sent.reads []))
