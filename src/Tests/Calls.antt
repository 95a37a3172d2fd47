-- ===== src/Tests/Calls.antt =====
-- Calls that come once, come again, fail, or are refused.
use fernfs.Prelude.{ℕ, ◌≡◌, refl, true, some, [], ◌∷◌, arith}
use fernfs.Io.{ok, err, unexpected_eof, invalid_data, ◌>>=◌, pure}
use fernfs.Xdr.Word.{read_u32}
use fernfs.Xdr.Opaque.{read_opaque, read_exact, read_padding, padding_len, read_usize}
use fernfs.Xdr.Array.{read_enum, or_invalid}
use fernfs.Xdr.Rpc.{default_auth_unix}
use fernfs.Xdr.Rpc.Codec.{
  read_rpc_msg, read_rpc_body, read_rpc_arm, read_call_body, read_opaque_auth, auth_flavor_of,
}
use fernfs.Rpc.Tracker.{completed, new, check}
use fernfs.Rpc.Tracker.Keys.{key_eq}
use fernfs.Rpc.Tracker.Keys.{key_beq}
use fernfs.Rpc.Tracker.Trace.{check_op, run}
use fernfs.Prelude.HashMap.{get}
use fernfs.Rpc.Tracker.Laws.{entry}
use fernfs.Rpc.Queue.{new_buffer, forward_all, worker}
use fernfs.Rpc.Queue.Laws.{serial, worker-serial}
use fernfs.Rpc.Dispatch.{Server, authenticate, process_rpc_command, dispatch, run_new}
use fernfs.Rpc.Dispatch.Laws.{Holds, process-completed}
use fernfs.Rpc.Dispatch.Retransmission.{retransmission_replayed, process_failed}
use fernfs.Tests.Demo.{demo_fs, demo_nfs, client, body_of, command, key, server_with}

holds :
    (rpcvers : ℕ) (proc now : ℕ)
    → Holds (command rpcvers proc now) 7 (body_of rpcvers 100003 proc) [] default_auth_unix
unfolding read_rpc_msg read_rpc_body read_rpc_arm read_call_body read_opaque_auth auth_flavor_of
    read_enum or_invalid read_opaque read_exact read_padding padding_len read_usize read_u32 ◌>>=◌
    pure authenticate
holds rpcvers proc now = record { reads = ground arith; authentic = refl }

process-completed_example :
    let (answer, out, server') =
      process_rpc_command demo_fs demo_nfs
        (command 2 1 50)
        new_buffer
        (server_with ((key, completed 40 (42 ∷ 43 ∷ [])) ∷ [])) in
    (answer ≡ ok true)
    × (out.buffer ≡ 42 ∷ 43 ∷ [])
    × (server'.services ≡ (server_with []).services)
    × (entry server'.transaction_tracker key ≡ some (completed 50 (42 ∷ 43 ∷ [])))
process-completed_example =
    process-completed demo_fs demo_nfs (command 2 1 50) 7 (body_of 2 100003 1) [] default_auth_unix
      (server_with ((key, completed 40 (42 ∷ 43 ∷ [])) ∷ [])) 40 (42 ∷ 43 ∷ []) (holds 2 1 50)
      (tt, tt) (unfold get key_beq in refl) (omega arith)

short : read_rpc_msg (0 ∷ 0 ∷ []) ≡ err unexpected_eof
unfolding read_rpc_msg read_u32 ◌>>=◌
short = refl

-- The state of the server after the first call.
abbrev after_first : Server ℕ
after_first = (process_rpc_command demo_fs demo_nfs (command 2 1 50) new_buffer (server_with [])).2

ran :
    run_new demo_fs demo_nfs client default_auth_unix 7
      (body_of 2 100003 1)
      []
      (server_with []).services
    ≡ (ok (42 ∷ []), record { portmap_table = []; mount_signals = []; files = 1 })
unfolding run_new dispatch
ran = refl

retransmission_replayed_example :
    let (answer, out, final) =
      process_rpc_command demo_fs demo_nfs (command 2 1 90) new_buffer (record after_first {
        transaction_tracker =
            run after_first.transaction_tracker
              (check_op (record { xid = 8; client_addr = "10.0.0.8:700" }) 70 ∷ []);
      }) in
    (answer ≡ ok true)
    × (out.buffer
        ≡ (process_rpc_command demo_fs demo_nfs
            (command 2 1 50)
            new_buffer
            (server_with [])).1.buffer)
    × (final.services ≡ after_first.services)
retransmission_replayed_example =
    retransmission_replayed demo_fs demo_nfs (command 2 1 50) (command 2 1 90) 7
      (body_of 2 100003 1) (body_of 2 100003 1) [] [] default_auth_unix default_auth_unix
      (server_with [])
      (record after_first {
        transaction_tracker =
            run after_first.transaction_tracker
              (check_op (record { xid = 8; client_addr = "10.0.0.8:700" }) 70 ∷ []);
      })
      (check_op (record { xid = 8; client_addr = "10.0.0.8:700" }) 70 ∷ []) (42 ∷ [])
      (record { portmap_table = []; mount_signals = []; files = 1 }) (holds 2 1 50) (holds 2 1 90)
      refl tt (unfold get in refl) ran refl refl (omega arith) (omega arith) (omega arith)

failed :
    run_new demo_fs demo_nfs client default_auth_unix 7
      (body_of 2 100003 9)
      []
      (server_with []).services
    ≡ (err invalid_data, record { portmap_table = []; mount_signals = []; files = 1 })
unfolding run_new dispatch
failed = refl

process_failed_example :
    let (answer, out, server') =
      process_rpc_command demo_fs demo_nfs (command 2 9 50) new_buffer (server_with []) in
    (answer ≡ err invalid_data)
    × (server'.services ≡ record { portmap_table = []; mount_signals = []; files = 1 })
    × ((check server'.transaction_tracker key 60).0 ≡ new)
process_failed_example =
    process_failed demo_fs demo_nfs (command 2 9 50) 7 (body_of 2 100003 9) [] default_auth_unix
      (server_with []) invalid_data (record { portmap_table = []; mount_signals = []; files = 1 })
      60 (holds 2 9 50) tt (unfold get in refl) failed

worker-serial_example :
    (forward_all
        (worker
          (process_rpc_command demo_fs demo_nfs)
          (command 2 1 50 ∷ command 2 9 60 ∷ [])
          new_buffer
          (server_with [])).0
      ≡ (serial
          (process_rpc_command demo_fs demo_nfs)
          (command 2 1 50 ∷ command 2 9 60 ∷ [])
          (server_with [])).0)
    × ((worker
          (process_rpc_command demo_fs demo_nfs)
          (command 2 1 50 ∷ command 2 9 60 ∷ [])
          new_buffer
          (server_with [])).2
        ≡ (serial
            (process_rpc_command demo_fs demo_nfs)
            (command 2 1 50 ∷ command 2 9 60 ∷ [])
            (server_with [])).1)
worker-serial_example =
    worker-serial (process_rpc_command demo_fs demo_nfs) (command 2 1 50 ∷ command 2 9 60 ∷ [])
      new_buffer (server_with [])
