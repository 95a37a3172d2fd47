-- ===== src/Portmap/Laws.antt =====
-- protocol/nfs/portmap: what the procedures do to the table, and what they answer.
use fernfs.Prelude.{
  ℕ, ◌%◌, ◌^◌, ◌≡◌, ◌≢◌, Bool, true, false, ◌||◌, Option, none, some, arith, if◌then◌else◌,
}
use fernfs.Prelude.HashMap.{get, remove, get-insert, get-remove}
use fernfs.Io.{Result, ok, Bytes, ◌⊕◌}
use fernfs.Xdr.Word.{write_bool}
use fernfs.Xdr.Portmap.{Mapping, read_mapping, ipproto_tcp, ipproto_udp}
use fernfs.Xdr.Rpc.{CallBody, make_success_reply, prog_mismatch_reply_message}
use fernfs.Xdr.Rpc.Codec.{write_rpc_msg}
use fernfs.Portmap.Keys.{PortmapKey, key_beq, key_beq_iff, key_eq}
use fernfs.Portmap.{
  PortmapTable, key_of, key_for, is_some, pmapproc_setport, pmapproc_unsetport, handle_portmap,
}

-- The port of a key after PMAPPROC_SET: the first registration stays.
abbrev pub registered : Option ℕ → ℕ → ℕ
registered none port = port % 2 ^ 16
registered (some old) port = old

abbrev pub is_none : Option ℕ → Bool
is_none none = true
is_none (some port) = false

bool_reply : ℕ → Bool → Result Bytes
bool_reply xid r = write_rpc_msg (make_success_reply xid) ⊕ write_bool r

-- PMAPPROC_SET registers the lower 16 bits of the port for a key that is free, leaves a key that is
-- taken as it is, touches no other key, and answers whether the key was free.
pub pmapproc_setport_lem :
    (xid : ℕ) (input rest : Bytes) (m : Mapping) (table : PortmapTable) (k : PortmapKey)
    → read_mapping input ≡ ok (m, rest)
    → ((pmapproc_setport xid input table).0
        ≡ write_rpc_msg (make_success_reply xid) ⊕ write_bool (is_none (get table (key_of m))))
      × (get (pmapproc_setport xid input table).1 k ≡ (
          if key_beq (key_of m) k
          then some (registered (get table (key_of m)) m.port)
          else get table k))
unfolding pmapproc_setport
pmapproc_setport_lem xid input rest m table k e =
    ground (arith, e, get-insert table (key_of m) k (m.port % 2 ^ 16), key_beq_iff (key_of m) k)

tcp-ne-udp : (m : Mapping) → key_beq (key_for m ipproto_tcp) (key_for m ipproto_udp) ≡ false
unfolding key_beq
tcp-ne-udp m = ground arith

-- PMAPPROC_UNSET removes the program's version for TCP and for UDP, touches no other key, and
-- answers whether one of the two was registered.
pub pmapproc_unsetport_lem :
    (xid : ℕ) (input rest : Bytes) (m : Mapping) (table : PortmapTable) (k : PortmapKey)
    → read_mapping input ≡ ok (m, rest)
    → ((pmapproc_unsetport xid input table).0
        ≡ write_rpc_msg (make_success_reply xid)
          ⊕ write_bool (
              is_some (get table (key_for m ipproto_tcp))
              || is_some (get table (key_for m ipproto_udp))))
      × (get (pmapproc_unsetport xid input table).1 k ≡ (
          if key_beq (key_for m ipproto_udp) k || key_beq (key_for m ipproto_tcp) k
          then none
          else get table k))
unfolding pmapproc_unsetport
pmapproc_unsetport_lem xid input rest m table k e =
    let tcp = key_for m ipproto_tcp in
    let udp = key_for m ipproto_udp in
    ground (
      arith,
      e,
      tcp-ne-udp m,
      get-remove table tcp udp,
      get-remove table tcp k,
      get-remove (remove table tcp) udp k,
    )

-- No procedure but SET and UNSET changes the table.
pub handle_portmap_keeps :
    (xid : ℕ) (call : CallBody) (input : Bytes) (table : PortmapTable)
    → call.proc ≢ 1
    → call.proc ≢ 2
    → (handle_portmap xid call input table).1 ≡ table
unfolding handle_portmap
handle_portmap_keeps xid call input table set unset = ground arith

-- A call of another version is told the version 2, whatever its procedure and arguments, and the
-- table stays.
pub handle_portmap_version :
    (xid : ℕ) (call : CallBody) (input : Bytes) (table : PortmapTable)
    → call.vers ≢ 2
    → handle_portmap xid call input table
      ≡ (write_rpc_msg (prog_mismatch_reply_message xid 2), table)
unfolding handle_portmap
handle_portmap_version xid call input table other = ground arith
