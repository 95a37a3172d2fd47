-- ===== src/Portmap.antt =====
-- protocol/nfs/portmap: the portmapper's table and its procedures.
pub mod Keys
pub mod Laws
pub mod Client
use fernfs.Prelude.{
  ℕ, ◌%◌, ◌^◌, Bool, true, false, ◌||◌, not, Option, none, some, List, [], ◌∷◌, ◌==◌, if◌then◌else◌,
}
use fernfs.Prelude.HashMap.{HashMap, get, insert, remove}
use fernfs.Io.{Result, ok, err, Bytes, ◌⊕◌}
use fernfs.Xdr.Word.{write_u32, write_bool}
use fernfs.Xdr.Portmap
use fernfs.Xdr.Portmap.{Mapping, read_mapping, write_pmaplist, ipproto_tcp, ipproto_udp}
use fernfs.Xdr.Rpc.{
  CallBody, make_success_reply, prog_mismatch_reply_message, proc_unavail_reply_message,
}
use fernfs.Xdr.Rpc.Codec.{write_rpc_msg}
use fernfs.Portmap.Keys.{PortmapKey, key_eq}

-- From a key to a port, a `u16`.
abbrev pub PortmapTable : Type 0
PortmapTable = HashMap PortmapKey ℕ

-- What a procedure writes, and the table that it leaves.
abbrev pub Reply : Type 0
Reply = Result Bytes × PortmapTable

abbrev pub key_of : Mapping → PortmapKey
key_of m = record { prog = m.prog; vers = m.vers; prot = m.prot }

abbrev pub key_for : Mapping → ℕ → PortmapKey
key_for m prot = record { prog = m.prog; vers = m.vers; prot = prot }

pub pmapproc_null : ℕ → PortmapTable → Reply
pmapproc_null xid table = (write_rpc_msg (make_success_reply xid), table)

abbrev pub port_or_zero : Option ℕ → ℕ
port_or_zero none = 0
port_or_zero (some port) = port

abbrev pub is_some : Option ℕ → Bool
is_some none = false
is_some (some port) = true

getport_with : ℕ → PortmapTable → Mapping → Reply
getport_with xid table m = (
  write_rpc_msg (make_success_reply xid) ⊕ write_u32 (port_or_zero (get table (key_of m))),
  table,
)

-- the mapping is read first; where that fails nothing is done
abbrev with_mapping : (Mapping → Reply) → PortmapTable → Bytes → Reply
with_mapping f table input = elim (read_mapping input) [
  | ok (m, rest) ↦ f m
  | err e ↦ (err e, table)
]

pub pmapproc_getport : ℕ → Bytes → PortmapTable → Reply
unfolding getport_with
pmapproc_getport xid input table = with_mapping (getport_with xid table) table input

-- `mapping.port as u16` keeps the lower half.
setport_with : ℕ → PortmapTable → Mapping → Reply
setport_with xid table m =
    let reply = λ (r : Bool). write_rpc_msg (make_success_reply xid) ⊕ write_bool r in
    elim (get table (key_of m)) [
      | none ↦ (reply true, insert table (key_of m) (m.port % 2 ^ 16))
      | some port ↦ (reply false, table)
    ]

pub pmapproc_setport : ℕ → Bytes → PortmapTable → Reply
unfolding setport_with
pmapproc_setport xid input table = with_mapping (setport_with xid table) table input

unsetport_with : ℕ → PortmapTable → Mapping → Reply
unsetport_with xid table m =
    let tcp = key_for m ipproto_tcp in
    let udp = key_for m ipproto_udp in
    let tcp_removed = is_some (get table tcp) in
    let table' = remove table tcp in
    let udp_removed = is_some (get table' udp) in
    (
      write_rpc_msg (make_success_reply xid) ⊕ write_bool (tcp_removed || udp_removed),
      remove table' udp,
    )

pub pmapproc_unsetport : ℕ → Bytes → PortmapTable → Reply
unfolding unsetport_with
pmapproc_unsetport xid input table = with_mapping (unsetport_with xid table) table input

-- The entries in the order in which the table is iterated, which Rust leaves open.
abbrev pub entries : PortmapTable → List Mapping
entries [] = []
entries ((k, port) ∷ table) =
    record { prog = k.prog; vers = k.vers; prot = k.prot; port = port } ∷ entries table

-- For an empty table the source writes `0_u32`, which is the `false` that ends a list.
pub pmapproc_dump : ℕ → PortmapTable → Reply
pmapproc_dump xid table =
    (write_rpc_msg (make_success_reply xid) ⊕ write_pmaplist (entries table), table)

pub handle_portmap : ℕ → CallBody → Bytes → PortmapTable → Reply
unfolding pmapproc_null pmapproc_getport pmapproc_setport pmapproc_unsetport pmapproc_dump
handle_portmap xid call input table =
    if not (call.vers == Portmap.version)
    then (write_rpc_msg (prog_mismatch_reply_message xid Portmap.version), table)
    else if call.proc == 0
    then pmapproc_null xid table
    else if call.proc == 1
    then pmapproc_setport xid input table
    else if call.proc == 2
    then pmapproc_unsetport xid input table
    else if call.proc == 3
    then pmapproc_getport xid input table
    else if call.proc == 4
    then pmapproc_dump xid table
    else (write_rpc_msg (proc_unavail_reply_message xid), table)
