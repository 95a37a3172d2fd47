-- ===== src/Portmap/Client.antt =====
-- protocol/nfs/portmap: what a client that asks for a port is told after another has changed the table.
use fernfs.Prelude.{ℕ, ◌<◌, ◌^◌}
use fernfs.Prelude.HashMap.{get}
use fernfs.Io.{Bytes, Reader, ◌>>=◌, pure, RoundTrips}
use fernfs.Xdr.Word.{read_u32}
use fernfs.Xdr.Rpc.{CallBody, RpcMsg, make_success_reply}
use fernfs.Xdr.Rpc.Codec.{read_rpc_msg}
use fernfs.Portmap.Keys.{PortmapKey, key_eq}
use fernfs.Portmap.{PortmapTable, port_or_zero, handle_portmap}

-- A call of a procedure of version 2.
abbrev pub calling : CallBody → ℕ → CallBody
calling c proc = record c { vers = 2; proc = proc }

-- What a client reads in the reply of PMAPPROC_GETPORT.
abbrev pub read_port : Reader (RpcMsg × ℕ)
read_port = do m ← read_rpc_msg; port ← read_u32; pure (m, port)

-- Ports are 16 bits.
abbrev pub PortsFit : PortmapTable → Type 0
PortsFit table = (k : PortmapKey) → port_or_zero (get table k) < 2 ^ 16

-- A client that asks with `input` for a port reads `port`.
abbrev pub IsTold : ℕ → CallBody → Bytes → PortmapTable → ℕ → Type 0
IsTold xid c input table port =
    RoundTrips (handle_portmap xid (calling c 3) input table).0 read_port
      (make_success_reply xid, port)
