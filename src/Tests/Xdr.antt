-- ===== src/Tests/Xdr.antt =====
-- Messages, credentials, attributes and opaque data.
use fernfs.Prelude.{◌≡◌, refl, [], ◌∷◌, arith}
use fernfs.Io.{Bytes, ok, RoundTrips, ◌⊕◌, ◌>>=◌, pure}
use fernfs.Xdr.Word.{u32_bytes, write_u32, read_u32}
use fernfs.Xdr.Opaque.{
  write_opaque, read_opaque, write_usize, write_padding, padding_len, read_usize, read_exact,
  read_padding,
}
use fernfs.Xdr.Opaque.Laws.{read_opaque-write_opaque}
use fernfs.Xdr.Rpc.{RpcMsg, AuthUnix, call}
use fernfs.Xdr.Rpc.Codec.{write_rpc_msg, read_rpc_msg}
use fernfs.Xdr.Rpc.RoundTrip.{read_rpc_msg-write_rpc_msg}
use fernfs.Tests.Demo.{body_of}

abbrev message : RpcMsg
message = record { xid = 7; body = call (body_of 2 100003 1) }

abbrev user : AuthUnix
user = record {
  stamp = 1;
  machinename = b'h' ∷ b'i' ∷ [];
  uid = 1000;
  gid = 1000;
  gids = 4 ∷ 24 ∷ [];
}

read_rpc_msg-write_rpc_msg_example : RoundTrips (write_rpc_msg message) read_rpc_msg message
read_rpc_msg-write_rpc_msg_example = read_rpc_msg-write_rpc_msg message (omega arith)

read_opaque-write_opaque_example : RoundTrips (write_opaque (1 ∷ 2 ∷ [])) read_opaque (1 ∷ 2 ∷ [])
read_opaque-write_opaque_example = read_opaque-write_opaque (1 ∷ 2 ∷ []) (omega arith)

abbrev nine : Bytes
nine = 9 ∷ []

abbrev encoded : Bytes
encoded = 0 ∷ 0 ∷ 0 ∷ 1 ∷ 9 ∷ 0 ∷ 0 ∷ 0 ∷ []

written : write_opaque (9 ∷ []) ≡ ok (0 ∷ 0 ∷ 0 ∷ 1 ∷ 9 ∷ 0 ∷ 0 ∷ 0 ∷ [])
unfolding write_opaque write_usize write_u32 u32_bytes write_padding padding_len ◌⊕◌
written = refl

read_back : read_opaque (0 ∷ 0 ∷ 0 ∷ 1 ∷ 9 ∷ 0 ∷ 0 ∷ 0 ∷ 9 ∷ []) ≡ ok (9 ∷ [], 9 ∷ [])
unfolding read_opaque read_usize read_u32 read_exact read_padding padding_len ◌>>=◌ pure
read_back = refl
