-- ===== src/Xdr/Rpc/Codec.antt =====
-- protocol/xdr/rpc.rs: `Serialize` and `Deserialize` of the messages, field by field.
use fernfs.Prelude.{ℕ, Option, none, some, ◌==◌, if◌then◌else◌}
use fernfs.Io.{Result, invalid_data, Bytes, Reader, ◌>>=◌, pure, fail, ◌⊕◌}
use fernfs.Xdr.Word.{write_u32, read_u32}
use fernfs.Xdr.Opaque.{write_opaque, read_opaque}
use fernfs.Xdr.Array.{write_enum, read_enum, write_array, read_array}
use fernfs.Xdr.Rpc.{
  AuthStat, auth_badcred, auth_rejectedcred, auth_badverf, auth_rejectedverf, auth_tooweak,
  AuthFlavor, auth_null, auth_unix, auth_short, auth_des, AuthUnix, OpaqueAuth, CallBody,
  MismatchInfo, AcceptBody, success, prog_unavail, prog_mismatch, proc_unavail, garbage_args,
  AcceptedReply, RejectedReply, rpc_mismatch, auth_error, ReplyBody, msg_accepted, msg_denied,
  RpcBody, call, reply, RpcMsg,
}

unfoldable pub auth_stat_code : AuthStat → ℕ
auth_stat_code auth_badcred = 1
auth_stat_code auth_rejectedcred = 2
auth_stat_code auth_badverf = 3
auth_stat_code auth_rejectedverf = 4
auth_stat_code auth_tooweak = 5

unfoldable pub auth_stat_of : ℕ → Option AuthStat
auth_stat_of v =
    if v == 1
    then some auth_badcred
    else if v == 2
    then some auth_rejectedcred
    else if v == 3
    then some auth_badverf
    else if v == 4
    then some auth_rejectedverf
    else if v == 5
    then some auth_tooweak
    else none

unfoldable pub auth_flavor_code : AuthFlavor → ℕ
auth_flavor_code auth_null = 0
auth_flavor_code auth_unix = 1
auth_flavor_code auth_short = 2
auth_flavor_code auth_des = 3

unfoldable pub auth_flavor_of : ℕ → Option AuthFlavor
auth_flavor_of v =
    if v == 0
    then some auth_null
    else if v == 1
    then some auth_unix
    else if v == 2
    then some auth_short
    else if v == 3
    then some auth_des
    else none

unfoldable pub write_auth_unix : AuthUnix → Result Bytes
write_auth_unix a =
    write_u32 a.stamp
    ⊕ write_opaque a.machinename
    ⊕ write_u32 a.uid
    ⊕ write_u32 a.gid
    ⊕ write_array write_u32 a.gids

unfoldable pub read_auth_unix : Reader AuthUnix
read_auth_unix = do
  stamp ← read_u32
  name ← read_opaque
  uid ← read_u32
  gid ← read_u32
  gids ← read_array read_u32
  pure (record { stamp = stamp; machinename = name; uid = uid; gid = gid; gids = gids })

unfoldable pub write_opaque_auth : OpaqueAuth → Result Bytes
write_opaque_auth a = write_enum auth_flavor_code a.flavor ⊕ write_opaque a.body

unfoldable pub read_opaque_auth : Reader OpaqueAuth
read_opaque_auth = do
  flavor ← read_enum auth_flavor_of
  body ← read_opaque
  pure (record { flavor = flavor; body = body })

unfoldable pub write_call_body : CallBody → Result Bytes
write_call_body c =
    write_u32 c.rpcvers
    ⊕ write_u32 c.prog
    ⊕ write_u32 c.vers
    ⊕ write_u32 c.proc
    ⊕ write_opaque_auth c.cred
    ⊕ write_opaque_auth c.verf

unfoldable pub read_call_body : Reader CallBody
read_call_body = do
  rpcvers ← read_u32
  prog ← read_u32
  vers ← read_u32
  proc ← read_u32
  cred ← read_opaque_auth
  verf ← read_opaque_auth
  pure (record {
    rpcvers = rpcvers;
    prog = prog;
    vers = vers;
    proc = proc;
    cred = cred;
    verf = verf;
  })

unfoldable pub write_mismatch_info : MismatchInfo → Result Bytes
write_mismatch_info m = write_u32 m.low ⊕ write_u32 m.high

unfoldable pub read_mismatch_info : Reader MismatchInfo
read_mismatch_info = do low ← read_u32; high ← read_u32; pure (record { low = low; high = high })

unfoldable pub write_accept_body : AcceptBody → Result Bytes
write_accept_body success = write_u32 0
write_accept_body prog_unavail = write_u32 1
write_accept_body (prog_mismatch m) = write_u32 2 ⊕ write_mismatch_info m
write_accept_body proc_unavail = write_u32 3
write_accept_body garbage_args = write_u32 4

unfoldable pub read_accept_arm : ℕ → Reader AcceptBody
read_accept_arm v =
    if v == 0
    then pure success
    else if v == 1
    then pure prog_unavail
    else if v == 2
    then (do m ← read_mismatch_info; pure (prog_mismatch m))
    else if v == 3
    then pure proc_unavail
    else if v == 4
    then pure garbage_args
    else fail invalid_data

unfoldable pub read_accept_body : Reader AcceptBody
read_accept_body = do v ← read_u32; read_accept_arm v

unfoldable pub write_accepted_reply : AcceptedReply → Result Bytes
write_accepted_reply r = write_opaque_auth r.verf ⊕ write_accept_body r.reply_data

unfoldable pub read_accepted_reply : Reader AcceptedReply
read_accepted_reply = do
  verf ← read_opaque_auth
  reply_data ← read_accept_body
  pure (record { verf = verf; reply_data = reply_data })

-- `*v as u32` for an `auth_stat`
unfoldable pub write_rejected_reply : RejectedReply → Result Bytes
write_rejected_reply (rpc_mismatch m) = write_u32 0 ⊕ write_mismatch_info m
write_rejected_reply (auth_error s) = write_u32 1 ⊕ write_u32 (auth_stat_code s)

unfoldable pub read_rejected_arm : ℕ → Reader RejectedReply
read_rejected_arm v =
    if v == 0
    then (do m ← read_mismatch_info; pure (rpc_mismatch m))
    else if v == 1
    then (do s ← read_enum auth_stat_of; pure (auth_error s))
    else fail invalid_data

unfoldable pub read_rejected_reply : Reader RejectedReply
read_rejected_reply = do v ← read_u32; read_rejected_arm v

unfoldable pub write_reply_body : ReplyBody → Result Bytes
write_reply_body (msg_accepted r) = write_u32 0 ⊕ write_accepted_reply r
write_reply_body (msg_denied r) = write_u32 1 ⊕ write_rejected_reply r

unfoldable pub read_reply_arm : ℕ → Reader ReplyBody
read_reply_arm v =
    if v == 0
    then (do r ← read_accepted_reply; pure (msg_accepted r))
    else if v == 1
    then (do r ← read_rejected_reply; pure (msg_denied r))
    else fail invalid_data

unfoldable pub read_reply_body : Reader ReplyBody
read_reply_body = do v ← read_u32; read_reply_arm v

unfoldable pub write_rpc_body : RpcBody → Result Bytes
write_rpc_body (call c) = write_u32 0 ⊕ write_call_body c
write_rpc_body (reply r) = write_u32 1 ⊕ write_reply_body r

unfoldable pub read_rpc_arm : ℕ → Reader RpcBody
read_rpc_arm v =
    if v == 0
    then (do c ← read_call_body; pure (call c))
    else if v == 1
    then (do r ← read_reply_body; pure (reply r))
    else fail invalid_data

unfoldable pub read_rpc_body : Reader RpcBody
read_rpc_body = do v ← read_u32; read_rpc_arm v

unfoldable pub write_rpc_msg : RpcMsg → Result Bytes
write_rpc_msg m = write_u32 m.xid ⊕ write_rpc_body m.body

unfoldable pub read_rpc_msg : Reader RpcMsg
read_rpc_msg = do xid ← read_u32; body ← read_rpc_body; pure (record { xid = xid; body = body })
