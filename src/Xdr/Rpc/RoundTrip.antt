-- ===== src/Xdr/Rpc/RoundTrip.antt =====
-- protocol/xdr/rpc.rs: every message is read back as it was written.
use fernfs.Prelude.{ℕ, ◌≤◌, ◌≡◌, refl, some, List, [], ◌∷◌, arith, length, All}
use fernfs.Io.{RoundTrips}
use fernfs.Io.RoundTrip.{RoundTrips-bind, RoundTrips-map, RoundTrips-tag}
use fernfs.Xdr.Word.{IsU32, write_u32, read_u32, read_u32-write_u32}
use fernfs.Xdr.Opaque.{max_xdr_opaque_length}
use fernfs.Xdr.Opaque.Laws.{read_opaque-write_opaque}
use fernfs.Xdr.Array.{write_enum, read_enum, read_enum-write_enum, max_xdr_array_length}
use fernfs.Xdr.Array.{read_array-write_array}
use fernfs.Xdr.Rpc.{
  AuthStat, auth_badcred, auth_rejectedcred, auth_badverf, auth_rejectedverf, auth_tooweak,
  AuthFlavor, auth_null, auth_unix, auth_short, auth_des, AuthUnix, OpaqueAuth, CallBody,
  MismatchInfo, AcceptBody, success, prog_unavail, prog_mismatch, proc_unavail, garbage_args,
  AcceptedReply, RejectedReply, rpc_mismatch, auth_error, ReplyBody, msg_accepted, msg_denied,
  RpcBody, call, reply, RpcMsg,
}
use fernfs.Xdr.Rpc.Codec.{
  auth_stat_code, auth_stat_of, auth_flavor_code, auth_flavor_of, write_auth_unix, read_auth_unix,
  write_opaque_auth, read_opaque_auth, write_call_body, read_call_body, write_mismatch_info,
  read_mismatch_info, write_accept_body, read_accept_body, read_accept_arm, write_accepted_reply,
  read_accepted_reply, write_rejected_reply, read_rejected_reply, read_rejected_arm,
  write_reply_body, read_reply_body, read_reply_arm, write_rpc_body, read_rpc_body, read_rpc_arm,
  write_rpc_msg, read_rpc_msg,
}

-- A value whose numbers fit their Rust types, and whose sequences XDR accepts.
pub record AuthUnixFits (a : AuthUnix) : Type 0 where
  pub stamp : IsU32 a.stamp
  pub machinename : length a.machinename ≤ max_xdr_opaque_length
  pub uid : IsU32 a.uid
  pub gid : IsU32 a.gid
  pub count : length a.gids ≤ max_xdr_array_length
  pub gids : All IsU32 a.gids

abbrev pub AuthFits : OpaqueAuth → Type 0
AuthFits a = length a.body ≤ max_xdr_opaque_length

pub record CallFits (c : CallBody) : Type 0 where
  pub rpcvers : IsU32 c.rpcvers
  pub prog : IsU32 c.prog
  pub vers : IsU32 c.vers
  pub proc : IsU32 c.proc
  pub cred : AuthFits c.cred
  pub verf : AuthFits c.verf

abbrev pub MismatchFits : MismatchInfo → Type 0
MismatchFits m = IsU32 m.low × IsU32 m.high

abbrev pub AcceptFits : AcceptBody → Type 0
AcceptFits (prog_mismatch m) = MismatchFits m
AcceptFits _ = Unit {0}

abbrev pub RejectedFits : RejectedReply → Type 0
RejectedFits (rpc_mismatch m) = MismatchFits m
RejectedFits (auth_error s) = Unit {0}

abbrev pub ReplyFits : ReplyBody → Type 0
ReplyFits (msg_accepted r) = AuthFits r.verf × AcceptFits r.reply_data
ReplyFits (msg_denied r) = RejectedFits r

abbrev pub BodyFits : RpcBody → Type 0
BodyFits (call c) = CallFits c
BodyFits (reply r) = ReplyFits r

abbrev pub MsgFits : RpcMsg → Type 0
MsgFits m = IsU32 m.xid × BodyFits m.body

-- A tag of a union, which is a literal `u32`.
tag_RoundTrips : (n : ℕ) → n ≤ 5 → RoundTrips (write_u32 n) read_u32 n
tag_RoundTrips n h = read_u32-write_u32 n (omega arith)

auth_stat_of-code : (s : AuthStat) → auth_stat_of (auth_stat_code s) ≡ some s
unfolding auth_stat_of auth_stat_code
auth_stat_of-code auth_badcred = refl
auth_stat_of-code auth_rejectedcred = refl
auth_stat_of-code auth_badverf = refl
auth_stat_of-code auth_rejectedverf = refl
auth_stat_of-code auth_tooweak = refl

auth_stat_code-le : (s : AuthStat) → auth_stat_code s ≤ 5
unfolding auth_stat_code
auth_stat_code-le s = ground arith

-- `auth_stat` is written as a `u32` and read as an enumeration.
auth_stat_RoundTrips :
    (s : AuthStat) → RoundTrips (write_u32 (auth_stat_code s)) (read_enum auth_stat_of) s
auth_stat_RoundTrips s =
    unfold write_enum in
    read_enum-write_enum auth_stat_code auth_stat_of s (omega (arith, auth_stat_code-le s))
      (auth_stat_of-code s)

auth_flavor_RoundTrips :
    (f : AuthFlavor) → RoundTrips (write_enum auth_flavor_code f) (read_enum auth_flavor_of) f
unfolding auth_flavor_of auth_flavor_code
auth_flavor_RoundTrips auth_null = read_enum-write_enum _ _ auth_null (omega arith) refl
auth_flavor_RoundTrips auth_unix = read_enum-write_enum _ _ auth_unix (omega arith) refl
auth_flavor_RoundTrips auth_short = read_enum-write_enum _ _ auth_short (omega arith) refl
auth_flavor_RoundTrips auth_des = read_enum-write_enum _ _ auth_des (omega arith) refl

words_RoundTrips : (xs : List ℕ) → All IsU32 xs → All (λ v. RoundTrips (write_u32 v) read_u32 v) xs
words_RoundTrips [] h = tt
words_RoundTrips (x ∷ xs) (hx, hxs) = (read_u32-write_u32 x hx, words_RoundTrips xs hxs)

-- UNIX credentials are read back as they were written.
pub read_auth_unix-write_auth_unix :
    (a : AuthUnix) → AuthUnixFits a → RoundTrips (write_auth_unix a) read_auth_unix a
unfolding write_auth_unix read_auth_unix
read_auth_unix-write_auth_unix a h = RoundTrips-bind _ (read_u32-write_u32 a.stamp h.stamp) (
    RoundTrips-bind _ (read_opaque-write_opaque a.machinename h.machinename) (
      RoundTrips-bind _ (read_u32-write_u32 a.uid h.uid) (
        RoundTrips-bind _ (read_u32-write_u32 a.gid h.gid) (
          RoundTrips-map _ (
            read_array-write_array write_u32 read_u32 a.gids h.count
              (words_RoundTrips a.gids h.gids))))))

auth_RoundTrips :
    (a : OpaqueAuth) → AuthFits a → RoundTrips (write_opaque_auth a) read_opaque_auth a
unfolding write_opaque_auth read_opaque_auth
auth_RoundTrips a h =
    RoundTrips-bind _ (auth_flavor_RoundTrips a.flavor)
      (RoundTrips-map _ (read_opaque-write_opaque a.body h))

call_RoundTrips : (c : CallBody) → CallFits c → RoundTrips (write_call_body c) read_call_body c
unfolding write_call_body read_call_body
call_RoundTrips c h = RoundTrips-bind _ (read_u32-write_u32 c.rpcvers h.rpcvers) (
    RoundTrips-bind _ (read_u32-write_u32 c.prog h.prog) (
      RoundTrips-bind _ (read_u32-write_u32 c.vers h.vers) (
        RoundTrips-bind _ (read_u32-write_u32 c.proc h.proc) (
          RoundTrips-bind _ (auth_RoundTrips c.cred h.cred)
            (RoundTrips-map _ (auth_RoundTrips c.verf h.verf))))))

mismatch_RoundTrips :
    (m : MismatchInfo) → MismatchFits m → RoundTrips (write_mismatch_info m) read_mismatch_info m
unfolding write_mismatch_info read_mismatch_info
mismatch_RoundTrips m (l, h) =
    RoundTrips-bind _ (read_u32-write_u32 m.low l) (RoundTrips-map _ (read_u32-write_u32 m.high h))

accept_RoundTrips :
    (b : AcceptBody) → AcceptFits b → RoundTrips (write_accept_body b) read_accept_body b
unfolding write_accept_body read_accept_body read_accept_arm
accept_RoundTrips success h = RoundTrips-tag _ success (tag_RoundTrips 0 (omega arith)) refl
accept_RoundTrips prog_unavail h =
    RoundTrips-tag _ prog_unavail (tag_RoundTrips 1 (omega arith)) refl
accept_RoundTrips (prog_mismatch m) h =
    RoundTrips-bind _ (tag_RoundTrips 2 (omega arith))
      (RoundTrips-map prog_mismatch (mismatch_RoundTrips m h))
accept_RoundTrips proc_unavail h =
    RoundTrips-tag _ proc_unavail (tag_RoundTrips 3 (omega arith)) refl
accept_RoundTrips garbage_args h =
    RoundTrips-tag _ garbage_args (tag_RoundTrips 4 (omega arith)) refl

rejected_RoundTrips :
    (r : RejectedReply) → RejectedFits r → RoundTrips (write_rejected_reply r) read_rejected_reply r
unfolding write_rejected_reply read_rejected_reply read_rejected_arm
rejected_RoundTrips (rpc_mismatch m) h =
    RoundTrips-bind _ (tag_RoundTrips 0 (omega arith))
      (RoundTrips-map rpc_mismatch (mismatch_RoundTrips m h))
rejected_RoundTrips (auth_error s) h =
    RoundTrips-bind _ (tag_RoundTrips 1 (omega arith))
      (RoundTrips-map auth_error (auth_stat_RoundTrips s))

accepted_RoundTrips :
    (r : AcceptedReply)
    → AuthFits r.verf
    → AcceptFits r.reply_data
    → RoundTrips (write_accepted_reply r) read_accepted_reply r
unfolding write_accepted_reply read_accepted_reply
accepted_RoundTrips r h k =
    RoundTrips-bind _ (auth_RoundTrips r.verf h)
      (RoundTrips-map _ (accept_RoundTrips r.reply_data k))

reply_RoundTrips : (r : ReplyBody) → ReplyFits r → RoundTrips (write_reply_body r) read_reply_body r
unfolding write_reply_body read_reply_body read_reply_arm
reply_RoundTrips (msg_accepted r) (h, k) =
    RoundTrips-bind _ (tag_RoundTrips 0 (omega arith))
      (RoundTrips-map msg_accepted (accepted_RoundTrips r h k))
reply_RoundTrips (msg_denied r) h =
    RoundTrips-bind _ (tag_RoundTrips 1 (omega arith))
      (RoundTrips-map msg_denied (rejected_RoundTrips r h))

body_RoundTrips : (b : RpcBody) → BodyFits b → RoundTrips (write_rpc_body b) read_rpc_body b
unfolding write_rpc_body read_rpc_body read_rpc_arm
body_RoundTrips (call c) h =
    RoundTrips-bind _ (tag_RoundTrips 0 (omega arith)) (RoundTrips-map call (call_RoundTrips c h))
body_RoundTrips (reply r) h =
    RoundTrips-bind _ (tag_RoundTrips 1 (omega arith)) (RoundTrips-map reply (reply_RoundTrips r h))

-- Every RPC message, call or reply, is written without error and read back as it was written,
-- whatever bytes follow it, if its numbers fit 32 bits and its opaque fields the limit.
pub read_rpc_msg-write_rpc_msg :
    (m : RpcMsg) → MsgFits m → RoundTrips (write_rpc_msg m) read_rpc_msg m
unfolding write_rpc_msg read_rpc_msg
read_rpc_msg-write_rpc_msg m (h, k) =
    RoundTrips-bind _ (read_u32-write_u32 m.xid h) (RoundTrips-map _ (body_RoundTrips m.body k))
