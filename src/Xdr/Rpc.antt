-- ===== src/Xdr/Rpc.antt =====
-- protocol/xdr/rpc.rs: the messages of ONC RPC.
pub mod Codec
pub mod RoundTrip
use fernfs.Prelude.{ℕ, Option, none, some, List, [], ◌==◌, if◌then◌else◌}
use fernfs.Io.{Bytes}

pub data AuthStat : Type 0 where
  auth_badcred auth_rejectedcred auth_badverf auth_rejectedverf auth_tooweak : AuthStat

pub data AuthFlavor : Type 0 where
  auth_null auth_unix auth_short auth_des : AuthFlavor

pub record AuthUnix : Type 0 where
  pub stamp : ℕ
  pub machinename : Bytes
  pub uid : ℕ
  pub gid : ℕ
  pub gids : List ℕ

pub record OpaqueAuth : Type 0 where
  pub flavor : AuthFlavor
  pub body : Bytes

pub record CallBody : Type 0 where
  pub rpcvers : ℕ
  pub prog : ℕ
  pub vers : ℕ
  pub proc : ℕ
  pub cred : OpaqueAuth
  pub verf : OpaqueAuth

pub record MismatchInfo : Type 0 where
  pub low : ℕ
  pub high : ℕ

pub data AcceptBody : Type 0 where
  success prog_unavail : AcceptBody
  prog_mismatch : MismatchInfo → AcceptBody
  proc_unavail garbage_args : AcceptBody

pub record AcceptedReply : Type 0 where
  pub verf : OpaqueAuth
  pub reply_data : AcceptBody

pub data RejectedReply : Type 0 where
  rpc_mismatch : MismatchInfo → RejectedReply
  auth_error : AuthStat → RejectedReply

pub data ReplyBody : Type 0 where
  msg_accepted : AcceptedReply → ReplyBody
  msg_denied : RejectedReply → ReplyBody

pub data RpcBody : Type 0 where
  call : CallBody → RpcBody
  reply : ReplyBody → RpcBody

pub record RpcMsg : Type 0 where
  pub xid : ℕ
  pub body : RpcBody

-- The `Default` values that the program uses.
abbrev pub default_auth : OpaqueAuth
default_auth = record { flavor = auth_null; body = [] }

abbrev pub default_auth_unix : AuthUnix
default_auth_unix = record { stamp = 0; machinename = []; uid = 0; gid = 0; gids = [] }

abbrev pub default_mismatch : MismatchInfo
default_mismatch = record { low = 0; high = 0 }

abbrev accepted : ℕ → AcceptBody → RpcMsg
accepted xid b = record {
  xid = xid;
  body = reply (msg_accepted (record { verf = default_auth; reply_data = b }));
}

-- The replies that the program makes.
unfoldable pub proc_unavail_reply_message : ℕ → RpcMsg
proc_unavail_reply_message xid = accepted xid proc_unavail

unfoldable pub prog_unavail_reply_message : ℕ → RpcMsg
prog_unavail_reply_message xid = accepted xid prog_unavail

unfoldable pub prog_mismatch_reply_message : ℕ → ℕ → RpcMsg
prog_mismatch_reply_message xid accepted_ver =
    accepted xid (prog_mismatch (record { low = accepted_ver; high = accepted_ver }))

unfoldable pub garbage_args_reply_message : ℕ → RpcMsg
garbage_args_reply_message xid = accepted xid garbage_args

unfoldable pub rpc_vers_mismatch : ℕ → RpcMsg
rpc_vers_mismatch xid = record {
  xid = xid;
  body = reply (msg_denied (rpc_mismatch default_mismatch));
}

unfoldable pub make_success_reply : ℕ → RpcMsg
make_success_reply xid = accepted xid success
