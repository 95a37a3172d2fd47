-- ===== src/Tests/Demo.antt =====
-- A file system of a root, 1, and a directory `a` in it, 2, whose state counts the lookups; and
-- calls as they arrive.
use fernfs.Prelude.{ℕ, suc, length, take, leb, ◌+◌, true, ◌==◌, if◌then◌else◌, List, [], ◌∷◌}
use fernfs.Vfs.Defaults.{
  default_rtmax, default_linkmax, default_name_max, default_no_trunc, default_chown_restricted,
  default_case_insensitive, default_case_preserving,
}
use fernfs.Vfs.Listing.{from_index, from_readdir_result, map_ok}
use fernfs.Io.{ok, err, invalid_data, Bytes}
use fernfs.Xdr.Rpc.{CallBody, default_auth, default_auth_unix}
use fernfs.Xdr.Nfs3.{NfsResult, nfs3err_noent, nf3dir, Fattr}
use fernfs.Vfs.{FileSystem, read_write, DirEntry, ReadDirResult}
use fernfs.Rpc.Dispatch.{Context, Server, NfsHandler, Command}
use fernfs.Rpc.Tracker.{TransactionTracker, TransactionState}
use fernfs.Rpc.Tracker.Keys.{Key}
use fernfs.Prelude.HashMap.{HashMap}

abbrev pub directory : ℕ → Fattr
directory id = record {
  ftype = nf3dir;
  mode = 0o755;
  nlink = 2;
  uid = 1000;
  gid = 1000;
  size = 4096;
  used = 4096;
  rdev = record { specdata1 = 0; specdata2 = 0 };
  fsid = 0;
  fileid = id;
  atime = record { seconds = 9; nseconds = 0 };
  mtime = record { seconds = 9; nseconds = 0 };
  ctime = record { seconds = 9; nseconds = 0 };
}

abbrev find_entry : Bytes → NfsResult ℕ
find_entry (b ∷ []) = if b == b'a' then NfsResult.ok 2 else NfsResult.err nfs3err_noent
find_entry name = NfsResult.err nfs3err_noent

abbrev pub demo_entries : List DirEntry
demo_entries =
    record { fileid = 2; name = 97 ∷ []; attr = directory 2 }
    ∷ record { fileid = 3; name = 98 ∷ 99 ∷ []; attr = directory 3 }
    ∷ record { fileid = 4; name = 100 ∷ []; attr = directory 4 }
    ∷ []

abbrev pub demo_listing : ℕ → ReadDirResult DirEntry
demo_listing count = record {
  entries = take count demo_entries;
  end = leb (length demo_entries) count;
}

-- Each method that changes something counts.
abbrev pub demo_fs : FileSystem ℕ
demo_fs = record {
  generation = 5;
  capabilities = read_write;
  root_dir = 1;
  fsinfo_rtmax = default_rtmax;
  lookup = λ dir name s. (find_entry name, suc s);
  getattr = λ id s. (NfsResult.ok (directory id), s);
  setattr = λ id a s. (NfsResult.ok (directory id), suc s);
  read = λ id offset count s. (NfsResult.ok (1 ∷ 2 ∷ [], true), s);
  write =
      λ id offset payload stable s. (NfsResult.ok (directory id, stable, length payload), suc s);
  create = λ dir name a s. (NfsResult.ok (3, directory 3), suc s);
  create_exclusive = λ dir name v s. (NfsResult.ok 3, suc s);
  mkdir = λ dir name s. (NfsResult.ok (3, directory 3), suc s);
  remove = λ dir name s. (NfsResult.ok tt, suc s);
  rename = λ from name to name' s. (NfsResult.ok tt, suc s);
  symlink = λ dir name target a s. (NfsResult.ok (3, directory 3), suc s);
  readlink = λ id s. (NfsResult.err nfs3err_noent, s);
  link = λ id dir name s. (NfsResult.ok (directory id), suc s);
  mknod = λ dir name t d a s. (NfsResult.ok (3, directory 3), suc s);
  commit = λ id offset count s. (NfsResult.ok (directory id), suc s);
  check_access = λ id auth mask s. (NfsResult.ok (if auth.uid == 0 then mask else 0), s);
  readdir = λ id from count s. (NfsResult.ok (demo_listing count), s);
  readdir_index = λ id start count s. (from_index start (demo_listing (start + count)), s);
  readdir_simple_index = λ id start count s.
      map_ok (λ r. NfsResult.ok (from_readdir_result r))
        (from_index start (demo_listing (start + count)), s);
  fsinfo = λ id s. (NfsResult.err nfs3err_noent, s);
  fsstat = λ id s. (NfsResult.err nfs3err_noent, s);
  pathconf_linkmax = default_linkmax;
  pathconf_name_max = default_name_max;
  pathconf_no_trunc = default_no_trunc;
  pathconf_chown_restricted = default_chown_restricted;
  pathconf_case_insensitive = default_case_insensitive;
  pathconf_case_preserving = default_case_preserving;
}

-- A program that counts its calls and answers a byte; the procedure 9 fails.
abbrev pub demo_nfs : NfsHandler ℕ
demo_nfs auth xid c input s =
    if c.proc == 9 then (err invalid_data, suc s) else (ok (42 ∷ []), suc s)

abbrev pub client : Context
client = record {
  client_addr = "10.0.0.7:912";
  auth = default_auth_unix;
  exports = record { export_name = 47 ∷ 101 ∷ []; has_listener = true };
}

-- A call with the transaction identifier 7 and no credentials.
abbrev pub body_of : ℕ → ℕ → ℕ → CallBody
body_of rpcvers prog proc = record {
  rpcvers = rpcvers;
  prog = prog;
  vers = 3;
  proc = proc;
  cred = default_auth;
  verf = default_auth;
}

abbrev pub zeros : Bytes
zeros = 0 ∷ 0 ∷ 0 ∷ 0 ∷ 0 ∷ 0 ∷ 0 ∷ 0 ∷ 0 ∷ 0 ∷ 0 ∷ 0 ∷ 0 ∷ 0 ∷ 0 ∷ 0 ∷ []

-- `proc` below 256
abbrev pub nfs_call : ℕ → ℕ → Bytes
nfs_call rpcvers proc =
    0 ∷ 0 ∷ 0 ∷ 7 ∷ 0 ∷ 0 ∷ 0 ∷ 0 ∷ 0 ∷ 0 ∷ 0 ∷ rpcvers ∷ 0 ∷ 1 ∷ 134 ∷ 163 ∷ 0 ∷ 0 ∷ 0 ∷ 3 ∷ 0 ∷ 0
    ∷ 0 ∷ proc ∷ zeros

abbrev pub command : ℕ → ℕ → ℕ → Command
command rpcvers proc now = record {
  message = nfs_call rpcvers proc;
  context = client;
  now = now;
  later = now + 1;
}

abbrev pub tracker_with : HashMap Key TransactionState → TransactionTracker
tracker_with transactions = record {
  retention_period = 100;
  housekeeping_interval = 10;
  store = record { transactions = transactions; last_housekeeping = 0 };
}

abbrev pub key : Key
key = record { xid = 7; client_addr = "10.0.0.7:912" }

abbrev pub server_with : HashMap Key TransactionState → Server ℕ
server_with transactions = record {
  transaction_tracker = tracker_with transactions;
  services = record { portmap_table = []; mount_signals = []; files = 0 };
}
