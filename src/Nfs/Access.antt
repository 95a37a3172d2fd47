-- ===== src/Nfs/Access.antt =====
-- protocol/nfs/v3/access.rs over the default check_access of vfs.rs.
use fernfs.Prelude.{ℕ, ◌≡◌, Option, some, ◌&&◌, arith}
use fernfs.Io.{ok, Bytes, Reader, ◌>>=◌, pure, RoundTrips}
use fernfs.Io.RoundTrip.{RoundTrips-bind, RoundTrips-map}
use fernfs.Xdr.Word.{IsU32, read_u32, read_u32-write_u32}
use fernfs.Xdr.Opaque.{read_opaque}
use fernfs.Xdr.Array.{read_option, read_option-write_option-some}
use fernfs.Xdr.Rpc.{AuthUnix, make_success_reply}
use fernfs.Xdr.Nfs3.{NfsResult, nfs3_ok, Fattr}
use fernfs.Xdr.Nfs3.Codec.{write_fattr, read_fattr}
use fernfs.Xdr.Nfs3.RoundTrip.{FattrFits, read_fattr-write_fattr}
use fernfs.Vfs.{FileSystem}
use fernfs.Vfs.Handles.{fh_to_id}
use fernfs.Vfs.Permissions.{unix_mode_perms, access_mask, supports_write}
use fernfs.Vfs.Permissions.Laws.{IsExact, may_lookup, may_modify, may_delete, access_mask-IsExact}
use fernfs.Vfs.Defaults.{default_check_access}
use fernfs.Nfs.Look.{nfsproc3_access, access_of}
use fernfs.Nfs.Replies.{read_reply, answer-RoundTrips}

-- The attributes, and the access that is granted.
abbrev pub read_granted : Reader (Option Fattr × ℕ)
read_granted = do attr ← read_option read_fattr; granted ← read_u32; pure (attr, granted)

module _ {S : Type 0} (vfs : FileSystem S) (auth : AuthUnix) (xid : ℕ) where
  -- Over a file system that asks for access by default, and whose attributes can be read without a
  -- change, the client reads in the reply of ACCESS its own transaction identifier, success, the
  -- attributes of the object, and a mask that grants exactly what it asked for and what the mode bits
  -- and the export allow.
  pub nfsproc3_access_reply :
      (input handle rest rest' : Bytes) (access id : ℕ) (attr : Fattr) (s : S)
      → IsU32 xid
      → FattrFits attr
      → read_opaque input ≡ ok (handle, rest)
      → read_u32 rest ≡ ok (access, rest')
      → fh_to_id vfs.generation handle ≡ NfsResult.ok id
      → vfs.getattr id s ≡ (NfsResult.ok attr, s)
      → vfs.check_access id auth access s ≡ default_check_access vfs id auth access s
      → (granted : ℕ) × RoundTrips
          (nfsproc3_access vfs auth xid input s).0
          (read_reply read_granted)
          (make_success_reply xid, nfs3_ok, (some attr, granted))
        × (let p = unix_mode_perms attr auth in
            let w = supports_write vfs.capabilities && p.write in
            IsExact p.read
              (may_lookup attr.ftype p)
              (may_modify attr.ftype p w)
              (may_delete attr.ftype p w)
              p.exec
              access
              granted)
  unfolding nfsproc3_access access_of default_check_access
  nfsproc3_access_reply input handle rest rest' access id attr s u fits e a f g h =
      let granted = access_mask attr auth vfs.capabilities access in
      let exact = access_mask-IsExact attr auth vfs.capabilities access in
      let below = exact.nothing_else in
      let small : IsU32 granted = omega arith in
      (
        granted,
        rw (e, a)
            (rw (f, g)
              (rw (h, g)
                (answer-RoundTrips xid u nfs3_ok (
                  RoundTrips-bind _
                    (read_option-write_option-some write_fattr read_fattr attr
                      (read_fattr-write_fattr attr fits))
                    (RoundTrips-map _ (read_u32-write_u32 granted small)))))),
        exact,
      )
