-- ===== src/Nfs/Replies.antt =====
-- protocol/nfs/v3: single procedures, down to what the client reads in the reply.
use fernfs.Prelude.{
  ℕ, ◌≡◌, ◌≢◌, refl, sym, ◌∙◌, ap, Bool, false, Option, arith, length, [], append-nil,
}
use fernfs.Io.{Result, ok, err, unexpected_eof, Bytes, Reader, ◌>>=◌, pure, RoundTrips}
use fernfs.Io.RoundTrip.{RoundTrips-bind, RoundTrips-map}
use fernfs.Xdr.Word.{IsU32, read_u32, read_bool, read_bool-write_bool}
use fernfs.Xdr.Array.{write_option}
use fernfs.Xdr.Rpc.{AuthUnix, RpcMsg, make_success_reply, garbage_args_reply_message}
use fernfs.Xdr.Rpc.Codec.{write_rpc_msg, read_rpc_msg}
use fernfs.Xdr.Rpc.RoundTrip.{read_rpc_msg-write_rpc_msg}
use fernfs.Xdr.Nfs3.{
  NfsStat, nfs3_ok, nfs3err_not_sync, nfs3err_exist, nfs3err_notdir, nfs3err_rofs, NfsResult, Fattr,
  default_wcc_data, WccAttr, guarded, Sattr,
}
use fernfs.Xdr.Nfs3.Codec.{read_nfsstat, read_fattr}
use fernfs.Xdr.Nfs3.RoundTrip.{FattrFits, read_nfsstat-write_nfsstat, read_fattr-write_fattr}
use fernfs.Xdr.Nfs3.Args.{
  write_wcc_data, read_sattr, Setattr3Args, read_setattr3args, Write3Args, read_write3args,
}
use fernfs.Xdr.Opaque.{read_opaque}
use fernfs.Vfs.{read_write, read_only, FileSystem}
use fernfs.Vfs.Handles.{fh_to_id}
use fernfs.Nfs.Steps.{answer, to_option, with_wcc}
use fernfs.Nfs.Look.{nfsproc3_getattr, getattr_of}
use fernfs.Nfs.Change.{
  is_some, guard_holds, guarded_setattr, setattr_of, nfsproc3_setattr, write_of, nfsproc3_write,
}
use fernfs.Nfs.Create.{create_in}
use fernfs.Nfs.Remove.{nfsproc3_rename, rmdir_in, status_with_wcc, is_dir}
use fernfs.Nfs.ReadOnly.{writable_read_write, change_read_only, change, Changing}

-- What a client reads: the message, the status, and then `body`.
abbrev pub read_reply {ℓ} : {A : Type ℓ} → Reader A → Reader (RpcMsg × NfsStat × A)
read_reply body = do m ← read_rpc_msg; stat ← read_nfsstat; a ← body; pure (m, stat, a)

module _ {ℓ} {A : Type ℓ} (xid : ℕ) (h : IsU32 xid) where
  pub answer-RoundTrips :
      (stat : NfsStat) {w : Result Bytes} {p : Reader A} {a : A}
      → RoundTrips w p a
      → RoundTrips (answer xid stat w) (read_reply p) (make_success_reply xid, stat, a)
  unfolding answer
  answer-RoundTrips stat r =
      RoundTrips-bind _
        (read_rpc_msg-write_rpc_msg (make_success_reply xid)
          (unfold make_success_reply in (h, omega arith)))
        (RoundTrips-bind _ (read_nfsstat-write_nfsstat stat) (RoundTrips-map _ r))

module _ {S : Type 0} (vfs : FileSystem S) (auth : AuthUnix) (xid : ℕ) where
  -- The client reads in the reply of GETATTR its own transaction identifier, success, and just the
  -- attributes that the file system gave, if they fit their types.
  pub nfsproc3_getattr_reply :
      (input handle rest : Bytes) (s s' : S) (id : ℕ) (attr : Fattr)
      → IsU32 xid
      → FattrFits attr
      → read_opaque input ≡ ok (handle, rest)
      → fh_to_id vfs.generation handle ≡ NfsResult.ok id
      → vfs.getattr id s ≡ (NfsResult.ok attr, s')
      → RoundTrips
          (nfsproc3_getattr vfs auth xid input s).0
          (read_reply read_fattr)
          (make_success_reply xid, nfs3_ok, attr)
  unfolding nfsproc3_getattr getattr_of
  nfsproc3_getattr_reply input handle rest s s' id attr u fits e f g =
      rw e (rw (f, g) (answer-RoundTrips xid u nfs3_ok (read_fattr-write_fattr attr fits)))

  -- SETATTR with a guard that is not the time of the last change sets nothing: it answers that the
  -- client is out of step, unless a new size is asked for and denied.
  pub nfsproc3_setattr_guard :
      (input rest : Bytes) (args : Setattr3Args) (s s' : S) (id : ℕ) (current : Fattr)
      → vfs.capabilities ≡ read_write
      → read_setattr3args input ≡ ok (args, rest)
      → fh_to_id vfs.generation args.object ≡ NfsResult.ok id
      → vfs.getattr id s ≡ (NfsResult.ok current, s')
      → is_some args.new_attribute.size ≡ false
      → guard_holds args.guard current.ctime ≡ false
      → nfsproc3_setattr vfs auth xid input s
        ≡ (answer xid nfs3err_not_sync (write_wcc_data default_wcc_data), s')
  unfolding nfsproc3_setattr setattr_of guarded_setattr
  nfsproc3_setattr_guard input rest args s s' id current w e f g n b =
      writable_read_write vfs auth xid _ _ s w ∙ rw e (rw (f, g, n, b))

  -- WRITE with a count that is not the length of its data writes nothing, whatever its handle.
  pub nfsproc3_write_count :
      (input rest : Bytes) (args : Write3Args) (s : S)
      → vfs.capabilities ≡ read_write
      → read_write3args input ≡ ok (args, rest)
      → length args.payload ≢ args.count
      → nfsproc3_write vfs auth xid input s ≡ (write_rpc_msg (garbage_args_reply_message xid), s)
  unfolding nfsproc3_write write_of
  nfsproc3_write_count input rest args s w e n =
      writable_read_write vfs auth xid _ _ s w ∙ rw e (ground arith)

module _ {S : Type 0} (vfs : FileSystem S) (xid : ℕ) where
  -- A guarded CREATE of a name that exists creates nothing, and answers that it exists.
  pub create_in_guarded :
      (name input rest : Bytes) (dirid existing : ℕ) (before : Option WccAttr) (attributes : Sattr)
      (s s' : S)
      → read_sattr input ≡ ok (attributes, rest)
      → vfs.lookup dirid name s ≡ (NfsResult.ok existing, s')
      → create_in vfs xid guarded name input dirid before s ≡ (
        answer xid nfs3err_exist (
            write_wcc_data
              (record { before = before; after = to_option (vfs.getattr dirid s').0 })),
        (vfs.getattr dirid s').1,
      )
  unfolding create_in with_wcc
  create_in_guarded name input rest dirid existing before attributes s s' e l = rw e (rw l)

  -- RMDIR removes nothing that is not a directory.
  pub rmdir_in_not_dir :
      (name : Bytes) (dirid target : ℕ) (before : Option WccAttr) (attr : Fattr) (s s1 s2 : S)
      → vfs.lookup dirid name s ≡ (NfsResult.ok target, s1)
      → vfs.getattr target s1 ≡ (NfsResult.ok attr, s2)
      → is_dir attr.ftype ≡ false
      → rmdir_in vfs xid name dirid before s ≡ (
        answer xid nfs3err_notdir (
            write_wcc_data
              (record { before = before; after = to_option (vfs.getattr dirid s2).0 })),
        (vfs.getattr dirid s2).1,
      )
  unfolding rmdir_in status_with_wcc with_wcc
  rmdir_in_not_dir name dirid target before attr s s1 s2 l g d = rw (l, g, d)

-- Weak cache consistency data without attributes, the only kind that a refusal holds.
abbrev pub read_no_wcc : Reader (Bool × Bool)
read_no_wcc = do b ← read_bool; a ← read_bool; pure (b, a)

no_wcc_RoundTrips : RoundTrips (write_wcc_data default_wcc_data) read_no_wcc (false, false)
unfolding write_wcc_data write_option
no_wcc_RoundTrips =
    RoundTrips-bind _ (read_bool-write_bool false) (RoundTrips-map _ (read_bool-write_bool false))

-- A reply with a longer body is read like the shorter one, and then on.
read_reply_more :
    {A B : Type 0} (p : Reader A) (q : A → Reader B) (out rest : Bytes) (m : RpcMsg)
    (stat : NfsStat) (a : A)
    → read_reply p out ≡ ok ((m, stat, a), rest)
    → read_reply (p >>= q) out ≡ (q a >>= λ b. pure (m, stat, b)) rest
unfolding ◌>>=◌ pure
read_reply_more p q out rest m stat a h = ground arith

-- The bodies that RENAME3resfail has: one for each directory.
abbrev pub read_two_no_wcc : Reader ((Bool × Bool) × (Bool × Bool))
read_two_no_wcc = read_no_wcc >>= λ from. (read_no_wcc >>= λ to. pure (from, to))

abbrev pub no_attributes : Bool × Bool
no_attributes = (false, false)

two_end :
    {X : Type 0} (f : (Bool × Bool) × (Bool × Bool) → X)
    → ((read_no_wcc >>= λ to. pure (no_attributes, to)) >>= λ b. pure (f b)) [] ≡ err unexpected_eof
unfolding ◌>>=◌ read_bool read_u32
two_end f = refl

-- On a read-only export the reply of RENAME ends after the data of the first directory, so a client
-- that reads the two of RENAME3resfail runs into its end.
pub nfsproc3_rename_read_only :
    {S : Type 0} (vfs : FileSystem S) (auth : AuthUnix) (xid : ℕ) (input out : Bytes) (s : S)
    → IsU32 xid
    → vfs.capabilities ≡ read_only
    → (nfsproc3_rename vfs auth xid input s).0 ≡ ok out
    → (read_reply read_no_wcc out ≡ ok ((make_success_reply xid, nfs3err_rofs, no_attributes), []))
      × (read_reply read_two_no_wcc out ≡ err unexpected_eof)
unfolding change
nfsproc3_rename_read_only vfs auth xid input out s u e w =
    let r = answer-RoundTrips xid u nfs3err_rofs no_wcc_RoundTrips in
    let written : ok out ≡ ok r.bytes =
      sym w ∙ ap (λ t. t.0) (change_read_only vfs auth xid Changing.rename input s e) ∙ r.writes in
    let same : out ≡ r.bytes = cc written in
    let whole : read_reply read_no_wcc out
        ≡ ok ((make_success_reply xid, nfs3err_rofs, no_attributes), []) =
      rw (same, ← append-nil r.bytes) (r.reads []) in
    (
      whole,
      read_reply_more read_no_wcc (λ from. (read_no_wcc >>= λ to. pure (from, to))) out []
            (make_success_reply xid) nfs3err_rofs no_attributes whole
          ∙ two_end (λ b. (make_success_reply xid, nfs3err_rofs, b)),
    )
