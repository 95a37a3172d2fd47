-- ===== src/Mount/Replies.antt =====
-- protocol/nfs/mount/mnt.rs: what a client that mounts a path is told.
use fernfs.Prelude.{
  ℕ, ◌≡◌, ◌⊎◌, ◌∙◌, refl, sym, ap, true, false, Option-cases, Bool-cases, inl, inr, none, some,
  List, [], ◌∷◌, ◌++◌, arith, ◌==◌, ==_iff, if◌then◌else◌,
}
use mathlib.Core.Path.{subst}
use fernfs.Io.{Result, ok, Bytes, Reader, ◌>>=◌, pure, RoundTrips}
use fernfs.Io.RoundTrip.{RoundTrips-bind, RoundTrips-map}
use fernfs.Xdr.Word.{IsU32, read_u32, write_u32, read_u32-write_u32}
use fernfs.Xdr.Opaque.{read_opaque}
use fernfs.Xdr.Opaque.Laws.{read_opaque-write_opaque}
use fernfs.Xdr.Array.{read_array, read_array-write_array}
use fernfs.Xdr.Nfs3.{NfsResult, NfsStat}
use fernfs.Xdr.Rpc.{RpcMsg, make_success_reply}
use fernfs.Xdr.Rpc.Codec.{write_rpc_msg, read_rpc_msg}
use fernfs.Xdr.Rpc.RoundTrip.{read_rpc_msg-write_rpc_msg}
use fernfs.Vfs.{FileSystem}
use fernfs.Vfs.Handles.{id_to_fh, length-id_to_fh}
use fernfs.Vfs.Paths.{slash, path_to_id}
use fernfs.Mount.{
  is_root, strip_root, export_subpath, Exports, Outcome, no_entry, mounted_reply, found,
  mountproc3_mnt,
}
use fernfs.Mount.Laws.{export_subpath_exact, mount_resolves}

-- A request lies within an export at a path: below the root, or below the export's name and a slash, or
-- it is the export itself.
pub data Within : Bytes → Bytes → Bytes → Type 0 where
  in_root : {sub : Bytes} → Within (slash ∷ []) (slash ∷ sub) sub
  itself : {export : Bytes} → is_root export ≡ false → Within export export []
  inside :
      {export sub : Bytes} → is_root export ≡ false → Within export (export ++ (slash ∷ sub)) sub

-- The message, the status, the handle, and the kinds of credentials.
abbrev pub read_mounted : Reader (RpcMsg × (ℕ × (Bytes × List ℕ)))
read_mounted = do
  m ← read_rpc_msg
  stat ← read_u32
  handle ← read_opaque
  flavors ← read_array read_u32
  pure (m, (stat, (handle, flavors)))

abbrev pub read_refused : Reader (RpcMsg × ℕ)
read_refused = do m ← read_rpc_msg; stat ← read_u32; pure (m, stat)

Within-export_subpath :
    (export requested sub : Bytes)
    → Within export requested sub
    → export_subpath requested export ≡ some sub
unfolding export_subpath
Within-export_subpath export requested sub in_root = refl
Within-export_subpath export requested sub (itself h) =
    (export_subpath_exact export export [] h).1 (inl (refl, refl))
Within-export_subpath export requested sub (inside h) =
    (export_subpath_exact _ export _ h).1 (inr refl)

strip_root_sound :
    (requested sub : Bytes) → strip_root requested ≡ some sub → requested ≡ slash ∷ sub
strip_root_sound [] sub e = cc
strip_root_sound (b ∷ requested) sub e = elim (Bool-cases (b == slash)) [
  | inl t ↦ let h = rw t at e in cc (h, (==_iff b slash).0 t)
  | inr f ↦ cc (rw f at e)
]

is_root_sound : (export : Bytes) → is_root export ≡ true → export ≡ slash ∷ []
is_root_sound [] e = cc
is_root_sound (b ∷ []) e = ap (λ c. c ∷ []) ((==_iff b slash).0 e)
is_root_sound (b ∷ c ∷ export) e = cc

export_subpath-Within :
    (export requested sub : Bytes)
    → export_subpath requested export ≡ some sub
    → Within export requested sub
unfolding export_subpath
export_subpath-Within export requested sub e = elim (Bool-cases (is_root export)) [
  | inl t ↦
      subst (λ x. Within x requested sub) (sym (is_root_sound export t))
        (subst (λ r. Within (slash ∷ []) r sub)
          (sym (strip_root_sound requested sub (rw (export_subpath, t) at e))) in_root)
  | inr f ↦ elim ((export_subpath_exact requested export sub f).0 e) [
    | inl (same, nothing) ↦
        subst (λ r. Within export r sub) (sym same)
          (subst (λ x. Within export export x) (sym nothing) (itself f))
    | inr same ↦ subst (λ r. Within export r sub) (sym same) (inside f)
  ]
]

some-ne-none : {x : Bytes} → some x ≡ none → ⊥
some-ne-none h = cc

module _ {S : Type 0} (vfs : FileSystem S) (context : Exports) (xid : ℕ) (u : IsU32 xid) where
  header_RoundTrips :
      RoundTrips (write_rpc_msg (make_success_reply xid)) read_rpc_msg (make_success_reply xid)
  header_RoundTrips =
      read_rpc_msg-write_rpc_msg (make_success_reply xid)
        (unfold make_success_reply in (u, omega arith))

  refused_RoundTrips :
      RoundTrips (no_entry vfs context xid) read_refused (make_success_reply xid, 2)
  refused_RoundTrips =
      RoundTrips-bind _ header_RoundTrips (RoundTrips-map _ (read_u32-write_u32 2 (omega arith)))

  mounted_RoundTrips :
      (fileid : ℕ)
      → RoundTrips
          (mounted_reply vfs context xid fileid)
          read_mounted
          (make_success_reply xid, (0, (id_to_fh vfs.generation fileid, 0 ∷ 1 ∷ [])))
  mounted_RoundTrips fileid =
      let size = length-id_to_fh vfs.generation fileid in
      RoundTrips-bind _ header_RoundTrips (
        RoundTrips-bind _ (read_u32-write_u32 0 (omega arith)) (
          RoundTrips-bind _
            (read_opaque-write_opaque (id_to_fh vfs.generation fileid) (omega arith))
            (RoundTrips-map _ (
              read_array-write_array write_u32 read_u32 (0 ∷ 1 ∷ []) (omega arith)
                (read_u32-write_u32 0 (omega arith), (read_u32-write_u32 1 (omega arith), tt))))))

Lookup-cases :
    {A S : Type 0} (r : NfsResult A × S)
    → ((a : A) × (s : S) × (r ≡ (NfsResult.ok a, s)))
      ⊎ ((e : NfsStat) × (s : S) × (r ≡ (NfsResult.err e, s)))
Lookup-cases (NfsResult.ok a, s) = inl (a, s, refl)
Lookup-cases (NfsResult.err e, s) = inr (e, s, refl)

module _ {S : Type 0} (vfs : FileSystem S) (context : Exports) (xid : ℕ) (path : Bytes)
    (s : S) where
  -- What a mount of a path may come to: what the client reads in the reply, what the listener hears,
  -- and the state of the file system.
  pub data Mounts : Outcome vfs context → Type 0 where
    mounted :
        {sub : Bytes} {fileid : ℕ} {s' : S} {reply : Result Bytes}
        → Within context.export_name path sub
        → path_to_id vfs sub s ≡ (NfsResult.ok fileid, s')
        → RoundTrips reply read_mounted
            (make_success_reply xid, (0, (id_to_fh vfs.generation fileid, 0 ∷ 1 ∷ [])))
        → Mounts (reply, if context.has_listener then true ∷ [] else [], s')
    missing :
        {sub : Bytes} {e : NfsStat} {s' : S} {reply : Result Bytes}
        → Within context.export_name path sub
        → path_to_id vfs sub s ≡ (NfsResult.err e, s')
        → RoundTrips reply read_refused (make_success_reply xid, 2)
        → Mounts (reply, [], s')
    outside :
        {reply : Result Bytes}
        → ((sub : Bytes) → ¬ Within context.export_name path sub)
        → RoundTrips reply read_refused (make_success_reply xid, 2)
        → Mounts (reply, [], s)

-- A client that asks for a path within the export, which exists below the root, reads success, the
-- handle of what is there and the two kinds of credentials, and the listener, if there is one, hears of
-- a mount. If the path does not exist, or is not within the export, the client reads that there is no
-- such entry, and nothing is signalled; a path outside the export is not looked up. The path can be
-- read, and the transaction identifier has 32 bits.
pub mountproc3_mnt_lem :
    {S : Type 0} (vfs : FileSystem S) (context : Exports) (xid : ℕ) (input path rest : Bytes)
    (s : S)
    → IsU32 xid
    → read_opaque input ≡ ok (path, rest)
    → Mounts vfs context xid path s (mountproc3_mnt vfs context xid input s)
unfolding found
mountproc3_mnt_lem vfs context xid input path rest s u e =
    let resolved = mount_resolves vfs context xid input path rest s e in
    let refused = refused_RoundTrips vfs context xid u in
    elim (Option-cases (export_subpath path context.export_name)) [
      | inl n ↦
          rw (resolved, n)
            (outside
              (λ sub w.
                some-ne-none (sym (Within-export_subpath context.export_name path sub w) ∙ n))
              refused)
      | inr (sub, v) ↦
          let within = export_subpath-Within context.export_name path sub v in
          elim (Lookup-cases (path_to_id vfs sub s)) [
            | inl (fileid, s', h) ↦
                rw (resolved, v, h, found)
                  (mounted within h (mounted_RoundTrips vfs context xid u fileid))
            | inr (e', s', h) ↦ rw (resolved, v, h, found) (missing within h refused)
          ]
    ]
