-- ===== src/Nfs/Listing.antt =====
-- protocol/nfs/v3: readdir.rs and readdirplus.rs, over what both of them do; write_counter.rs, whose
-- count is the length of what was written.
pub mod Pages
pub mod Replies
pub mod Plus
use fernfs.Prelude.{
  ℕ, ◌+◌, ◌-◌, ◌*◌, ◌/◌, ◌^◌, Bool, true, false, ◌&&◌, not, Option, none, some, List, [], ◌∷◌, ◌++◌,
  ltb, ◌==◌, if◌then◌else◌, length, replicate,
}
use fernfs.Io.{Result, ok, err, Bytes, ◌⊕◌}
use fernfs.Xdr.Word.{u64_bytes, write_bool}
use fernfs.Xdr.Opaque.{write_fixed}
use fernfs.Xdr.Rpc.{AuthUnix}
use fernfs.Xdr.Nfs3.{nfs3_ok, nfs3err_bad_cookie, nfs3err_toosmall, NfsResult, Fattr}
use fernfs.Xdr.Nfs3.Dir.{
  write_entry3, write_entryplus3, Readdir3Args, read_readdir3args, ReaddirPlus3Args,
  read_readdirplus3args,
}
use fernfs.Vfs.{FileSystem, DirEntrySimple, DirEntry, ReadDirResult}
use fernfs.Vfs.Handles.{id_to_fh, fh_to_id}
use fernfs.Prelude.{saturating_add, equal_lists}
use fernfs.Nfs.Steps.{Outcome, answer, post_op_attr, to_option, on_result, on_id, on_args, allowed}

-- What the loop over the entries leaves behind.
pub record Page : Type 0 where
  pub output : Bytes
  pub all_entries_written : Bool
  pub too_small : Bool

-- The bytes of an entry's identifier, name and cookie.
unfoldable pub added_dircount : Bytes → ℕ
added_dircount name = 8 + 4 + length name + 8

module _ {E : Type 0} (write_entry : ℕ → E → Result Bytes) (count_of : E → ℕ)
    (fits : ℕ → ℕ → Bool) where
  -- An entry is first written into a buffer; the first that does not fit ends the loop.
  unfoldable pub write_entries : List E → ℕ → ℕ → Bool → Bytes → Result Page
  write_entries [] index accumulated wrote_any out =
      ok (record { output = out; all_entries_written = true; too_small = false })
  write_entries (e ∷ es) index accumulated wrote_any out =
      elim (write_entry (saturating_add index 1) e) [
        | ok buf ↦ elim (fits (length buf + length out) (count_of e + accumulated)) [
          | true ↦
              write_entries es (saturating_add index 1) (accumulated + count_of e) true (out ++ buf)
          | false ↦
              ok (record { output = out; all_entries_written = false; too_small = not wrote_any })
        ]
        | err x ↦ err x
      ]

abbrev pub no_version : Bytes
no_version = replicate 8 0

-- The time of the directory's last change, in seconds and nanoseconds.
unfoldable pub dirversion : Option Fattr → Bytes
dirversion none = no_version
dirversion (some a) = let t = a.mtime in u64_bytes (t.seconds * 2 ^ 32 + t.nseconds)

unfoldable pub wrong_version : Bytes → Option Fattr → Bool
wrong_version verf attr =
    not (equal_lists verf no_version) && not (equal_lists verf (dirversion attr))

unfoldable pub estimated_max_results : ℕ → ℕ
estimated_max_results dircount = if ltb (dircount / 16) 1 then 1 else dircount / 16

-- `true` marks that an entry follows.
unfoldable pub write_simple : ℕ → DirEntrySimple → Result Bytes
write_simple cookie e =
    write_bool true ⊕ write_entry3 (record { fileid = e.fileid; name = e.name; cookie = cookie })

unfoldable pub write_plus : ℕ → ℕ → DirEntry → Result Bytes
write_plus gennum cookie e =
    write_bool true
    ⊕ write_entryplus3 (record {
      fileid = e.fileid;
      name = e.name;
      cookie = cookie;
      name_attributes = some e.attr;
      name_handle = some (id_to_fh gennum e.fileid);
    })

unfoldable pub fits_readdir : ℕ → ℕ → ℕ → Bool
fits_readdir dircount bytes accumulated = ltb bytes (dircount - 128)

unfoldable pub fits_readdirplus : ℕ → ℕ → ℕ → ℕ → Bool
fits_readdirplus dircount maxcount bytes accumulated =
    ltb bytes (maxcount - 128) && ltb accumulated dircount

module _ (xid : ℕ) (attr : Option Fattr) where
  -- The reply's beginning, before the first entry.
  unfoldable pub page_header : Result Bytes
  page_header = answer xid nfs3_ok (post_op_attr attr ⊕ write_fixed (dirversion attr))

  unfoldable pub finish_page : Bool → Result Page → Result Bytes
  finish_page end (err e) = err e
  finish_page end (ok page) =
      if page.too_small
      then answer xid nfs3err_toosmall (post_op_attr attr)
      else ok page.output
        ⊕ write_bool false
        ⊕ write_bool (if page.all_entries_written then end else false)

  unfoldable pub reply_page : (Bytes → Result Page) → Bool → Result Bytes
  reply_page loop end = elim page_header [ ok out ↦ finish_page end (loop out) | err e ↦ err e ]

module _ {S : Type 0} (vfs : FileSystem S) (auth : AuthUnix) (xid : ℕ) where
  -- The directory's attributes, the right to READ it, and the verifier of the cookie. A cookie is
  -- always an index, since `usize` has 64 bits.
  unfoldable pub list_directory : Bytes → Bytes → (ℕ → Option Fattr → S → Outcome S) → S → Outcome S
  list_directory handle verf go s =
      on_id (fh_to_id vfs.generation handle)
        (λ dirid.
          let (r, s1) = vfs.getattr dirid s in
          let attr = to_option r in
          allowed vfs auth dirid 1 0
            (λ s.
              if wrong_version verf attr
              then (answer xid nfs3err_bad_cookie (post_op_attr attr), s)
              else go dirid attr s)
            (λ stat s. (answer xid stat (post_op_attr attr), s)) s1)
        (λ stat. (answer xid stat (post_op_attr none), s))

  unfoldable pub readdir_page : Readdir3Args → ℕ → Option Fattr → S → Outcome S
  readdir_page args dirid attr s =
      on_result (vfs.readdir_simple_index dirid args.cookie (estimated_max_results args.dircount) s)
        (λ result s. (
          reply_page xid attr
              (write_entries write_simple (λ e. added_dircount e.name) (fits_readdir args.dircount)
                result.entries args.cookie 0 false)
              result.end,
          s,
        ))
        (λ stat s. (answer xid stat (post_op_attr attr), s))

  unfoldable pub nfsproc3_readdir : Bytes → S → Outcome S
  nfsproc3_readdir input s =
      on_args (read_readdir3args input)
        (λ args rest. list_directory args.dir args.cookieverf (readdir_page args) s) s

  unfoldable pub readdirplus_page : ReaddirPlus3Args → ℕ → Option Fattr → S → Outcome S
  readdirplus_page args dirid attr s =
      on_result (vfs.readdir_index dirid args.cookie (estimated_max_results args.dircount) s)
        (λ result s. (
          reply_page xid attr
              (write_entries (write_plus vfs.generation) (λ e. added_dircount e.name)
                (fits_readdirplus args.dircount args.maxcount) result.entries args.cookie 0 false)
              result.end,
          s,
        ))
        (λ stat s. (answer xid stat (post_op_attr attr), s))

  unfoldable pub nfsproc3_readdirplus : Bytes → S → Outcome S
  nfsproc3_readdirplus input s =
      on_args (read_readdirplus3args input)
        (λ args rest. list_directory args.dir args.cookieverf (readdirplus_page args) s) s
