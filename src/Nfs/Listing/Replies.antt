-- ===== src/Nfs/Listing/Replies.antt =====
-- protocol/nfs/v3/readdir.rs and readdirplus.rs: the reply to a listing that is granted, whole.
use fernfs.Prelude.{
  ℕ, suc, ◌≤◌, ◌<◌, ◌^◌, ◌≡◌, refl, ◌∙◌, Bool, true, false, ◌&&◌, not, ◌⊎◌, inl, inr, Option, none,
  some, List, [], ◌∷◌, ◌++◌, ltb, ◌==◌, if◌then◌else◌, length, take, All, arith,
}
use fernfs.Io.{Result, ok, err, Bytes, ◌⊕◌}
use fernfs.Xdr.Word.{write_bool, write_u32, write_u64, u32_bytes}
use fernfs.Xdr.Opaque.{write_opaque, write_usize, write_padding, write_fixed}
use fernfs.Xdr.Array.{write_option, write_enum}
use fernfs.Xdr.Rpc.{AuthUnix, make_success_reply}
use fernfs.Xdr.Rpc.Codec.{
  write_rpc_msg, write_rpc_body, write_reply_body, write_accepted_reply, write_opaque_auth,
  write_accept_body, auth_flavor_code,
}
use fernfs.Xdr.Nfs3.{nfs3err_toosmall, NfsResult, Fattr}
use fernfs.Xdr.Nfs3.Codec.{write_nfsstat, write_fattr, write_specdata, write_nfstime}
use fernfs.Xdr.Nfs3.Dir.{write_entry3}
use fernfs.Xdr.Nfs3.Dir.{Readdir3Args, read_readdir3args}
use fernfs.Vfs.{FileSystem, DirEntrySimple, ReadDirResult}
use fernfs.Vfs.Handles.{fh_to_id}
use fernfs.Vfs.Permissions.{bit}
use fernfs.Nfs.Steps.{answer, post_op_attr, to_option, allowed}
use fernfs.Nfs.Listing.{
  Page, write_entries, page_header, finish_page, reply_page, added_dircount, write_simple,
  fits_readdir, wrong_version, list_directory, readdir_page, estimated_max_results,
  nfsproc3_readdir,
}
use fernfs.Nfs.Listing.Pages.{entries_bytes, Fits, write_entries_lem}

-- The bytes of a write that succeeds.
abbrev pub written : Result Bytes → Bytes
written (ok bytes) = bytes
written (err e) = []

page_header-written :
    (xid : ℕ) (attr : Option Fattr) → page_header xid attr ≡ ok (written (page_header xid attr))
unfolding page_header answer make_success_reply write_rpc_msg write_rpc_body write_reply_body
    write_accepted_reply write_opaque_auth write_accept_body auth_flavor_code write_nfsstat
    write_enum write_option write_fattr write_specdata write_nfstime write_opaque write_usize
    write_padding write_fixed write_bool write_u32 write_u64 ◌⊕◌
page_header-written xid none = refl
page_header-written xid (some a) = refl

write_simple-written :
    (cookie : ℕ) (e : DirEntrySimple)
    → length e.name < 2 ^ 32
    → write_simple cookie e ≡ ok (written (write_simple cookie e))
unfolding write_simple write_entry3 write_opaque write_usize write_padding write_bool write_u32
    write_u64 ◌⊕◌
write_simple-written cookie e h =
    let fits : ltb (length e.name) (2 ^ 32) ≡ true = ground arith in rw fits refl

not_both : (c : Bool) → (not c && not false) ≡ not c
not_both true = refl
not_both false = refl

last_flag : (c end : Bool) → (if c then end else false) ≡ (end && c)
last_flag true true = refl
last_flag true false = refl
last_flag false true = refl
last_flag false false = refl

module _ (xid : ℕ) (attr : Option Fattr) where
  finish_page_ok :
      (end c none_written : Bool) (page : Page) (out : Bytes)
      → page.all_entries_written ≡ c
      → page.too_small ≡ (not page.all_entries_written && not false && none_written)
      → page.output ≡ out
      → finish_page xid attr end (ok page) ≡ (
          if not c && none_written
          then answer xid nfs3err_toosmall (post_op_attr attr)
          else ok (out ++ (u32_bytes 0 ++ u32_bytes (if end && c then 1 else 0))))
  unfolding finish_page write_bool write_u32 ◌⊕◌
  finish_page_ok end c none_written page out a small o =
      rw (small, a, o, last_flag c end, not_both c) refl

  reply_page_ok :
      (end : Bool) (loop : Bytes → Result Page) (header : Bytes) (page : Page)
      → page_header xid attr ≡ ok header
      → loop header ≡ ok page
      → reply_page xid attr loop end ≡ finish_page xid attr end (ok page)
  unfolding reply_page
  reply_page_ok end loop header page e run = rw (reply_page, e, run) refl

module _ {E : Type 0} (write_entry : ℕ → E → Result Bytes) (count_of : E → ℕ)
    (fits : ℕ → ℕ → Bool) where
  abbrev pub bytes_of : ℕ → E → Bytes
  bytes_of cookie e = written (write_entry cookie e)

  -- `reply` holds the first `count` entries of `es` with the cookies from `index` on, as many as
  -- fit behind the header, and says that the directory ends there if they are all of `es` and `end`
  -- holds. If there are entries and none fits, it says that the limit is too small.
  pub record IsListing (xid : ℕ) (attr : Option Fattr) (es : List E) (index : ℕ) (end : Bool)
      (reply : Result Bytes) : Type 0 where
    pub header : Bytes
    pub header_written : page_header xid attr ≡ ok header
    pub count : ℕ
    pub fitting : (count ≡ 0) ⊎ Fits write_entry count_of fits bytes_of es index 0 header count true
    pub largest :
        (count ≡ length es)
        ⊎ ((suc count ≤ length es)
            × Fits write_entry count_of fits bytes_of es index 0 header (suc count) false)
    pub replies : reply ≡ (
        if not (count == length es) && count == 0
        then answer xid nfs3err_toosmall (post_op_attr attr)
        else ok (
            (header ++ entries_bytes write_entry count_of fits bytes_of index (take count es))
            ++ (u32_bytes 0 ++ u32_bytes (if end && count == length es then 1 else 0))))

  pub reply_page-IsListing :
      (xid : ℕ) (attr : Option Fattr) (es : List E) (index : ℕ) (end : Bool)
      → All (λ e. (cookie : ℕ) → write_entry cookie e ≡ ok (bytes_of cookie e)) es
      → IsListing xid attr es index end
          (reply_page xid attr (write_entries write_entry count_of fits es index 0 false) end)
  reply_page-IsListing xid attr es index end h =
      let header = written (page_header xid attr) in
      let (page, run, p) =
        write_entries_lem write_entry count_of fits bytes_of es index 0 false header h in
      let all : page.all_entries_written ≡ (p.count == length es) = elim p.complete [
        | inl (a, n) ↦ ground arith
        | inr (a, n, f) ↦ ground arith
      ] in
      record {
        header = header;
        header_written = page_header-written xid attr;
        count = p.count;
        fitting = p.fitting;
        largest = elim p.complete [ inl (a, n) ↦ inl n | inr (a, n, f) ↦ inr (n, f) ];
        replies =
            reply_page_ok xid attr end _ header page (page_header-written xid attr) run
            ∙ finish_page_ok xid attr end _ _ page _ all p.small p.holds;
      }

abbrev pub dircount_of : DirEntrySimple → ℕ
dircount_of e = added_dircount e.name

write_simple_each :
    (es : List DirEntrySimple)
    → All (λ e. length e.name < 2 ^ 32) es
    → All
        (λ e.
          (cookie : ℕ)
          → write_simple cookie e
            ≡ ok (bytes_of write_simple dircount_of (fits_readdir 0) cookie e))
        es
write_simple_each [] h = tt
write_simple_each (e ∷ es) (h, hs) =
    (λ cookie. write_simple-written cookie e h, write_simple_each es hs)

module _ {S : Type 0} (vfs : FileSystem S) (auth : AuthUnix) (xid : ℕ) where
  -- Where the directory's handle is good, READ is granted, the verifier is not wrong, and the file
  -- system lists entries from the cookie on, with names that XDR can write, READDIR answers as many
  -- of the entries as fit in the limit of the call less 128 bytes, each with the index behind it as
  -- its cookie, and the end of the directory only with the last entry of the listing; or that the
  -- limit is too small, where there are entries and not one fits.
  pub nfsproc3_readdir_lem :
      (input rest : Bytes) (args : Readdir3Args) (dirid granted : ℕ) (r : NfsResult Fattr)
      (result : ReadDirResult DirEntrySimple) (s s1 s2 s3 : S)
      → read_readdir3args input ≡ ok (args, rest)
      → fh_to_id vfs.generation args.dir ≡ NfsResult.ok dirid
      → vfs.getattr dirid s ≡ (r, s1)
      → vfs.check_access dirid auth 1 s1 ≡ (NfsResult.ok granted, s2)
      → bit granted 0 ≡ true
      → wrong_version args.cookieverf (to_option r) ≡ false
      → vfs.readdir_simple_index dirid args.cookie (estimated_max_results args.dircount) s2
        ≡ (NfsResult.ok result, s3)
      → All (λ e. length e.name < 2 ^ 32) result.entries
      → ((nfsproc3_readdir vfs auth xid input s).1 ≡ s3)
        × IsListing write_simple dircount_of
            (fits_readdir args.dircount)
            xid
            (to_option r)
            result.entries
            args.cookie
            result.end
            (nfsproc3_readdir vfs auth xid input s).0
  unfolding nfsproc3_readdir list_directory readdir_page allowed
  nfsproc3_readdir_lem input rest args dirid granted r result s s1 s2 s3 ea ed eg ec eb ev el h =
      rw (ea, ed, eg, ec, eb, ev, el)
        (
          refl,
          reply_page-IsListing write_simple dircount_of (fits_readdir args.dircount) xid
              (to_option r) result.entries args.cookie result.end
              (write_simple_each result.entries h),
        )
