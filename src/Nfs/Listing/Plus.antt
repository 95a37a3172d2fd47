-- ===== src/Nfs/Listing/Plus.antt =====
-- protocol/nfs/v3/readdirplus.rs: the reply to a listing that is granted, whole.
use fernfs.Prelude.{ℕ, ◌<◌, ◌^◌, ◌≡◌, refl, true, false, List, [], ◌∷◌, ltb, length, All, arith}
use fernfs.Io.{ok, Bytes, ◌⊕◌}
use fernfs.Xdr.Word.{write_bool, write_u32, write_u64}
use fernfs.Xdr.Opaque.{write_opaque, write_usize, write_padding}
use fernfs.Xdr.Array.{write_option, write_enum}
use fernfs.Xdr.Rpc.{AuthUnix}
use fernfs.Xdr.Nfs3.{NfsResult, Fattr}
use fernfs.Xdr.Nfs3.Codec.{write_fattr, write_specdata, write_nfstime}
use fernfs.Xdr.Nfs3.Dir.{write_entryplus3, ReaddirPlus3Args, read_readdirplus3args}
use fernfs.Vfs.{FileSystem, DirEntry, ReadDirResult}
use fernfs.Vfs.Handles.{fh_to_id, id_to_fh, le_bytes}
use fernfs.Vfs.Permissions.{bit}
use fernfs.Nfs.Steps.{to_option, allowed}
use fernfs.Nfs.Listing.{
  added_dircount, write_plus, fits_readdirplus, wrong_version, list_directory, readdirplus_page,
  estimated_max_results, nfsproc3_readdirplus,
}
use fernfs.Nfs.Listing.Replies.{written, IsListing, reply_page-IsListing}

write_plus-written :
    (gennum cookie : ℕ) (e : DirEntry)
    → length e.name < 2 ^ 32
    → write_plus gennum cookie e ≡ ok (written (write_plus gennum cookie e))
unfolding write_plus write_entryplus3 write_opaque write_usize write_padding write_bool write_u32
    write_u64 write_option write_fattr write_specdata write_nfstime write_enum id_to_fh le_bytes ◌⊕◌
write_plus-written gennum cookie e h =
    let fits : ltb (length e.name) (2 ^ 32) ≡ true = ground arith in rw fits refl

abbrev pub plus_dircount_of : DirEntry → ℕ
plus_dircount_of e = added_dircount e.name

write_plus_each :
    (gennum : ℕ) (es : List DirEntry)
    → All (λ e. length e.name < 2 ^ 32) es
    → All
        (λ e. (cookie : ℕ) → write_plus gennum cookie e ≡ ok (written (write_plus gennum cookie e)))
        es
write_plus_each gennum [] h = tt
write_plus_each gennum (e ∷ es) (h, hs) =
    (λ cookie. write_plus-written gennum cookie e h, write_plus_each gennum es hs)

module _ {S : Type 0} (vfs : FileSystem S) (auth : AuthUnix) (xid : ℕ) where
  -- Where the directory's handle is good, READ is granted, the verifier is not wrong, and the file
  -- system lists entries from the cookie on, with names that XDR can write, READDIRPLUS answers as
  -- many of the entries, with their attributes and handles, as fit both in the largest reply less
  -- 128 bytes and in the count of bytes of names, each with the index behind it as its cookie, and
  -- the end of the directory only with the last entry of the listing; or that the limit is too
  -- small, where there are entries and not one fits.
  pub nfsproc3_readdirplus_lem :
      (input rest : Bytes) (args : ReaddirPlus3Args) (dirid granted : ℕ) (r : NfsResult Fattr)
      (result : ReadDirResult DirEntry) (s s1 s2 s3 : S)
      → read_readdirplus3args input ≡ ok (args, rest)
      → fh_to_id vfs.generation args.dir ≡ NfsResult.ok dirid
      → vfs.getattr dirid s ≡ (r, s1)
      → vfs.check_access dirid auth 1 s1 ≡ (NfsResult.ok granted, s2)
      → bit granted 0 ≡ true
      → wrong_version args.cookieverf (to_option r) ≡ false
      → vfs.readdir_index dirid args.cookie (estimated_max_results args.dircount) s2
        ≡ (NfsResult.ok result, s3)
      → All (λ e. length e.name < 2 ^ 32) result.entries
      → ((nfsproc3_readdirplus vfs auth xid input s).1 ≡ s3)
        × IsListing
            (write_plus vfs.generation)
            plus_dircount_of
            (fits_readdirplus args.dircount args.maxcount)
            xid
            (to_option r)
            result.entries
            args.cookie
            result.end
            (nfsproc3_readdirplus vfs auth xid input s).0
  unfolding nfsproc3_readdirplus list_directory readdirplus_page allowed
  nfsproc3_readdirplus_lem input rest args dirid granted r result s s1 s2 s3 ea ed eg ec eb ev el
        h =
      rw (ea, ed, eg, ec, eb, ev, el)
        (
          refl,
          reply_page-IsListing (write_plus vfs.generation) plus_dircount_of
              (fits_readdirplus args.dircount args.maxcount) xid (to_option r) result.entries
              args.cookie result.end (write_plus_each vfs.generation result.entries h),
        )
