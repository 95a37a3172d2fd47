-- ===== src/Tests/Listing.antt =====
-- READDIR, READDIRPLUS and the listings from an index on, on the directory of Demo, which has three
-- entries, read from the second on with room for one; and calls that the NFS program refuses.
use fernfs.Prelude.{equal_lists}
use fernfs.Prelude.{◌≡◌, refl, some, true, false, [], ◌∷◌, ◌++◌, arith}
use fernfs.Io.{ok, Bytes, ◌>>=◌, pure}
use fernfs.Xdr.Word.{read_u32, read_u64}
use fernfs.Xdr.Opaque.{read_opaque, read_usize, read_exact, read_padding, padding_len, read_fixed}
use fernfs.Xdr.Rpc.{default_auth_unix}
use fernfs.Xdr.Nfs3.{NfsResult}
use fernfs.Xdr.Nfs3.Dir.{Readdir3Args, read_readdir3args, ReaddirPlus3Args, read_readdirplus3args}
use fernfs.Vfs.Handles.{fh_to_id, from_le_bytes}
use fernfs.Vfs.Listing.{from_index, from_readdir_result, simple_entries, readdir_index}
use fernfs.Vfs.Listing.Laws.{part, readdir_index_lem}
use fernfs.Nfs.Listing.{
  no_version, wrong_version, write_simple, write_plus, fits_readdir, fits_readdirplus,
  estimated_max_results, nfsproc3_readdir, nfsproc3_readdirplus,
}
use fernfs.Nfs.Listing.Replies.{dircount_of, IsListing, nfsproc3_readdir_lem}
use fernfs.Nfs.Listing.Plus.{plus_dircount_of, nfsproc3_readdirplus_lem}
use fernfs.Tests.Demo.{demo_fs, demo_entries, directory}

abbrev root_bytes : Bytes
root_bytes = 5 ∷ 0 ∷ 0 ∷ 0 ∷ 0 ∷ 0 ∷ 0 ∷ 0 ∷ 1 ∷ 0 ∷ 0 ∷ 0 ∷ 0 ∷ 0 ∷ 0 ∷ 0 ∷ []

-- The cookie 1, no verifier, and 300 bytes.
abbrev readdir_bytes : Bytes
readdir_bytes =
    (0 ∷ 0 ∷ 0 ∷ 16 ∷ root_bytes)
    ++ (0 ∷ 0 ∷ 0 ∷ 0 ∷ 0 ∷ 0 ∷ 0 ∷ 1 ∷ 0 ∷ 0 ∷ 0 ∷ 0 ∷ 0 ∷ 0 ∷ 0 ∷ 0 ∷ 0 ∷ 0 ∷ 1 ∷ 44 ∷ [])

abbrev readdir_args : Readdir3Args
readdir_args = record { dir = root_bytes; cookie = 1; cookieverf = no_version; dircount = 300 }

reads_readdir : read_readdir3args readdir_bytes ≡ ok (readdir_args, [])
unfolding read_readdir3args read_fixed read_u64 read_opaque read_usize read_u32 read_exact
    read_padding padding_len ◌>>=◌ pure
reads_readdir = refl

-- and at most 450 bytes in all
abbrev readdirplus_args : ReaddirPlus3Args
readdirplus_args = record {
  dir = root_bytes;
  cookie = 1;
  cookieverf = no_version;
  dircount = 300;
  maxcount = 450;
}

reads_readdirplus :
    read_readdirplus3args (readdir_bytes ++ (0 ∷ 0 ∷ 1 ∷ 194 ∷ [])) ≡ ok (readdirplus_args, [])
unfolding read_readdirplus3args read_fixed read_u64 read_opaque read_usize read_u32 read_exact
    read_padding padding_len ◌>>=◌ pure
reads_readdirplus = refl

root_is_1 : fh_to_id 5 root_bytes ≡ NfsResult.ok 1
unfolding fh_to_id from_le_bytes
root_is_1 = refl

not_wrong : wrong_version no_version (some (directory 1)) ≡ false
unfolding wrong_version equal_lists
not_wrong = refl

listed :
    demo_fs.readdir_simple_index 1 1 (estimated_max_results 300) 0
    ≡ (NfsResult.ok (from_readdir_result (part demo_entries 1 18)), 0)
unfolding estimated_max_results from_index from_readdir_result simple_entries
listed = refl

listed_plus :
    demo_fs.readdir_index 1 1 (estimated_max_results 300) 0
    ≡ (NfsResult.ok (part demo_entries 1 18), 0)
unfolding estimated_max_results from_index
listed_plus = refl

nfsproc3_readdir_lem_example :
    ((nfsproc3_readdir demo_fs default_auth_unix 7 readdir_bytes 0).1 ≡ 0)
    × IsListing write_simple dircount_of
        (fits_readdir 300)
        7
        (some (directory 1))
        (record { fileid = 3; name = 98 ∷ 99 ∷ [] } ∷ record { fileid = 4; name = 100 ∷ [] } ∷ [])
        1
        true
        (nfsproc3_readdir demo_fs default_auth_unix 7 readdir_bytes 0).0
unfolding from_readdir_result simple_entries
nfsproc3_readdir_lem_example =
    nfsproc3_readdir_lem demo_fs default_auth_unix 7 readdir_bytes [] readdir_args 1 1
      (NfsResult.ok (directory 1)) (from_readdir_result (part demo_entries 1 18)) 0 0 0 0
      reads_readdir root_is_1 refl refl refl not_wrong listed (omega arith, (omega arith, tt))

nfsproc3_readdirplus_lem_example :
    ((nfsproc3_readdirplus demo_fs default_auth_unix 7
        (readdir_bytes ++ (0 ∷ 0 ∷ 1 ∷ 194 ∷ []))
        0).1
      ≡ 0)
    × IsListing
        (write_plus 5)
        plus_dircount_of
        (fits_readdirplus 300 450)
        7
        (some (directory 1))
        (part demo_entries 1 18).entries
        1
        true
        (nfsproc3_readdirplus demo_fs default_auth_unix 7
          (readdir_bytes ++ (0 ∷ 0 ∷ 1 ∷ 194 ∷ []))
          0).0
nfsproc3_readdirplus_lem_example =
    nfsproc3_readdirplus_lem demo_fs default_auth_unix 7 (readdir_bytes ++ (0 ∷ 0 ∷ 1 ∷ 194 ∷ []))
      [] readdirplus_args 1 1 (NfsResult.ok (directory 1)) (part demo_entries 1 18) 0 0 0 0
      reads_readdirplus root_is_1 refl refl refl not_wrong listed_plus
      (omega arith, (omega arith, tt))

readdir_index_lem_example : readdir_index demo_fs 1 1 1 0 ≡ (
  NfsResult.ok (record {
    entries = record { fileid = 3; name = 98 ∷ 99 ∷ []; attr = directory 3 } ∷ [];
    end = false;
  }),
  0,
)
readdir_index_lem_example =
    readdir_index_lem demo_fs demo_entries 1 1 1 0 0 (omega arith) (omega arith) refl
