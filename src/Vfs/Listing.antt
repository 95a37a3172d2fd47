-- ===== src/Vfs/Listing.antt =====
-- vfs.rs: the default methods that list a directory from an index on.
pub mod Laws
use fernfs.Prelude.{saturating_add}
use fernfs.Prelude.{
  ℕ, ◌+◌, ◌-◌, ◌≤◌, ◌<◌, ◌^◌, ◌≡◌, min, ◌&&◌, ◌||◌, not, List, [], ◌∷◌, arith, ltb, leb, ◌==◌,
  if◌then◌else◌, length, take, drop, length-take,
}
use fernfs.Xdr.Nfs3.{NfsResult, nfs3err_bad_cookie}
use fernfs.Vfs.{FileSystem, DirEntry, DirEntrySimple, ReadDirResult}

unfoldable pub simple_entries : List DirEntry → List DirEntrySimple
simple_entries [] = []
simple_entries (e ∷ es) = record { fileid = e.fileid; name = e.name } ∷ simple_entries es

unfoldable pub from_readdir_result : ReadDirResult DirEntry → ReadDirResult DirEntrySimple
from_readdir_result result = record { entries = simple_entries result.entries; end = result.end }

-- What is cut from the listing of the first entries.
unfoldable pub from_index : ℕ → ReadDirResult DirEntry → NfsResult (ReadDirResult DirEntry)
from_index start result =
    if ltb (length result.entries) start || (length result.entries == start && not result.end)
    then NfsResult.err nfs3err_bad_cookie
    else if start == 0
    then NfsResult.ok result
    else NfsResult.ok (record { entries = drop start result.entries; end = result.end })

abbrev pub map_ok {ℓ κ ι} :
    {A : Type ℓ} {B : Type κ} {S : Type ι} → (A → NfsResult B) → NfsResult A × S → NfsResult B × S
map_ok f (NfsResult.ok a, s) = (f a, s)
map_ok f (NfsResult.err e, s) = (NfsResult.err e, s)

module _ {S : Type 0} (vfs : FileSystem S) where
  unfoldable pub readdir_index : ℕ → ℕ → ℕ → S → NfsResult (ReadDirResult DirEntry) × S
  readdir_index dirid start max s =
      map_ok (from_index start) (vfs.readdir dirid 0 (saturating_add start max) s)

  -- over `readdir_index` of the file system, which may be its own
  unfoldable pub readdir_simple_index : ℕ → ℕ → ℕ → S → NfsResult (ReadDirResult DirEntrySimple) × S
  readdir_simple_index dirid start max s =
      map_ok (λ r. NfsResult.ok (from_readdir_result r)) (vfs.readdir_index dirid start max s)
