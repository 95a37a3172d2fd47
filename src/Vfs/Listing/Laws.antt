-- ===== src/Vfs/Listing/Laws.antt =====
-- vfs.rs: `readdir_index` on a file system whose `readdir` lists a directory's entries in an order.
use fernfs.Prelude.{usize_max}
use fernfs.Prelude.{
  ℕ, zero, suc, [], ◌∷◌, ◌+◌, ◌≤◌, ◌≡◌, refl, ap, min, List, arith, ltb, leb, if◌then◌else◌, length,
  take, drop, length-take,
}
use fernfs.Xdr.Nfs3.{NfsResult, nfs3err_bad_cookie}
use fernfs.Vfs.{FileSystem, DirEntry, ReadDirResult}
use fernfs.Vfs.Listing.{from_index, readdir_index}

-- The first `count` entries of a directory.
abbrev pub first : List DirEntry → ℕ → ReadDirResult DirEntry
first all count = record { entries = take count all; end = leb (length all) count }

-- A part of a directory: at most `max` of the entries from `start` on.
abbrev pub part : List DirEntry → ℕ → ℕ → ReadDirResult DirEntry
part all start max = record {
  entries = take max (drop start all);
  end = leb (length all) (start + max);
}

take_nil : {A : Type 0} (n : ℕ) → take {A = A} n [] ≡ []
take_nil zero = refl
take_nil (suc n) = refl

drop-take :
    {A : Type 0} (start max : ℕ) (xs : List A)
    → drop start (take (start + max) xs) ≡ take max (drop start xs)
drop-take zero max xs = ap (λ n. take n xs) (omega arith)
drop-take (suc start) max [] = rw (take_nil (suc start + max), take_nil max) refl
drop-take (suc start) max (x ∷ xs) =
    let step : suc start + max ≡ suc (start + max) = omega arith in rw step (drop-take start max xs)

from_index-first :
    (all : List DirEntry) (start max : ℕ)
    → 1 ≤ max
    → from_index start (first all (start + max)) ≡ (
        if ltb (length all) start
        then NfsResult.err nfs3err_bad_cookie
        else NfsResult.ok (part all start max))
unfolding from_index
from_index-first all start max h =
    ground (arith, length-take (start + max) all, drop-take start max all)

module _ {S : Type 0} (vfs : FileSystem S) where
  -- If `readdir` answers the first entries of the list `all`, as many as are asked for, and says
  -- whether these are all of them, then `readdir_index` answers the entries from the index on, at
  -- most as many as are asked for, and an index behind the last entry is a bad cookie. At least one
  -- entry is asked for, and the sum does not overflow.
  pub readdir_index_lem :
      (all : List DirEntry) (dirid start max : ℕ) (s s' : S)
      → 1 ≤ max
      → start + max ≤ usize_max
      → vfs.readdir dirid 0 (start + max) s ≡ (NfsResult.ok (first all (start + max)), s')
      → readdir_index vfs dirid start max s ≡ (
        (if ltb (length all) start
            then NfsResult.err nfs3err_bad_cookie
            else NfsResult.ok (part all start max)),
        s',
      )
  unfolding readdir_index
  readdir_index_lem all dirid start max s s' h k e =
      let sum : min (start + max) usize_max ≡ start + max = omega arith in
      rw (sum, e, from_index-first all start max h) refl
