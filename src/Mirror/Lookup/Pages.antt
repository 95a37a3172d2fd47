-- ===== src/Mirror/Lookup/Pages.antt =====
-- bin/fernfs/fs.rs and vfs.rs: the pages of `readdir`, and `readdir_index` on them.
use fernfs.Prelude.{
  ℕ, zero, suc, ◌+◌, ◌-◌, ◌<◌, ◌≤◌, ◌≡◌, refl, sym, ap, Bool-cases, inl, inr, some, List, [], ◌∷◌,
  arith, ltb, leb, if◌then◌else◌, length, take, drop, length-take, length-drop, usize_max,
}
use fernfs.Xdr.Nfs3.{NfsResult, nfs3err_bad_cookie}
use fernfs.Vfs.{FileSystem, DirEntry, ReadDirResult}
use fernfs.Vfs.Listing.{readdir_index}
use fernfs.Vfs.Listing.Laws.{part, first, readdir_index_lem}
use fernfs.Mirror.Host.{Host, Interner, Mirror, ◌>>=◌, ◌>>◌}
use fernfs.Mirror.Refresh.{RefreshResult, refresh_entry, refresh_dir_list}
use fernfs.Mirror.Lookup.{push_entries, page_from, page_of, listing_of, readdir}

take-nil : {A : Type 0} (n : ℕ) → take {A = A} n [] ≡ []
take-nil zero = refl
take-nil (suc n) = refl

push_entries_lem :
    {A : Type 0} (max n : ℕ) (es : List A) → n < max → push_entries max n es ≡ take (max - n) es
unfolding push_entries
push_entries_lem max n [] h = sym (take-nil (max - n))
push_entries_lem max n (e ∷ es) h = elim (Bool-cases (leb max (n + 1))) [
  | inl t ↦ let one : max - n ≡ 1 = ground arith in rw (t, one) refl
  | inr f ↦
      let more : max - n ≡ suc (max - (n + 1)) = ground arith in
      rw (f, more) (ap (λ r. e ∷ r) (push_entries_lem max (n + 1) es (ground arith)))
]

-- `readdir` cuts a page out of the whole listing just as the specification of `readdir_index` has it.
pub page_from_lem :
    (all : List DirEntry) (start max : ℕ)
    → 1 ≤ max
    → page_from start max all ≡ (
        if ltb (length all) start
        then NfsResult.err nfs3err_bad_cookie
        else NfsResult.ok (part all start max))
unfolding page_from
page_from_lem all start max h =
    rw (push_entries_lem max 0 (drop start all) h)
      (ground (arith, length-take max (drop start all), length-drop start all))

module _ {T H : Type 0} (interner : Interner T) (host : Host H) (stack : ℕ) where
  -- If the directory can be brought up to date and then lists all of some entries, the default
  -- `readdir_index` over this `readdir` answers the entries from the index on, at most as many as are
  -- asked for, says whether they are the last, and refuses an index behind the last. At least one
  -- entry is asked for, and the sum does not overflow.
  pub readdir_index-readdir :
      (vfs : FileSystem (Mirror T H)) (all : List DirEntry) (dirid start max : ℕ)
      → (s s' s'' : Mirror T H) (r : RefreshResult)
      → ((n : ℕ) (x : NfsResult (ReadDirResult DirEntry)) (t : Mirror T H)
          → readdir interner host stack dirid 0 n s ≡ some (x, t)
          → vfs.readdir dirid 0 n s ≡ (x, t))
      → refresh_entry interner host stack dirid s ≡ some (NfsResult.ok r, s')
      → refresh_dir_list interner host stack dirid s' ≡ some (NfsResult.ok tt, s'')
      → listing_of interner dirid s''.fsmap ≡ NfsResult.ok all
      → 1 ≤ max
      → start + max ≤ usize_max
      → readdir_index vfs dirid start max s ≡ (
        (if ltb (length all) start
            then NfsResult.err nfs3err_bad_cookie
            else NfsResult.ok (part all start max)),
        s'',
      )
  unfolding readdir page_of ◌>>=◌
  readdir_index-readdir vfs all dirid start max s s' s'' r same fresh listed whole h k =
      let page = page_from_lem all 0 (start + max) (omega arith) in
      let first_page : readdir interner host stack dirid 0 (start + max) s
          ≡ some (NfsResult.ok (first all (start + max)), s'') =
        rw (readdir, ◌>>=◌, fresh, ◌>>◌, listed, whole, page_of, page) (ground arith) in
      readdir_index_lem vfs all dirid start max s s'' h k
        (same (start + max) (NfsResult.ok (first all (start + max))) s'' first_page)
