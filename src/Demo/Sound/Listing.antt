-- ===== src/Demo/Sound/Listing.antt =====
-- examples/demo_fs/fs.rs: readdir on a sound state.
use fernfs.Prelude.{
  ℕ, zero, suc, ◌+◌, ◌-◌, ◌<◌, ◌≤◌, ◌≡◌, refl, ap, sym, ◌∙◌, min, false, Bool-cases, inl, inr, some,
  List, [], ◌∷◌, arith, leb, ltb, ◌==◌, nat_eq, list_eq, if◌then◌else◌, length, take, drop,
  length-take, length-drop, All, All-drop,
}
use mathlib.Core.Path.{subst}
use fernfs.Xdr.Nfs3.{NfsResult}
use fernfs.Vfs.{DirEntry, ReadDirResult}
use fernfs.Demo.Entry.{Contents, DemoEntry, DemoFs, get_at}
use fernfs.Demo.Look.{list_entries, list_page, readdir}
use fernfs.Demo.Sound.{Fits, IsSound}
use fernfs.Demo.Sound.Methods.{entry_Fits}

get_at_within :
    {A : Type 0} (xs : List A) (n : ℕ) → n < length xs → (x : A) × (get_at xs n ≡ some x)
unfolding get_at
get_at_within [] n h = absurd (omega arith)
get_at_within (x ∷ xs) zero h = (x, refl)
get_at_within (x ∷ xs) (suc n) h = get_at_within xs n (omega arith)

-- How many entries a page has at most: at least one.
abbrev pub page_size : ℕ → ℕ
page_size max = if max == 0 then 1 else max

abbrev pub fileids : List DirEntry → List ℕ
fileids [] = []
fileids (e ∷ es) = e.fileid ∷ fileids es

length-fileids : (es : List DirEntry) → length (fileids es) ≡ length es
length-fileids [] = refl
length-fileids (e ∷ es) = ap suc (length-fileids es)

take_nil : (n : ℕ) → take {A = ℕ} n [] ≡ []
take_nil zero = refl
take_nil (suc n) = refl

list_entries_lem :
    (max n : ℕ) (is : List ℕ) (s : DemoFs)
    → All (λ i. i < length s.entries) is
    → (es : List DirEntry) × (list_entries max n is s ≡ some es)
      × (fileids es ≡ take (page_size (max - n)) is)
unfolding list_entries
list_entries_lem max n [] s u = ([], refl, sym (take_nil (page_size (max - n))))
list_entries_lem max n (i ∷ is) s (u, v) =
    let (e, there) = get_at_within s.entries i u in
    let (es, listed, same) = list_entries_lem max (n + 1) is s v in
    let entry : DirEntry = record { fileid = i; name = e.name; attr = e.attr } in
    elim (Bool-cases (leb max (n + 1))) [
      | inl t ↦
          let one : page_size (max - n) ≡ 1 = ground arith in
          (entry ∷ [], rw (list_entries, there, t) refl, rw one refl)
      | inr f ↦
          let more : page_size (max - n) ≡ suc (page_size (max - (n + 1))) = ground arith in
          (entry ∷ es, rw (list_entries, there, f, listed) refl, rw (more, same) refl)
    ]

module _ (s : DemoFs) (c : IsSound s) where
  list_page_lem :
      (start max : ℕ) (is : List ℕ)
      → All (λ i. i < length s.entries) is
      → start ≤ length is
      → (r : ReadDirResult DirEntry) × (list_page start max is s ≡ some (NfsResult.ok r, s))
        × (fileids r.entries ≡ take (page_size max) (drop start is))
        × (r.end ≡ leb (length is - start) (page_size max))
  unfolding list_page
  list_page_lem start max is u h =
      let (es, listed, found) = list_entries_lem max 0 (drop start is) s (All-drop _ start is u) in
      let whole : max - 0 ≡ max = omega arith in
      let same : fileids es ≡ take (page_size max) (drop start is) = rw whole at found in
      let long : length es ≡ min (page_size max) (length is - start) =
        sym (length-fileids es)
        ∙ ap length same
        ∙ length-take (page_size max) (drop start is)
        ∙ ap (min (page_size max)) (length-drop start is) in
      let within : ltb (length is) start ≡ false = ground arith in
      (
        record { entries = es; end = length es == length is - start },
        rw (within, listed) refl,
        same,
        ground (arith, long),
      )

  -- In a sound state the listing of a directory does not panic: from a cookie that is not past its end it
  -- answers the identifiers of the children after the cookie, in their order, as many as were asked for
  -- but one at the least, and says that the listing ends exactly if no child is left.
  pub readdir_lem :
      (id start max : ℕ) (e : DemoEntry) (is : List ℕ)
      → get_at s.entries id ≡ some e
      → e.contents ≡ Contents.directory is
      → start ≤ length is
      → (r : ReadDirResult DirEntry) × (readdir id start max s ≡ some (NfsResult.ok r, s))
        × (fileids r.entries ≡ take (page_size max) (drop start is))
        × (r.end ≡ leb (length is - start) (page_size max))
  unfolding readdir
  readdir_lem id start max e is here is_dir h =
      let below =
        subst (λ x. Fits (length s.entries) (length s.cells) x) is_dir (entry_Fits s c id e here) in
      let (r, made, same, last) = list_page_lem start max is below h in
      (r, rw (readdir, here, is_dir) made, same, last)
