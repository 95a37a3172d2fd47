-- ===== src/Demo/Sound/Creation.antt =====
-- examples/demo_fs/fs.rs: the creation of entries leaves the state sound; and a sound state is listed
-- and read without a panic.
use fernfs.Prelude.{
  ℕ, ◌+◌, ◌<◌, ◌≡◌, refl, sym, Bool-cases, Option-cases, inl, inr, Option, none, some, List, [],
  ◌∷◌, ◌++◌, arith, nat_eq, list_eq, length, length-append,
}
use mathlib.Core.Path.{subst}
use fernfs.Io.{Bytes}
use fernfs.Xdr.Nfs3.{
  NfsTime, Sattr, Ftype, nf3reg, nf3dir, nf3blk, nf3chr, nf3lnk, nf3sock, nf3fifo, SpecData,
}
use fernfs.Demo.Entry.{
  DemoEntry, DemoFs, get_at, push_entry, push_cell, child_named, children_of, make_file, make_dir,
  is_utf8,
}
use fernfs.Demo.Change.{set_mtime}
use fernfs.Demo.Create.{
  push_file, created_as, create, join, mkdir_under, mkdir, set_ftype, set_rdev, symlink, with_attrs,
  push_special, mknod_under, mknod,
}
use fernfs.Demo.Sound.{Fits, IsSound, LeavesSound, push_entry-IsSound, push_cell-IsSound}
use fernfs.Demo.Sound.Methods.{kept-IsSound, push_child-IsSound}

-- The state with the new entry, which has the next number.
abbrev Grown : ℕ → Option DemoFs → Type 0
Grown n none = Unit {0}
Grown n (some s) = IsSound s × (n < length s.entries)

module _ (s : DemoFs) (c : IsSound s) where
  created_as-LeavesSound : (id : ℕ) → LeavesSound (created_as id s)
  unfolding created_as
  created_as-LeavesSound id = elim (Option-cases (get_at s.entries id)) [
    | inl n ↦ rw (created_as, n) tt
    | inr (e, u) ↦ rw (created_as, u) c
  ]

  push_file-IsSound :
      (name : Bytes) (parent : ℕ) (bytes : Bytes) (change : DemoEntry → DemoEntry)
      → ((e : DemoEntry) → (change e).contents ≡ e.contents)
      → IsSound (push_file name parent bytes change s)
  unfolding push_file push_cell make_file
  push_file-IsSound name parent bytes change k =
      let s1 = push_cell bytes s in
      let more : length s.cells < length (s.cells ++ (bytes ∷ [])) =
        rw (length-append s.cells (bytes ∷ [])) (omega arith) in
      push_entry-IsSound s1 (push_cell-IsSound s c bytes) _
        (subst (λ x. Fits (length s1.entries + 1) (length s1.cells) x) (sym (k _)) more)

  length-push_file :
      (name : Bytes) (parent : ℕ) (bytes : Bytes) (change : DemoEntry → DemoEntry)
      → length (push_file name parent bytes change s).entries ≡ length s.entries + 1
  unfolding push_file push_cell push_entry
  length-push_file name parent bytes change = length-append s.entries (_ ∷ [])

module _ (s : DemoFs) (c : IsSound s) where
  join-LeavesSound :
      (now : NfsTime) (dirid id : ℕ) → id < length s.entries → LeavesSound (join now dirid id s)
  unfolding join set_mtime
  join-LeavesSound now dirid id h =
      let c1 = push_child-IsSound s c dirid id h in
      created_as-LeavesSound _ (kept-IsSound _ c1 dirid _ λ e. refl) id

module _ (s : DemoFs) (c : IsSound s) where
  pub create-LeavesSound :
      (dirid : ℕ) (name : Bytes) (attrs : Sattr) → LeavesSound (create dirid name attrs s)
  unfolding create
  create-LeavesSound dirid name attrs =
      let s1 = push_file name dirid [] (λ e. e) s in
      let c1 = push_file-IsSound s c name dirid [] (λ e. e) (λ e. refl) in
      let new : length s.entries < length s1.entries =
        rw (length-push_file s c name dirid [] (λ e. e)) (omega arith) in
      elim (Bool-cases (is_utf8 [] name)) [
        | inr f ↦ rw f tt
        | inl t ↦ elim (Option-cases (get_at s1.entries dirid)) [
          | inl n ↦ rw (t, n) tt
          | inr (d, u) ↦
              rw (t, u)
                (created_as-LeavesSound _ (push_child-IsSound s1 c1 dirid (length s.entries) new) _)
        ]
      ]

  push_dir-IsSound :
      (name : Bytes) (dirid : ℕ) (change : DemoEntry → DemoEntry)
      → ((e : DemoEntry) → (change e).contents ≡ e.contents)
      → IsSound (push_entry (change (make_dir name (length s.entries) dirid [])) s)
  unfolding make_dir
  push_dir-IsSound name dirid change k =
      push_entry-IsSound s c _
        (subst (λ x. Fits (length s.entries + 1) (length s.cells) x) (sym (k _)) tt)

  length-push_entry : (e : DemoEntry) → length (push_entry e s).entries ≡ length s.entries + 1
  unfolding push_entry
  length-push_entry e = length-append s.entries (e ∷ [])

module _ (s : DemoFs) (c : IsSound s) where
  join_dir :
      (now : NfsTime) (name : Bytes) (dirid : ℕ)
      → LeavesSound (
          join now dirid
            (length s.entries)
            (push_entry (make_dir name (length s.entries) dirid []) s))
  join_dir now name dirid =
      join-LeavesSound _ (push_dir-IsSound s c name dirid (λ e. e) (λ e. refl)) now dirid _
        (rw (length-push_entry s c (make_dir name (length s.entries) dirid [])) (omega arith))

  pub mkdir-LeavesSound :
      (now : NfsTime) (dirid : ℕ) (name : Bytes) → LeavesSound (mkdir now dirid name s)
  unfolding mkdir mkdir_under
  mkdir-LeavesSound now dirid name = elim (Option-cases (children_of (get_at s.entries dirid))) [
    | inl n ↦ rw (mkdir, n) c
    | inr (is, u) ↦ elim (Option-cases (child_named name is s)) [
      | inr (taken, v) ↦ rw (mkdir, u, mkdir_under, v) c
      | inl n ↦ elim (Bool-cases (is_utf8 [] name)) [
        | inl t ↦ rw (mkdir, u, mkdir_under, n, t) (join_dir now name dirid)
        | inr f ↦ rw (mkdir, u, mkdir_under, n, f) tt
      ]
    ]
  ]

  join_file :
      (now : NfsTime) (name : Bytes) (dirid : ℕ) (bytes : Bytes) (change : DemoEntry → DemoEntry)
      → ((e : DemoEntry) → (change e).contents ≡ e.contents)
      → LeavesSound (join now dirid (length s.entries) (push_file name dirid bytes change s))
  join_file now name dirid bytes change k =
      join-LeavesSound _ (push_file-IsSound s c name dirid bytes change k) now dirid _
        (rw (length-push_file s c name dirid bytes change) (omega arith))

  pub symlink-LeavesSound :
      (now : NfsTime) (dirid : ℕ) (name target : Bytes) (attrs : Sattr)
      → LeavesSound (symlink now dirid name target attrs s)
  unfolding symlink set_ftype
  symlink-LeavesSound now dirid name target attrs =
      elim (Option-cases (children_of (get_at s.entries dirid))) [
        | inl n ↦ rw (symlink, n) c
        | inr (is, u) ↦ elim (Bool-cases (is_utf8 [] name)) [
          | inl t ↦
              rw (symlink, u, t) (join_file now name dirid target (set_ftype nf3lnk) (λ e. refl))
          | inr f ↦ rw (symlink, u, f) tt
        ]
      ]

  push_file-Grown :
      (name : Bytes) (dirid : ℕ) (change : DemoEntry → DemoEntry)
      → ((e : DemoEntry) → (change e).contents ≡ e.contents)
      → Grown (length s.entries) (some (push_file name dirid [] change s))
  push_file-Grown name dirid change k = (
    push_file-IsSound s c name dirid [] change k,
    rw (length-push_file s c name dirid [] change) (omega arith),
  )

  push_special-Grown :
      (ftype : Ftype) (name : Bytes) (dirid : ℕ) (spec : SpecData) (set : Sattr)
      → Grown (length s.entries) (push_special ftype name dirid spec (with_attrs set) s)
  unfolding push_special with_attrs set_rdev set_ftype
  push_special-Grown nf3reg name dirid spec set = push_file-Grown name dirid _ λ e. refl
  push_special-Grown nf3dir name dirid spec set = (
    push_dir-IsSound s c name dirid (with_attrs set) (λ e. refl),
    rw (length-push_entry s c (with_attrs set (make_dir name (length s.entries) dirid [])))
        (omega arith),
  )
  push_special-Grown nf3blk name dirid spec set = push_file-Grown name dirid _ λ e. refl
  push_special-Grown nf3chr name dirid spec set = push_file-Grown name dirid _ λ e. refl
  push_special-Grown nf3fifo name dirid spec set = push_file-Grown name dirid _ λ e. refl
  push_special-Grown nf3sock name dirid spec set = push_file-Grown name dirid _ λ e. refl
  push_special-Grown nf3lnk name dirid spec set = tt

  mknod_under-LeavesSound :
      (now : NfsTime) (dirid : ℕ) (name : Bytes) (ftype : Ftype) (spec : SpecData) (set : Sattr)
      (children : List ℕ)
      → LeavesSound (mknod_under now dirid name ftype spec set children s)
  unfolding mknod_under
  mknod_under-LeavesSound now dirid name ftype spec set children =
      let left = push_special-Grown ftype name dirid spec set in
      elim (Option-cases (child_named name children s)) [
        | inr (taken, v) ↦ rw (mknod_under, v) c
        | inl n ↦ elim (Option-cases (push_special ftype name dirid spec (with_attrs set) s)) [
          | inl m ↦ rw (mknod_under, n, m) c
          | inr (s', u) ↦
              let (sound, new) : IsSound s' × (length s.entries < length s'.entries) =
                rw u at left in
              elim (Bool-cases (is_utf8 [] name)) [
                | inl t ↦ rw (mknod_under, n, u, t) (join-LeavesSound s' sound now dirid _ new)
                | inr f ↦ rw (mknod_under, n, u, f) tt
              ]
        ]
      ]

  pub mknod-LeavesSound :
      (now : NfsTime) (dirid : ℕ) (name : Bytes) (ftype : Ftype) (spec : SpecData) (set : Sattr)
      → LeavesSound (mknod now dirid name ftype spec set s)
  unfolding mknod
  mknod-LeavesSound now dirid name ftype spec set =
      elim (Option-cases (children_of (get_at s.entries dirid))) [
        | inl n ↦ rw (mknod, n) c
        | inr (is, u) ↦ rw (mknod, u) (mknod_under-LeavesSound now dirid name ftype spec set is)
      ]
