-- ===== src/Demo/Sound/Methods.antt =====
-- examples/demo_fs/fs.rs: the methods that change the state leave it sound.
use fernfs.Prelude.{
  ℕ, zero, suc, ◌<◌, ◌≡◌, refl, sym, Option-cases, inl, inr, Option, none, some, List, [], ◌∷◌,
  ◌++◌, arith, nat_eq, list_eq, length, length-append,
}
use mathlib.Core.Path.{subst}
use fernfs.Io.{Bytes}
use fernfs.Xdr.Nfs3.{NfsTime, Sattr}
use fernfs.Demo.Entry.{
  Contents, DemoEntry, DemoFs, get_at, modify_at, modify_entry_at, push_cell, push_child,
  drop_child,
}
use fernfs.Demo.Look.{getattr}
use fernfs.Demo.Change.{
  write_bytes, write_cell, write_answer, write, resize, with_sattr, resize_contents, setattr, erase,
  set_mtime, commit,
}
use fernfs.Demo.Sound.{
  Fits, IsSound, LeavesSound, All-get_at, push_cell-IsSound, modify_entry_at-IsSound, cells-IsSound,
  Contents-cases, share_size-IsSound, push_child-Fits, drop_child-Fits,
}

-- A state, unless it is a panic.
abbrev pub SoundState : Option DemoFs → Type 0
SoundState none = Unit {0}
SoundState (some s) = IsSound s

pub get_at_below : {A : Type 0} (xs : List A) (n : ℕ) (x : A) → get_at xs n ≡ some x → n < length xs
unfolding get_at
get_at_below [] n x h = absurd (ground (arith, h))
get_at_below (y ∷ xs) zero x h = omega arith
get_at_below (y ∷ xs) (suc n) x h = let below = get_at_below xs n x h in omega arith

module _ (s : DemoFs) (c : IsSound s) where
  pub entry_Fits :
      (id : ℕ) (e : DemoEntry)
      → get_at s.entries id ≡ some e
      → Fits (length s.entries) (length s.cells) e.contents
  entry_Fits id e h =
      All-get_at (λ x. Fits (length s.entries) (length s.cells) x.contents) id s.entries e c.all_fit
        h

  write_answer-LeavesSound : (id : ℕ) (payload : Bytes) → LeavesSound (write_answer id payload s)
  unfolding write_answer getattr
  write_answer-LeavesSound id payload = elim (Option-cases (get_at s.entries id)) [
    | inl n ↦ rw (write_answer, getattr, n) c
    | inr (e, u) ↦ rw (write_answer, getattr, u) c
  ]

  write_cell-SoundState :
      (cell offset : ℕ) (payload : Bytes) → SoundState (write_cell cell offset payload s)
  unfolding write_cell
  write_cell-SoundState cell offset payload = elim (Option-cases (get_at s.cells cell)) [
    | inl n ↦ rw (write_cell, n) tt
    | inr (bytes, u) ↦ elim (Option-cases (write_bytes offset payload bytes)) [
      | inl n ↦ rw (write_cell, u, n) tt
      | inr (w, v) ↦
          rw (write_cell, u, v)
            (share_size-IsSound cell (length w)
              (record s { cells = modify_at cell (λ x. w) s.cells }) (cells-IsSound s c cell w))
    ]
  ]

  resize_contents-SoundState :
      (size : Option ℕ) (x : Contents) → SoundState (resize_contents size x s)
  unfolding resize_contents
  resize_contents-SoundState none x = c
  resize_contents-SoundState (some size) (Contents.directory is) = c
  resize_contents-SoundState (some size) (Contents.file cell) =
      elim (Option-cases (get_at s.cells cell)) [
        | inl n ↦ rw (resize_contents, n) tt
        | inr (bytes, u) ↦ elim (Option-cases (resize size bytes)) [
          | inl n ↦ rw (resize_contents, u, n) tt
          | inr (w, v) ↦ rw (resize_contents, u, v) (cells-IsSound s c cell w)
        ]
      ]

  -- A change of an entry that leaves its contents.
  pub kept-IsSound :
      (id : ℕ) (f : DemoEntry → DemoEntry)
      → ((e : DemoEntry) → (f e).contents ≡ e.contents)
      → IsSound (modify_entry_at id f s)
  kept-IsSound id f k =
      modify_entry_at-IsSound s c id f
        λ e u. subst (λ x. Fits (length s.entries) (length s.cells) x) (sym (k e)) u

module _ (s : DemoFs) (c : IsSound s) where
  pub write-LeavesSound :
      (id offset : ℕ) (payload : Bytes) → LeavesSound (write id offset payload s)
  unfolding write
  write-LeavesSound id offset payload = elim (Option-cases (get_at s.entries id)) [
    | inl n ↦ rw (write, n) c
    | inr (e, u) ↦ elim (Contents-cases e.contents) [
      | inr (is, k) ↦ rw (write, u, k) c
      | inl (cell, k) ↦
          let left = write_cell-SoundState s c cell offset payload in
          elim (Option-cases (write_cell cell offset payload s)) [
            | inl n ↦ rw (write, u, k, n) tt
            | inr (s', v) ↦
                rw (write, u, k, v) (write_answer-LeavesSound s' (rw v at left) id payload)
          ]
    ]
  ]

  pub setattr-LeavesSound :
      (now : NfsTime) (id : ℕ) (set : Sattr) → LeavesSound (setattr now id set s)
  unfolding setattr with_sattr
  setattr-LeavesSound now id set = elim (Option-cases (get_at s.entries id)) [
    | inl n ↦ rw (setattr, n) c
    | inr (e, u) ↦
        let left = resize_contents-SoundState s c set.size e.contents in
        elim (Option-cases (resize_contents set.size e.contents s)) [
          | inl n ↦ rw (setattr, u, n) tt
          | inr (s', v) ↦
              rw (setattr, u, v) (kept-IsSound s' (rw v at left) id (with_sattr set now) λ e'. refl)
        ]
  ]

  pub commit-LeavesSound :
      (now : NfsTime) (id offset count : ℕ) → LeavesSound (commit now id offset count s)
  unfolding commit set_mtime
  commit-LeavesSound now id offset count = elim (Option-cases (get_at s.entries id)) [
    | inl n ↦ rw (commit, n) c
    | inr (e, u) ↦ rw (commit, u) (kept-IsSound s c id (set_mtime now) λ e'. refl)
  ]

  pub drop_child-IsSound : (dirid id : ℕ) → IsSound (modify_entry_at dirid (drop_child id) s)
  drop_child-IsSound dirid id =
      modify_entry_at-IsSound s c dirid (drop_child id) λ e u. drop_child-Fits _ _ id e u

  pub push_child-IsSound :
      (dirid id : ℕ) → id < length s.entries → IsSound (modify_entry_at dirid (push_child id) s)
  push_child-IsSound dirid id h =
      modify_entry_at-IsSound s c dirid (push_child id) λ e u. push_child-Fits _ _ id e h u

  pub erase-IsSound : (id : ℕ) → IsSound (erase id s)
  unfolding erase push_cell
  erase-IsSound id =
      let more : length s.cells < length (s.cells ++ ([] ∷ [])) =
        rw (length-append s.cells ([] ∷ [])) (omega arith) in
      modify_entry_at-IsSound (push_cell [] s) (push_cell-IsSound s c []) id _ λ e u. more
