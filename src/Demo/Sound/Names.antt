-- ===== src/Demo/Sound/Names.antt =====
-- examples/demo_fs/fs.rs: removals and renames leave the state sound.
use fernfs.Prelude.{
  ℕ, ◌<◌, ◌≡◌, refl, Bool-cases, Option-cases, inl, inr, Option, none, some, List, [], ◌∷◌, arith,
  ◌==◌, nat_eq, list_eq, equal_lists, length,
}
use mathlib.Core.Path.{subst}
use fernfs.Io.{Bytes}
use fernfs.Demo.Entry.{
  Contents, DemoFs, get_at, modify_entry_at, push_child, drop_child, child_named, children_of,
}
use fernfs.Demo.Change.{
  remove_child, remove, move_between, make_room, rename_child, rename_to, rename_from, rename,
}
use fernfs.Demo.Sound.{IsSound, LeavesSound, Contents-cases, length-modify_at}
use fernfs.Demo.Sound.Methods.{
  get_at_below, kept-IsSound, drop_child-IsSound, push_child-IsSound, erase-IsSound,
}

-- A child that is found is there.
pub child_named_known :
    (name : Bytes) (is : List ℕ) (s : DemoFs) (id : ℕ)
    → child_named name is s ≡ some id
    → id < length s.entries
unfolding child_named
child_named_known name [] s id h = absurd (ground (arith, h))
child_named_known name (i ∷ is) s id h = elim (Option-cases (get_at s.entries i)) [
  | inl n ↦ child_named_known name is s id (rw (child_named, n) at h)
  | inr (e, u) ↦ elim (Bool-cases (equal_lists e.name name)) [
    | inl t ↦
        let same : i ≡ id = ground (arith, rw (child_named, u, t) at h) in
        subst (λ j. j < length s.entries) same (get_at_below s.entries i e u)
    | inr f ↦ child_named_known name is s id (rw (child_named, u, f) at h)
  ]
]

module _ (s : DemoFs) (c : IsSound s) where
  remove_child-LeavesSound : (dirid id : ℕ) → LeavesSound (remove_child dirid id s)
  unfolding remove_child
  remove_child-LeavesSound dirid id = elim (Option-cases (get_at s.entries id)) [
    | inl n ↦ rw (remove_child, n) tt
    | inr (e, u) ↦ elim (Contents-cases e.contents) [
      | inl (cell, k) ↦
          rw (remove_child, u, k)
            (erase-IsSound (modify_entry_at dirid (drop_child id) s)
              (drop_child-IsSound s c dirid id) id)
      | inr (is, k) ↦ rw (remove_child, u, k) c
    ]
  ]

  pub remove-LeavesSound : (dirid : ℕ) (name : Bytes) → LeavesSound (remove dirid name s)
  unfolding remove
  remove-LeavesSound dirid name = elim (Option-cases (get_at s.entries dirid)) [
    | inl n ↦ rw (remove, n) c
    | inr (d, u) ↦ elim (Contents-cases d.contents) [
      | inl (cell, k) ↦ rw (remove, u, k) c
      | inr (is, k) ↦ elim (Option-cases (child_named name is s)) [
        | inl n ↦ rw (remove, u, k, n) c
        | inr (id, v) ↦ rw (remove, u, k, v) (remove_child-LeavesSound dirid id)
      ]
    ]
  ]

  make_room-IsSound : (dirid : ℕ) (o : Option ℕ) → IsSound (make_room dirid o s)
  unfolding make_room
  make_room-IsSound dirid none = c
  make_room-IsSound dirid (some id) = drop_child-IsSound s c dirid id

  length-make_room :
      (dirid : ℕ) (o : Option ℕ) → length (make_room dirid o s).entries ≡ length s.entries
  unfolding make_room modify_entry_at
  length-make_room dirid none = refl
  length-make_room dirid (some id) = length-modify_at dirid (drop_child id) s.entries

  move_between-IsSound :
      (from to id : ℕ) → id < length s.entries → IsSound (move_between from to id s)
  unfolding move_between
  move_between-IsSound from to id h = elim (Bool-cases (from == to)) [
    | inl t ↦ rw t c
    | inr f ↦
        let s1 = modify_entry_at from (drop_child id) s in
        let long : length s1.entries ≡ length s.entries =
          unfold modify_entry_at in length-modify_at from (drop_child id) s.entries in
        let c1 = drop_child-IsSound s c from id in
        rw f (
          kept-IsSound (modify_entry_at to (push_child id) s1)
            (push_child-IsSound s1 c1 to id (rw long h)) id _ λ e. refl)
  ]

module _ (s : DemoFs) (c : IsSound s) where
  rename_child-LeavesSound :
      (from to id : ℕ) (name : Bytes) (o : Option ℕ)
      → id < length s.entries
      → LeavesSound (rename_child from to id name o s)
  unfolding rename_child
  rename_child-LeavesSound from to id name o h =
      let s1 = make_room to o s in
      let c1 = make_room-IsSound s c to o in
      let s2 = move_between from to id s1 in
      let c2 = move_between-IsSound s1 c1 from to id (rw (length-make_room s c to o) h) in
      elim (Option-cases (get_at s2.entries id)) [
        | inl n ↦ rw (rename_child, n) tt
        | inr (e, u) ↦ rw (rename_child, u) (kept-IsSound s2 c2 id _ λ e'. refl)
      ]

  rename_to-LeavesSound :
      (from to id : ℕ) (name : Bytes)
      → id < length s.entries
      → LeavesSound (rename_to from to id name s)
  unfolding rename_to
  rename_to-LeavesSound from to id name h =
      elim (Option-cases (children_of (get_at s.entries to))) [
        | inl n ↦ rw (rename_to, n) c
        | inr (is, u) ↦ rw (rename_to, u) (rename_child-LeavesSound from to id name _ h)
      ]

  rename_from-LeavesSound :
      (from : ℕ) (from_name : Bytes) (to : ℕ) (to_name : Bytes) (x : Contents)
      → LeavesSound (rename_from from from_name to to_name x s)
  unfolding rename_from
  rename_from-LeavesSound from from_name to to_name (Contents.file cell) = c
  rename_from-LeavesSound from from_name to to_name (Contents.directory is) =
      elim (Option-cases (child_named from_name is s)) [
        | inl n ↦ rw (rename_from, n) c
        | inr (id, u) ↦
            rw (rename_from, u)
              (rename_to-LeavesSound from to id to_name (child_named_known from_name is s id u))
      ]

  pub rename-LeavesSound :
      (from : ℕ) (from_name : Bytes) (to : ℕ) (to_name : Bytes)
      → LeavesSound (rename from from_name to to_name s)
  unfolding rename
  rename-LeavesSound from from_name to to_name = elim (Option-cases (get_at s.entries from)) [
    | inl n ↦ rw (rename, n) tt
    | inr (d, u) ↦ rw (rename, u) (rename_from-LeavesSound from from_name to to_name d.contents)
  ]
