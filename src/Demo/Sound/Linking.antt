-- ===== src/Demo/Sound/Linking.antt =====
-- examples/demo_fs/fs.rs: a hard link leaves the state sound.
use fernfs.Prelude.{
  ℕ, ◌+◌, ◌≡◌, refl, Option-cases, inl, inr, List, [], ◌∷◌, arith, length, length-append,
}
use fernfs.Io.{Bytes}
use fernfs.Demo.Entry.{
  DemoEntry, DemoFs, get_at, modify_entry_at, push_entry, push_child, child_named, children_of,
}
use fernfs.Demo.Create.{add_link, link_under, link_to, link}
use fernfs.Demo.Sound.{Fits, Fits-more, IsSound, LeavesSound, push_entry-IsSound, Contents-cases}
use fernfs.Demo.Sound.Methods.{entry_Fits, kept-IsSound, push_child-IsSound}

module _ (s : DemoFs) (c : IsSound s) where
  linked-IsSound :
      (e : DemoEntry) (file_id dirid : ℕ)
      → Fits (length s.entries) (length s.cells) e.contents
      → IsSound (
          modify_entry_at file_id add_link
            (modify_entry_at dirid (push_child (length s.entries)) (push_entry e s)))
  unfolding add_link
  linked-IsSound e file_id dirid u =
      let c1 =
        push_entry-IsSound s c e (Fits-more _ _ _ _ e.contents (omega arith) (omega arith) u) in
      let more : length (push_entry e s).entries ≡ length s.entries + 1 =
        unfold push_entry in length-append s.entries (e ∷ []) in
      let c2 = push_child-IsSound _ c1 dirid (length s.entries) (rw more (omega arith)) in
      kept-IsSound _ c2 file_id add_link λ e'. refl

  link_under-LeavesSound :
      (file_id dirid : ℕ) (e : DemoEntry) (name : Bytes) (children : List ℕ)
      → Fits (length s.entries) (length s.cells) e.contents
      → LeavesSound (link_under file_id e dirid name children s)
  unfolding link_under
  link_under-LeavesSound file_id dirid e name children u =
      let new : DemoEntry = record {
        id = length s.entries;
        name = name;
        parent = dirid;
        attr = e.attr;
        contents = e.contents;
      } in
      let s' =
        modify_entry_at file_id add_link
          (modify_entry_at dirid (push_child (length s.entries)) (push_entry new s)) in
      elim (Option-cases (child_named name children s)) [
        | inr (taken, v) ↦ rw (link_under, v) c
        | inl n ↦ elim (Option-cases (get_at s'.entries (length s.entries))) [
          | inl m ↦ rw (link_under, n, m) tt
          | inr (e', v) ↦ rw (link_under, n, v) (linked-IsSound new file_id dirid u)
        ]
      ]

  link_to-LeavesSound :
      (file_id dirid : ℕ) (e : DemoEntry) (name : Bytes)
      → Fits (length s.entries) (length s.cells) e.contents
      → LeavesSound (link_to file_id e dirid name s)
  unfolding link_to
  link_to-LeavesSound file_id dirid e name u =
      elim (Option-cases (children_of (get_at s.entries dirid))) [
        | inl n ↦ rw (link_to, n) c
        | inr (is, v) ↦ rw (link_to, v) (link_under-LeavesSound file_id dirid e name is u)
      ]

  pub link-LeavesSound :
      (file_id dirid : ℕ) (name : Bytes) → LeavesSound (link file_id dirid name s)
  unfolding link
  link-LeavesSound file_id dirid name = elim (Option-cases (get_at s.entries file_id)) [
    | inl n ↦ rw (link, n) c
    | inr (e, u) ↦ elim (Contents-cases e.contents) [
      | inr (is, k) ↦ rw (link, u, k) c
      | inl (cell, k) ↦
          rw (link, u, k) (link_to-LeavesSound file_id dirid e name (entry_Fits s c file_id e u))
    ]
  ]
