-- ===== src/Tests/Mirror/Removing.antt =====
-- The root lists the directory d, the symbol 0, which lists the file e, the symbol 1; the root is removed.
use fernfs.Prelude.{
  ℕ, ◌≡◌, refl, sym, true, false, Bool-cases, inl, inr, none, some, List, [], ◌∷◌, arith, list_eq,
  nat_eq, equal_lists, equal_lists_iff, All,
}
use mathlib.Core.Path.{subst}
use fernfs.Prelude.HashMap.{get, insert, remove}
use fernfs.Io.{Bytes}
use fernfs.Mirror.Attributes.{FileKind, Metadata, metadata_to_fattr3, attributes}
use fernfs.Mirror.Entry.{SymPath, FsEntry, new_entry, is_directory}
use fernfs.Mirror.Map.{FsMap, inode_beq, inode_eq, new_map, create_entry, create_path, new_path}
use fernfs.Mirror.Map.Observe.{id_of, entry_of}
use fernfs.Mirror.Map.Consistent.{IsConsistent}
use fernfs.Mirror.Map.Consistent.Creation.{create_entry-IsConsistent, replaced-IsConsistent}
use fernfs.Mirror.Refresh.{set_children}
use fernfs.Mirror.Tree.{starts_with, listed_children, delete_entry}
use fernfs.Mirror.Tree.Removal.{IsShallow, InTree, delete_entry-Removes}
use fernfs.Mirror.Tree.Removal.Part.{AllKnown, ListsItsPaths}
use fernfs.Tests.Mirror.{root_map, root_agrees, root_entry, metadata}

abbrev dir_metadata : Metadata
dir_metadata = metadata FileKind.dir 4096 5

abbrev leaf_metadata : Metadata
leaf_metadata = metadata FileKind.file 3 7

abbrev created : FsMap (List Bytes)
created =
    (create_entry (0 ∷ 1 ∷ []) leaf_metadata (create_entry (0 ∷ []) dir_metadata root_map).1).1

abbrev root_listing : FsEntry
root_listing = set_children ((0, 1) ∷ []) root_entry

abbrev dir_listing : FsEntry
dir_listing = set_children ((1, 2) ∷ []) (new_entry (0 ∷ []) (metadata_to_fattr3 1 dir_metadata))

abbrev leaf : FsEntry
leaf = new_entry (0 ∷ 1 ∷ []) (metadata_to_fattr3 2 leaf_metadata)

abbrev with_root : FsMap (List Bytes)
with_root = record created { id_to_path = insert created.id_to_path 0 root_listing }

abbrev nested : FsMap (List Bytes)
nested = record with_root { id_to_path = insert with_root.id_to_path 1 dir_listing }

nested_agrees : IsConsistent nested
unfolding new_map create_entry create_path new_path get insert remove equal_lists inode_beq
    new_entry set_children
nested_agrees =
    let first =
      create_entry-IsConsistent root_map root_agrees (0 ∷ []) dir_metadata (omega arith) in
    let second =
      create_entry-IsConsistent (create_entry (0 ∷ []) dir_metadata root_map).1 first (0 ∷ 1 ∷ [])
        leaf_metadata (omega arith) in
    replaced-IsConsistent with_root
      (replaced-IsConsistent created second 0 root_entry root_listing refl refl refl) 1
      (new_entry (0 ∷ []) (metadata_to_fattr3 1 dir_metadata)) dir_listing refl refl refl

nested-IsShallow : IsShallow 2 nested 0
unfolding new_map create_entry create_path new_path get insert remove equal_lists inode_beq
    new_entry set_children listed_children is_directory metadata_to_fattr3 attributes
nested-IsShallow e h =
    let root : root_listing ≡ e = cc h in
    subst (λ x. All (λ c. IsShallow 1 nested c.1) (listed_children x)) root
      (
        λ e1 h1.
            let dir : dir_listing ≡ e1 = cc h1 in
            subst (λ x. All (λ c. IsShallow 0 nested c.1) (listed_children x)) dir
              (
                λ e2 h2.
                    let file : leaf ≡ e2 = cc h2 in subst (λ x. is_directory x ≡ false) file refl,
                tt,
              ),
        tt,
      )

known_at :
    (q0 q : SymPath) (n id : ℕ) (e0 e : FsEntry)
    → entry_of nested n ≡ some e0
    → AllKnown nested q0 (listed_children e0)
    → equal_lists q0 q ≡ true
    → some n ≡ some id
    → entry_of nested id ≡ some e
    → AllKnown nested q (listed_children e)
known_at q0 q n id e0 e there known t u v =
    let same : q0 ≡ q = (equal_lists_iff q0 q).0 t in
    let here : n ≡ id = cc u in
    let back : entry_of nested n ≡ some e = subst (λ j. entry_of nested j ≡ some e) (sym here) v in
    let entry : e0 ≡ e = cc (there, back) in
    subst (λ r. AllKnown nested r (listed_children e)) same
      (subst (λ x. AllKnown nested q0 (listed_children x)) entry known)

nested_known : ListsItsPaths nested
unfolding new_map create_entry create_path new_path get insert remove equal_lists inode_beq
    new_entry set_children listed_children is_directory metadata_to_fattr3 attributes
nested_known = record {
  known = λ q id e u v. elim (Bool-cases (equal_lists (0 ∷ 1 ∷ []) q)) [
    | inl t ↦ known_at (0 ∷ 1 ∷ []) q 2 id leaf e refl tt t (rw t at u) v
    | inr f ↦ elim (Bool-cases (equal_lists (0 ∷ []) q)) [
      | inl t ↦ known_at (0 ∷ []) q 1 id dir_listing e refl (refl, tt) t (rw (f, t) at u) v
      | inr g ↦ elim (Bool-cases (equal_lists [] q)) [
        | inl t ↦ known_at [] q 0 id root_listing e refl (refl, tt) t (rw (f, g, t) at u) v
        | inr h ↦ absurd (cc (rw (f, g, h) at u))
      ]
    ]
  ];
}

delete_entry-Removes_example :
    (m' : FsMap (List Bytes)) × (delete_entry 2 0 nested ≡ some m')
    × IsConsistent m'
    × ((q : SymPath) → InTree nested [] q → id_of m' q ≡ none)
    × ((q : SymPath) → starts_with q [] ≡ false → id_of m' q ≡ id_of nested q)
unfolding new_map create_entry create_path new_path get insert remove equal_lists inode_beq
    new_entry set_children
delete_entry-Removes_example =
    delete_entry-Removes 1 0 nested root_listing nested_agrees nested_known refl nested-IsShallow
