-- ===== src/Mirror/Map/Consistent/Removal.antt =====
-- bin/fernfs/fs_map.rs: `remove_path` leaves the maps in agreement.
use fernfs.Prelude.{
  Bool-cases, Option-cases, inl, inr, ◌⊎◌, ℕ, ◌≡◌, refl, true, none, some, List, [], ◌∷◌, arith,
  nat_eq, list_eq, equal_lists, equal_lists_iff, if◌then◌else◌,
}
use fernfs.Prelude.HashMap.{insert, remove, get-insert, get-remove}
use fernfs.Mirror.Entry.{SymPath, set_contains, set_contains-remove, FsEntry}
use fernfs.Mirror.Map.{
  InodeKey, inode_beq_iff, inode_eq, FsMap, without_alias, forget_inode, settle, drop_alias,
  remove_path,
}
use fernfs.Mirror.Map.Observe.{id_of, entry_of, inode_of}
use fernfs.Mirror.Map.Consistent.{IsConsistent, path_cases}

name_left :
    (e : FsEntry) (path a : SymPath) (rest : List SymPath)
    → (without_alias path e).aliases ≡ a ∷ rest
    → set_contains e.name e.aliases ≡ true
    → set_contains (without_alias path e).name (without_alias path e).aliases ≡ true
unfolding without_alias set_contains
name_left e path a rest w h = elim (Bool-cases (equal_lists e.name path)) [
  | inl t ↦ rw (t, w) (ground (arith, equal_lists_iff a a))
  | inr f ↦ rw f (
      ground (
        arith,
        set_contains-remove path e.name e.aliases,
        equal_lists_iff path e.name,
        equal_lists_iff e.name path,
      ))
]

module _ {T : Type 0} (m : FsMap T) (c : IsConsistent m) (id : ℕ) (e : FsEntry) where
  -- An entry with one path less, which is not its last.
  unlinked-IsConsistent :
      (path a : SymPath) (rest : List SymPath)
      → entry_of m id ≡ some e
      → id_of m path ≡ some id
      → (without_alias path e).aliases ≡ a ∷ rest
      → IsConsistent (record m {
        path_to_id = remove m.path_to_id path;
        id_to_path = insert m.id_to_path id (without_alias path e);
      })
  unfolding without_alias
  unlinked-IsConsistent path a rest u v w =
      let e' = without_alias path e in
      record {
        paths = λ p j. ground (
          arith,
          get-insert m.id_to_path id j e',
          get-remove m.path_to_id path p,
          c.paths p j,
          set_contains-remove path p e.aliases,
          equal_lists_iff path p,
        );
        inodes = c.inodes;
        entries = λ j. ground (arith, get-insert m.id_to_path id j e', c.entries j);
        fresh = λ j h. ground (arith, get-insert m.id_to_path id j e', c.fresh j);
        named = λ j e'' h. ground (
          arith,
          get-insert m.id_to_path id j e',
          c.named j e'',
          name_left e path a rest w (c.named id e u),
        );
      }

  -- No entry and no inode where the last path is gone.
  removed-IsConsistent :
      (path : SymPath) (k : InodeKey)
      → entry_of m id ≡ some e
      → id_of m path ≡ some id
      → inode_of m id ≡ some k
      → (without_alias path e).aliases ≡ []
      → IsConsistent (record m {
        path_to_id = remove m.path_to_id path;
        id_to_path = remove m.id_to_path id;
        id_to_inode = remove m.id_to_inode id;
        inode_to_id = remove m.inode_to_id k;
      })
  unfolding without_alias set_contains
  removed-IsConsistent path k u v w x = record {
    paths = λ p j. ground (
      arith,
      get-remove m.id_to_path id j,
      get-remove m.path_to_id path p,
      c.paths p j,
      set_contains-remove path p e.aliases,
      equal_lists_iff path p,
    );
    inodes = λ i j. ground (
      arith,
      get-remove m.id_to_inode id j,
      get-remove m.inode_to_id k i,
      c.inodes i j,
      c.inodes k j,
      c.inodes i id,
      inode_beq_iff k i,
    );
    entries = λ j.
        ground (arith, get-remove m.id_to_path id j, get-remove m.id_to_inode id j, c.entries j);
    fresh = λ j h. ground (arith, get-remove m.id_to_path id j, c.fresh j);
    named = λ j e'' h. ground (arith, get-remove m.id_to_path id j, c.named j e'');
  }

List-cases : {A : Type 0} (l : List A) → (l ≡ []) ⊎ ((a : A) × (rest : List A) × (l ≡ a ∷ rest))
List-cases [] = inl refl
List-cases (a ∷ rest) = inr (a, rest, refl)

module _ {T : Type 0} (m : FsMap T) where
  settle_frame :
      (id : ℕ) (e : FsEntry)
      → ((settle id e m).path_to_id ≡ m.path_to_id) × ((settle id e m).next_fileid ≡ m.next_fileid)
  unfolding settle forget_inode
  settle_frame id e = (ground arith, ground arith)

  drop_alias_frame :
      (path : SymPath) (id : ℕ)
      → ((drop_alias path id m).path_to_id ≡ m.path_to_id)
        × ((drop_alias path id m).next_fileid ≡ m.next_fileid)
  unfolding drop_alias
  drop_alias_frame path id = elim (Option-cases (entry_of m id)) [
    | inl n ↦ rw (drop_alias, n) (refl, refl)
    | inr (e, u) ↦ rw (drop_alias, u) (settle_frame id (without_alias path e))
  ]

module _ {T : Type 0} (m : FsMap T) (path : SymPath) where
  -- A removal takes no other path's identifier, and uses up none.
  pub remove_path_frame :
      ((q : SymPath)
        → id_of (remove_path path m).1 q ≡ (if equal_lists path q then none else id_of m q))
      × ((remove_path path m).1.next_fileid ≡ m.next_fileid)
  unfolding remove_path
  remove_path_frame = elim (Option-cases (id_of m path)) [
    | inl n ↦ rw (remove_path, n) (λ q. ground (arith, equal_lists_iff path q), refl)
    | inr (id, v) ↦
        let m' = record m { path_to_id = remove m.path_to_id path } in
        let (f, g) = drop_alias_frame m' path id in
        rw (remove_path, v) (λ q. rw f (get-remove m.path_to_id path q), g)
  ]

module _ {T : Type 0} (m : FsMap T) (c : IsConsistent m) where
  drop_alias-IsConsistent :
      (path : SymPath) (id : ℕ) (e : FsEntry) (k : InodeKey)
      → entry_of m id ≡ some e
      → id_of m path ≡ some id
      → inode_of m id ≡ some k
      → IsConsistent (drop_alias path id (record m { path_to_id = remove m.path_to_id path }))
  unfolding drop_alias settle forget_inode
  drop_alias-IsConsistent path id e k u v w = elim (List-cases (without_alias path e).aliases) [
    | inl x ↦
        rw (drop_alias, u, settle, x, forget_inode, w)
          (removed-IsConsistent m c id e path k u v w x)
    | inr (a, rest, x) ↦
        rw (drop_alias, u, settle, x) (unlinked-IsConsistent m c id e path a rest u v x)
  ]

  pub remove_path-IsConsistent : (path : SymPath) → IsConsistent (remove_path path m).1
  unfolding remove_path
  remove_path-IsConsistent path = elim (Option-cases (id_of m path)) [
    | inl n ↦ rw (remove_path, n) c
    | inr (id, v) ↦
        let (e, k, u, w) = path_cases m c path id v in
        rw (remove_path, v) (drop_alias-IsConsistent path id e k u v w)
  ]
