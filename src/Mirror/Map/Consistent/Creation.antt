-- ===== src/Mirror/Map/Consistent/Creation.antt =====
-- bin/fernfs/fs_map.rs: a new map, and `create_entry`, leave the maps in agreement.
use fernfs.Prelude.{
  Bool-cases, Option-cases, inl, inr, ℕ, ◌+◌, ◌^◌, ◌<◌, ◌≡◌, refl, none, some, [], arith, nat_eq,
  list_eq, equal_lists_iff,
}
use fernfs.Prelude.HashMap.{insert, get-insert}
use fernfs.Xdr.Nfs3.{Fattr}
use fernfs.Mirror.Attributes.{Metadata, metadata_to_fattr3}
use fernfs.Mirror.Entry.{SymPath, set_contains, set_contains-insert, FsEntry, new_entry}
use fernfs.Mirror.Map.{
  inode_beq, inode_beq_iff, inode_eq, inode_key, FsMap, modify_entry, set_fsmeta, remove_path,
  add_alias, link_path, new_path, set_path, keep_inode, create_path, create_entry, new_map,
}
use fernfs.Mirror.Map.Observe.{id_of, entry_of, inode_of, id_of_inode}
use fernfs.Prelude.HashMap.{get}
use fernfs.Io.{Bytes}
use fernfs.Mirror.Map.Consistent.{IsConsistent, path_cases}
use fernfs.Mirror.Map.Consistent.Removal.{remove_path_frame, remove_path-IsConsistent}

module _ {T : Type 0} (m : FsMap T) (c : IsConsistent m) (path : SymPath) (meta : Metadata) where
  new_path-IsConsistent :
      id_of m path ≡ none
      → id_of_inode m (inode_key meta) ≡ none
      → m.next_fileid + 1 < 2 ^ 64
      → IsConsistent (new_path path meta m).1
  unfolding new_path new_entry set_contains
  new_path-IsConsistent u v w =
      let next = m.next_fileid in
      let e = new_entry path (metadata_to_fattr3 next meta) in
      let k = inode_key meta in
      record {
        paths = λ p id. ground (
          arith,
          get-insert m.path_to_id path p next,
          get-insert m.id_to_path next id e,
          c.paths p id,
          c.fresh id,
          equal_lists_iff path p,
          equal_lists_iff p path,
        );
        inodes = λ j id. ground (
          arith,
          get-insert m.inode_to_id k j next,
          get-insert m.id_to_inode next id k,
          c.inodes j id,
          c.entries id,
          c.fresh id,
          inode_beq_iff k j,
        );
        entries = λ id. ground (
          arith,
          get-insert m.id_to_path next id e,
          get-insert m.id_to_inode next id k,
          c.entries id,
        );
        fresh = λ id h. ground (arith, get-insert m.id_to_path next id e, c.fresh id);
        named = λ id e' h.
            ground
              (arith, get-insert m.id_to_path next id e, c.named id e', equal_lists_iff path path);
      }

module _ {T : Type 0} (m : FsMap T) (c : IsConsistent m) (id : ℕ) (e : FsEntry) where
  -- An entry with other attributes, or with other children.
  pub replaced-IsConsistent :
      (e' : FsEntry)
      → entry_of m id ≡ some e
      → e'.aliases ≡ e.aliases
      → e'.name ≡ e.name
      → IsConsistent (record m { id_to_path = insert m.id_to_path id e' })
  replaced-IsConsistent e' u a n = record {
    paths = λ p j. ground (arith, get-insert m.id_to_path id j e', c.paths p j);
    inodes = c.inodes;
    entries = λ j. ground (arith, get-insert m.id_to_path id j e', c.entries j);
    fresh = λ j h. ground (arith, get-insert m.id_to_path id j e', c.fresh j);
    named = λ j e'' h. ground (arith, get-insert m.id_to_path id j e', c.named j e'', c.named id e);
  }

  -- An entry with one path more.
  linked-IsConsistent :
      (path : SymPath) (attr : Fattr)
      → entry_of m id ≡ some e
      → id_of m path ≡ none
      → IsConsistent (record m {
        id_to_path = insert m.id_to_path id (add_alias path attr e);
        path_to_id = insert m.path_to_id path id;
      })
  unfolding add_alias
  linked-IsConsistent path attr u v =
      let e' = add_alias path attr e in
      record {
        paths = λ p j. ground (
          arith,
          get-insert m.id_to_path id j e',
          get-insert m.path_to_id path p id,
          c.paths p j,
          set_contains-insert path p e.aliases,
          equal_lists_iff path p,
        );
        inodes = c.inodes;
        entries = λ j. ground (arith, get-insert m.id_to_path id j e', c.entries j);
        fresh = λ j h. ground (arith, get-insert m.id_to_path id j e', c.fresh j);
        named = λ j e'' h. ground (
          arith,
          get-insert m.id_to_path id j e',
          c.named j e'',
          c.named id e,
          set_contains-insert path e.name e.aliases,
        );
      }

module _ {T : Type 0} (m : FsMap T) (c : IsConsistent m) where
  link_path-IsConsistent :
      (path : SymPath) (meta : Metadata) (id : ℕ)
      → id_of m path ≡ none
      → id_of_inode m (inode_key meta) ≡ some id
      → IsConsistent (link_path path meta id m)
  unfolding set_path
  link_path-IsConsistent path meta id u v = elim (Option-cases (entry_of m id)) [
    | inl n ↦ absurd (ground (arith, c.inodes (inode_key meta) id, c.entries id))
    | inr (e, x) ↦
        let w : inode_of m id ≡ some (inode_key meta) = (c.inodes (inode_key meta) id).0 v in
        let f = add_alias path (metadata_to_fattr3 id meta) in
        let y : modify_entry id f m ≡ record m { id_to_path = insert m.id_to_path id (f e) } =
          unfold modify_entry in rw (modify_entry, x) refl in
        let m' = record m { id_to_path = insert m.id_to_path id (f e) } in
        let z : link_path path meta id m ≡ keep_inode id (inode_key meta) (set_path path id m') =
          unfold link_path in rw y refl in
        let kept : keep_inode id (inode_key meta) (set_path path id m') ≡ set_path path id m' =
          unfold keep_inode in rw (keep_inode, w) refl in
        rw (z, kept) (linked-IsConsistent m c id e path (metadata_to_fattr3 id meta) x u)
  ]

  pub create_path-IsConsistent :
      (path : SymPath) (meta : Metadata)
      → id_of m path ≡ none
      → m.next_fileid + 1 < 2 ^ 64
      → IsConsistent (create_path path meta m).1
  unfolding create_path
  create_path-IsConsistent path meta u w = elim (Option-cases (id_of_inode m (inode_key meta))) [
    | inl n ↦ rw (create_path, n) (new_path-IsConsistent m c path meta u n w)
    | inr (id, v) ↦ rw (create_path, v) (link_path-IsConsistent path meta id u v)
  ]

module _ {T : Type 0} (m : FsMap T) (c : IsConsistent m) where
  replace_path :
      (path : SymPath) (meta : Metadata)
      → m.next_fileid + 1 < 2 ^ 64
      → IsConsistent (create_path path meta (remove_path path m).1).1
  replace_path path meta w =
      let (q, g) = remove_path_frame m path in
      create_path-IsConsistent (remove_path path m).1 (remove_path-IsConsistent m c path) path meta
        (ground (arith, q path, equal_lists_iff path path)) (rw g w)

  -- What `create_entry` does for a path, whose inode may be new or known, and which may have stood
  -- for another inode: the maps agree afterwards, if the identifiers are not used up.
  pub create_entry-IsConsistent :
      (path : SymPath) (meta : Metadata)
      → m.next_fileid + 1 < 2 ^ 64
      → IsConsistent (create_entry path meta m).1
  unfolding create_entry modify_entry set_fsmeta
  create_entry-IsConsistent path meta w = elim (Option-cases (id_of m path)) [
    | inl n ↦ rw (create_entry, n) (create_path-IsConsistent m c path meta n w)
    | inr (id, v) ↦
        let (e, k, u, x) = path_cases m c path id v in
        elim (Bool-cases (inode_beq k (inode_key meta))) [
          | inl t ↦
              rw (create_entry, v, x, t, modify_entry, u)
                (replaced-IsConsistent m c id e (set_fsmeta (metadata_to_fattr3 id meta) e) u refl
                  refl)
          | inr f ↦ rw (create_entry, v, x, f) (replace_path path meta w)
        ]
  ]

module _ {T : Type 0} (root : Bytes) (table : T) (meta : Metadata) where
  -- A new map: the root alone.
  pub new_map-IsConsistent : IsConsistent (new_map root table meta)
  unfolding new_map new_entry get set_contains
  new_map-IsConsistent = record {
    paths = λ p id. ground (arith, equal_lists_iff [] p, equal_lists_iff p []);
    inodes = λ k id. ground (arith, inode_beq_iff (inode_key meta) k);
    entries = λ id. ground arith;
    fresh = λ id h. ground arith;
    named = λ id e h. ground (arith, equal_lists_iff [] []);
  }
