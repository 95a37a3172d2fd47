-- ===== src/Mirror/Map/Names.antt =====
-- bin/fernfs/fs_map.rs: the map seen as what it is for, which inode each path names.
use fernfs.Prelude.{
  ℕ, ◌≡◌, refl, sym, ap, ◌∙◌, inl, inr, Option, none, some, arith, Bool-cases, Option-cases, nat_eq,
  list_eq, equal_lists, equal_lists_iff, if◌then◌else◌,
}
use fernfs.Prelude.HashMap.{insert, remove, get-insert, get-remove}
use fernfs.Mirror.Attributes.{Metadata, metadata_to_fattr3}
use fernfs.Mirror.Entry.{SymPath, FsEntry}
use fernfs.Mirror.Map.{
  InodeKey, inode_beq, inode_beq_iff, inode_key, FsMap, modify_entry, without_alias, forget_inode,
  settle, drop_alias, remove_path, add_alias, link_path, set_path, keep_inode, new_path,
  create_path, create_entry,
}
use fernfs.Mirror.Map.Observe.{id_of, entry_of, inode_of, id_of_inode}
use fernfs.Mirror.Map.Consistent.{IsConsistent, path_cases}
use fernfs.Mirror.Map.Consistent.Removal.{remove_path_frame, remove_path-IsConsistent}

-- The abstract view: the inode that a path names.
unfoldable pub names : {T : Type 0} → FsMap T → SymPath → Option InodeKey
names m p = elim (id_of m p) [ none ↦ none | some id ↦ inode_of m id ]

module _ {T : Type 0} (m : FsMap T) where
  forget_inode_shrinks :
      (id j : ℕ) (k : InodeKey) → inode_of (forget_inode id m) j ≡ some k → inode_of m j ≡ some k
  unfolding forget_inode
  forget_inode_shrinks id j k h = ground (arith, get-remove m.id_to_inode id j)

module _ {T : Type 0} (m : FsMap T) where
  settle_shrinks :
      (id j : ℕ) (e : FsEntry) (k : InodeKey)
      → inode_of (settle id e m) j ≡ some k
      → inode_of m j ≡ some k
  unfolding settle
  settle_shrinks id j e k h =
      ground (arith, forget_inode_shrinks (record m { id_to_path = remove m.id_to_path id }) id j k)

  drop_alias_shrinks :
      (path : SymPath) (id j : ℕ) (k : InodeKey)
      → inode_of (drop_alias path id m) j ≡ some k
      → inode_of m j ≡ some k
  unfolding drop_alias
  drop_alias_shrinks path id j k h = elim (Option-cases (entry_of m id)) [
    | inl n ↦ rw (drop_alias, n) at h
    | inr (e, u) ↦ settle_shrinks id j (without_alias path e) k (rw (drop_alias, u) at h)
  ]

module _ {T : Type 0} (m : FsMap T) where
  names_at :
      (q : SymPath) (j : ℕ) (k : InodeKey)
      → id_of m q ≡ some j
      → inode_of m j ≡ some k
      → names m q ≡ some k
  unfolding names
  names_at q j k u v = rw (names, u) v

  names_absent : (q : SymPath) → id_of m q ≡ none → names m q ≡ none
  unfolding names
  names_absent q u = rw (names, u) refl

module _ {T : Type 0} (small big : FsMap T) where
  -- Where a path keeps its identifier, and identifiers keep their inodes, it names the same.
  names_agree :
      (q : SymPath)
      → IsConsistent small
      → id_of small q ≡ id_of big q
      → ((j : ℕ) (k : InodeKey) → inode_of small j ≡ some k → inode_of big j ≡ some k)
      → names small q ≡ names big q
  names_agree q c u v = elim (Option-cases (id_of small q)) [
    | inl n ↦ names_absent small q n ∙ sym (names_absent big q (sym u ∙ n))
    | inr (j, w) ↦
        let (e, k, x, y) = path_cases small c q j w in
        names_at small q j k w y ∙ sym (names_at big q j k (sym u ∙ w) (v j k y))
  ]

module _ {T : Type 0} (m : FsMap T) (path : SymPath) where
  remove_path_shrinks :
      (j : ℕ) (k : InodeKey) → inode_of (remove_path path m).1 j ≡ some k → inode_of m j ≡ some k
  unfolding remove_path
  remove_path_shrinks j k h = elim (Option-cases (id_of m path)) [
    | inl n ↦ rw (remove_path, n) at h
    | inr (id, v) ↦
        drop_alias_shrinks (record m { path_to_id = remove m.path_to_id path }) path id j k
          (rw (remove_path, v) at h)
  ]

  -- In a map that agrees, after `remove_path` the path names nothing, and every other path names
  -- what it named, hard links of the same file included.
  pub names-remove_path :
      (q : SymPath)
      → IsConsistent m
      → names (remove_path path m).1 q ≡ (if equal_lists path q then none else names m q)
  names-remove_path q c =
      let (ids, next) = remove_path_frame m path in
      elim (Bool-cases (equal_lists path q)) [
        | inl t ↦ rw t (names_absent (remove_path path m).1 q (ids q ∙ rw t refl))
        | inr f ↦ rw f (
            names_agree (remove_path path m).1 m q (remove_path-IsConsistent m c path)
              (ids q ∙ rw f refl) remove_path_shrinks)
      ]

module _ {T : Type 0} (m : FsMap T) (id : ℕ) where
  modify_entry_frame :
      (f : FsEntry → FsEntry)
      → ((modify_entry id f m).path_to_id ≡ m.path_to_id)
        × ((modify_entry id f m).id_to_inode ≡ m.id_to_inode)
  unfolding modify_entry
  modify_entry_frame f = (ground arith, ground arith)

  keep_inode_frame :
      (i : InodeKey)
      → ((keep_inode id i m).path_to_id ≡ m.path_to_id)
        × ((j : ℕ) (k : InodeKey) → inode_of m j ≡ some k → inode_of (keep_inode id i m) j ≡ some k)
  unfolding keep_inode
  keep_inode_frame i = (ground arith, λ j k h. ground (arith, get-insert m.id_to_inode id j i))

module _ {T : Type 0} (m : FsMap T) (path : SymPath) (meta : Metadata) where
  link_path_frame :
      (id : ℕ)
      → ((link_path path meta id m).path_to_id ≡ insert m.path_to_id path id)
        × ((j : ℕ) (k : InodeKey)
            → inode_of m j ≡ some k
            → inode_of (link_path path meta id m) j ≡ some k)
  unfolding link_path set_path
  link_path_frame id =
      let f = add_alias path (metadata_to_fattr3 id meta) in
      let (p, i) = modify_entry_frame m id f in
      let (q, grows) =
        keep_inode_frame (set_path path id (modify_entry id f m)) id (inode_key meta) in
      (q ∙ ap (λ ps. insert ps path id) p, λ j k h. grows j k (rw i h))

  new_path_grows :
      (j : ℕ) (k : InodeKey)
      → IsConsistent m
      → inode_of m j ≡ some k
      → inode_of (new_path path meta m).1 j ≡ some k
  unfolding new_path
  new_path_grows j k c h =
      ground
        (arith, get-insert m.id_to_inode m.next_fileid j (inode_key meta), c.entries j, c.fresh j)

  -- The path gets the identifier that is answered, which is its inode's; no other path's changes.
  create_path_frame :
      IsConsistent m
      → let (id, m') = create_path path meta m in
        ((q : SymPath) → id_of m' q ≡ (if equal_lists path q then some id else id_of m q))
        × ((j : ℕ) (k : InodeKey) → inode_of m j ≡ some k → inode_of m' j ≡ some k)
        × (inode_of m' id ≡ some (inode_key meta))
  unfolding create_path
  create_path_frame c = elim (Option-cases (id_of_inode m (inode_key meta))) [
    | inl n ↦
        rw (create_path, n)
          (unfold new_path in
            (
              λ q. get-insert m.path_to_id path q m.next_fileid,
              λ j k h. new_path_grows j k c h,
              ground (arith, get-insert m.id_to_inode m.next_fileid m.next_fileid (inode_key meta)),
            ))
    | inr (id, v) ↦
        let (p, grows) = link_path_frame id in
        rw (create_path, v)
          (
            λ q. rw p (get-insert m.path_to_id path q id),
            grows,
            grows id (inode_key meta) ((c.inodes (inode_key meta) id).0 v),
          )
  ]

  names-create_path :
      (q : SymPath)
      → IsConsistent m
      → names (create_path path meta m).1 q
        ≡ (if equal_lists path q then some (inode_key meta) else names m q)
  names-create_path q c =
      let (ids, grows, own) = create_path_frame c in
      elim (Bool-cases (equal_lists path q)) [
        | inl t ↦ rw t (
            names_at (create_path path meta m).1 q (create_path path meta m).0 (inode_key meta)
              (ids q ∙ rw t refl) own)
        | inr f ↦
            rw f
              (sym (names_agree m (create_path path meta m).1 q c (sym (ids q ∙ rw f refl)) grows))
      ]

  -- An entry is changed that the path already had.
  names_kept :
      (q : SymPath) (id : ℕ) (f : FsEntry → FsEntry)
      → id_of m path ≡ some id
      → inode_of m id ≡ some (inode_key meta)
      → names (modify_entry id f m) q
        ≡ (if equal_lists path q then some (inode_key meta) else names m q)
  unfolding names
  names_kept q id f u v =
      let (p, i) = modify_entry_frame m id f in rw (p, i) (ground (arith, equal_lists_iff path q))

module _ {T : Type 0} (m : FsMap T) (path : SymPath) (meta : Metadata) where
  -- In a map that agrees, after `create_entry` the path names the inode of its metadata, whatever it
  -- named before, and every other path names what it named.
  pub names-create_entry :
      (q : SymPath)
      → IsConsistent m
      → names (create_entry path meta m).1 q
        ≡ (if equal_lists path q then some (inode_key meta) else names m q)
  unfolding create_entry
  names-create_entry q c = elim (Option-cases (id_of m path)) [
    | inl n ↦ rw (create_entry, n) (names-create_path m path meta q c)
    | inr (id, v) ↦
        let (e, k, u, x) = path_cases m c path id v in
        elim (Bool-cases (inode_beq k (inode_key meta))) [
          | inl t ↦
              rw (create_entry, v, x, t)
                (names_kept m path meta q id _ v
                  (x ∙ ap (λ i. some i) ((inode_beq_iff k (inode_key meta)).0 t)))
          | inr f ↦
              let m' = (remove_path path m).1 in
              rw (create_entry, v, x, f)
                (names-create_path m' path meta q (remove_path-IsConsistent m c path)
                  ∙ rw (names-remove_path m path q c) (ground arith))
        ]
  ]
