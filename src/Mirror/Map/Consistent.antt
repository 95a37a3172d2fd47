-- ===== src/Mirror/Map/Consistent.antt =====
-- bin/fernfs/fs_map.rs: the four maps agree.
pub mod Removal
pub mod Creation
use fernfs.Prelude.{
  Bool-cases, Option-cases, inl, inr, ◌⊎◌, ℕ, ◌+◌, ◌^◌, ◌<◌, ◌≡◌, ◌↔◌, refl, true, none, some, List,
  [], ◌∷◌, arith, nat_eq, list_eq, equal_lists, equal_lists_iff, if◌then◌else◌,
}
use fernfs.Prelude.HashMap.{insert, remove, get-insert, get-remove}
use fernfs.Xdr.Nfs3.{Fattr}
use fernfs.Mirror.Attributes.{Metadata, metadata_to_fattr3}
use fernfs.Mirror.Entry.{
  SymPath, set_contains, set_contains-insert, set_contains-remove, FsEntry, new_entry,
}
use fernfs.Mirror.Map.{
  InodeKey, inode_beq, inode_beq_iff, inode_eq, inode_key, FsMap, modify_entry, set_fsmeta,
  without_alias, forget_inode, settle, drop_alias, remove_path, add_alias, link_path, new_path,
  set_path, keep_inode, create_path, create_entry,
}
use fernfs.Mirror.Map.Observe.{is_some, holds, id_of, entry_of, inode_of, id_of_inode}

pub record IsConsistent {T : Type 0} (m : FsMap T) : Type 0 where
  -- A path has an identifier exactly if it is among the paths of that identifier's entry.
  pub paths : (p : SymPath) (id : ℕ) → (id_of m p ≡ some id) ↔ (holds (entry_of m id) p ≡ true)
  -- Identifiers and inodes stand for each other.
  pub inodes : (k : InodeKey) (id : ℕ) → (id_of_inode m k ≡ some id) ↔ (inode_of m id ≡ some k)
  pub entries : (id : ℕ) → is_some (entry_of m id) ≡ is_some (inode_of m id)
  -- The next identifier is new.
  pub fresh : (id : ℕ) → is_some (entry_of m id) ≡ true → id < m.next_fileid
  pub named : (id : ℕ) (e : FsEntry) → entry_of m id ≡ some e → set_contains e.name e.aliases ≡ true

module _ {T : Type 0} (m : FsMap T) (c : IsConsistent m) where
  -- What an identifier of a path has.
  pub path_cases :
      (path : SymPath) (id : ℕ)
      → id_of m path ≡ some id
      → (e : FsEntry) × (k : InodeKey) × (entry_of m id ≡ some e) × (inode_of m id ≡ some k)
  path_cases path id v = elim (Option-cases (entry_of m id)) [
    | inl n ↦ absurd (ground (arith, c.paths path id))
    | inr (e, u) ↦ elim (Option-cases (inode_of m id)) [
      | inl n ↦ absurd (ground (arith, c.entries id))
      | inr (k, w) ↦ (e, k, u, w)
    ]
  ]
