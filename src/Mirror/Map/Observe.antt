-- ===== src/Mirror/Map/Observe.antt =====
-- bin/fernfs/fs_map.rs: what can be seen of the map after each of its steps, key by key.
use fernfs.Prelude.{ℕ, Bool, true, false, Option, none, some, nat_eq, list_eq}
use fernfs.Prelude.HashMap.{get}
use fernfs.Mirror.Entry.{SymPath, set_contains, FsEntry}
use fernfs.Mirror.Map.{InodeKey, inode_eq, FsMap}

abbrev pub is_some {ℓ} : {A : Type ℓ} → Option A → Bool
is_some none = false
is_some (some a) = true

abbrev pub holds : Option FsEntry → SymPath → Bool
holds none p = false
holds (some e) p = set_contains p e.aliases

module _ {T : Type 0} (m : FsMap T) where
  -- The identifier of a path, the entry and the inode of an identifier, and the identifier of an inode.
  abbrev pub id_of : SymPath → Option ℕ
  id_of p = get m.path_to_id p

  abbrev pub entry_of : ℕ → Option FsEntry
  entry_of id = get m.id_to_path id

  abbrev pub inode_of : ℕ → Option InodeKey
  inode_of id = get m.id_to_inode id

  abbrev pub id_of_inode : InodeKey → Option ℕ
  id_of_inode k = get m.inode_to_id k
