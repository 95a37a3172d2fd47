-- ===== src/Mirror/Map.antt =====
-- bin/fernfs/fs_map.rs: which identifier stands for which paths and which inode of the host. The
-- order in which a HashMap is walked is that of its list here.
pub mod Observe
pub mod Consistent
pub mod Names
use fernfs.Prelude.{
  ℕ, ◌+◌, ◌%◌, ◌^◌, ◌≡◌, ◌↔◌, Bool, true, false, ◌&&◌, Option, none, some, List, [], ◌∷◌, ◌++◌,
  arith, ◌==◌, ==_iff, Eq, nat_eq, list_eq, equal_lists, if◌then◌else◌,
}
use fernfs.Prelude.HashMap.{HashMap, get, insert, remove}
use fernfs.Io.{Bytes}
use fernfs.Xdr.Nfs3.{NfsResult, nfs3err_noent, Fattr}
use fernfs.Mirror.Attributes.{Metadata, metadata_to_fattr3}
use fernfs.Mirror.Entry.{SymPath, set_insert, set_remove, set_contains, FsEntry, new_entry}

pub record InodeKey : Type 0 where
  pub dev : ℕ
  pub ino : ℕ

unfoldable pub inode_beq : InodeKey → InodeKey → Bool
inode_beq a b = a.dev == b.dev && a.ino == b.ino

pub inode_beq_iff : (a b : InodeKey) → (inode_beq a b ≡ true) ↔ (a ≡ b)
unfolding inode_beq
inode_beq_iff a b = (λ h. ground arith, λ h. ground arith)

instance abbrev pub inode_eq : Eq InodeKey
inode_eq = record { beq = inode_beq; beq_iff = inode_beq_iff }

abbrev pub inode_key : Metadata → InodeKey
inode_key meta = record { dev = meta.dev; ino = meta.ino }

-- Over a symbol table of some type.
pub record FsMap (T : Type 0) : Type 0 where
  pub root : Bytes
  pub next_fileid : ℕ
  pub intern : T
  pub id_to_path : HashMap ℕ FsEntry
  pub path_to_id : HashMap SymPath ℕ
  pub inode_to_id : HashMap InodeKey ℕ
  pub id_to_inode : HashMap ℕ InodeKey

abbrev pub same_inode : Option InodeKey → InodeKey → Bool
same_inode none k = false
same_inode (some j) k = inode_beq j k

abbrev pub first_or : SymPath → List SymPath → SymPath
first_or p [] = p
first_or p (q ∷ qs) = q

unfoldable pub set_fsmeta : Fattr → FsEntry → FsEntry
set_fsmeta attr e = record e { fsmeta = attr }

-- The entry with one path less; another becomes its name, if it was the name.
unfoldable pub without_alias : SymPath → FsEntry → FsEntry
without_alias path e =
    let aliases = set_remove path e.aliases in
    record e {
      aliases = aliases;
      name = if equal_lists e.name path then first_or e.name aliases else e.name;
    }

unfoldable pub add_alias : SymPath → Fattr → FsEntry → FsEntry
add_alias path attr e = record e { fsmeta = attr; aliases = set_insert path e.aliases }

module _ {T : Type 0} where
  -- `FSMap::new`, with the metadata of the root, an empty symbol table, and the root's path
  unfoldable pub new_map : Bytes → T → Metadata → FsMap T
  new_map root table meta = record {
    root = root;
    next_fileid = 1;
    intern = table;
    id_to_path = (0, new_entry [] (metadata_to_fattr3 1 meta)) ∷ [];
    path_to_id = ([], 0) ∷ [];
    inode_to_id = (inode_key meta, 0) ∷ [];
    id_to_inode = (0, inode_key meta) ∷ [];
  }

  -- `get_mut` and a change of the entry
  unfoldable pub modify_entry : ℕ → (FsEntry → FsEntry) → FsMap T → FsMap T
  modify_entry id f m = elim (get m.id_to_path id) [
    | none ↦ m
    | some e ↦ record m { id_to_path = insert m.id_to_path id (f e) }
  ]

  unfoldable pub forget_inode : ℕ → FsMap T → FsMap T
  forget_inode id m = elim (get m.id_to_inode id) [
    | none ↦ m
    | some inode ↦ record m {
      id_to_inode = remove m.id_to_inode id;
      inode_to_id = remove m.inode_to_id inode;
    }
  ]

  unfoldable pub settle : ℕ → FsEntry → FsMap T → FsMap T
  settle id e m = elim e.aliases [
    | [] ↦ forget_inode id (record m { id_to_path = remove m.id_to_path id })
    | a ∷ aliases ↦ record m { id_to_path = insert m.id_to_path id e }
  ]

  unfoldable pub drop_alias : SymPath → ℕ → FsMap T → FsMap T
  drop_alias path id m = elim (get m.id_to_path id) [
    | none ↦ m
    | some e ↦ settle id (without_alias path e) m
  ]

  unfoldable pub remove_path : SymPath → FsMap T → Option ℕ × FsMap T
  remove_path path m = elim (get m.path_to_id path) [
    | none ↦ (none, m)
    | some fileid ↦
        (some fileid, drop_alias path fileid (record m { path_to_id = remove m.path_to_id path }))
  ]

  -- `entry(id).or_insert(inode)`
  unfoldable pub keep_inode : ℕ → InodeKey → FsMap T → FsMap T
  keep_inode id k m = elim (get m.id_to_inode id) [
    | none ↦ record m { id_to_inode = insert m.id_to_inode id k }
    | some inode ↦ m
  ]

  unfoldable pub set_path : SymPath → ℕ → FsMap T → FsMap T
  set_path path id m = record m { path_to_id = insert m.path_to_id path id }

  -- A new path of an inode that has an identifier.
  unfoldable pub link_path : SymPath → Metadata → ℕ → FsMap T → FsMap T
  link_path path meta id m =
      keep_inode id (inode_key meta)
        (set_path path id (modify_entry id (add_alias path (metadata_to_fattr3 id meta)) m))

  -- A new path of a new inode.
  unfoldable pub new_path : SymPath → Metadata → FsMap T → ℕ × FsMap T
  new_path path meta m =
      let id = m.next_fileid in
      (
        id,
        record m {
          next_fileid = (id + 1) % 2 ^ 64;
          id_to_path = insert m.id_to_path id (new_entry path (metadata_to_fattr3 id meta));
          path_to_id = insert m.path_to_id path id;
          inode_to_id = insert m.inode_to_id (inode_key meta) id;
          id_to_inode = insert m.id_to_inode id (inode_key meta);
        },
      )

  unfoldable pub create_path : SymPath → Metadata → FsMap T → ℕ × FsMap T
  create_path path meta m = elim (get m.inode_to_id (inode_key meta)) [
    | some id ↦ (id, link_path path meta id m)
    | none ↦ new_path path meta m
  ]

  unfoldable pub create_entry : SymPath → Metadata → FsMap T → ℕ × FsMap T
  create_entry path meta m = elim (get m.path_to_id path) [
    | none ↦ create_path path meta m
    | some chid ↦
        if same_inode (get m.id_to_inode chid) (inode_key meta)
        then (chid, modify_entry chid (set_fsmeta (metadata_to_fattr3 chid meta)) m)
        else create_path path meta (remove_path path m).1
  ]

  unfoldable pub find_entry : ℕ → FsMap T → NfsResult FsEntry
  find_entry id m = elim (get m.id_to_path id) [
    | none ↦ NfsResult.err nfs3err_noent
    | some e ↦ NfsResult.ok e
  ]
