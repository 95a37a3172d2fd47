-- ===== src/Mirror/Lookup.antt =====
-- bin/fernfs/fs.rs: looking up and listing.
pub mod Pages
use fernfs.Prelude.{
  ℕ, ◌+◌, ◌-◌, Option, none, some, List, [], ◌∷◌, ltb, leb, ◌==◌, nat_eq, list_eq, if◌then◌else◌,
  length, drop,
}
use fernfs.Prelude.HashMap.{get}
use fernfs.Io.{Bytes}
use fernfs.Xdr.Nfs3.{
  NfsResult, nfs3err_noent, nfs3err_notdir, nfs3err_io, nfs3err_bad_cookie, Fattr,
}
use fernfs.Vfs.{DirEntry, ReadDirResult}
use fernfs.Mirror.Entry.{SymPath, Children, FsEntry, is_directory}
use fernfs.Mirror.Map.{FsMap, find_entry}
use fernfs.Mirror.Host.{Host, Interner, M, pure, throw, ◌>>=◌, ◌>>◌, fsmap_now}
use fernfs.Mirror.Files.{is_delete, place_of, exists_now}
use fernfs.Mirror.Refresh.{find_child, refresh_entry, refresh_dir_list}

-- The loop that fills a page: it looks at its length after each entry.
unfoldable pub push_entries {ℓ} : {A : Type ℓ} → ℕ → ℕ → List A → List A
push_entries max n [] = []
push_entries max n (e ∷ es) =
    let rest = push_entries max (n + 1) es in e ∷ (if leb max (n + 1) then [] else rest)

unfoldable pub page_from : ℕ → ℕ → List DirEntry → NfsResult (ReadDirResult DirEntry)
page_from start max all =
    if ltb (length all) start
    then NfsResult.err nfs3err_bad_cookie
    else (let entries = push_entries max 0 (drop start all) in
        NfsResult.ok (record { entries = entries; end = length entries == length all - start }))

unfoldable pub dir_entry : ℕ → Bytes → Fattr → DirEntry
dir_entry id name attr = record { fileid = id; name = name; attr = record attr { fileid = id } }

unfoldable pub parent_path : SymPath → SymPath
parent_path [] = []
parent_path (s ∷ []) = []
parent_path (s ∷ t ∷ path) = s ∷ parent_path (t ∷ path)

unfoldable pub page_of : ℕ → ℕ → NfsResult (List DirEntry) → NfsResult (ReadDirResult DirEntry)
page_of start max (NfsResult.err stat) = NfsResult.err stat
page_of start max (NfsResult.ok all) = page_from start max all

-- `.` and `..`
abbrev pub self_name : Bytes
self_name = 46 ∷ []

abbrev pub parent_name : Bytes
parent_name = 46 ∷ 46 ∷ []

module _ {T : Type 0} (interner : Interner T) where
  unfoldable pub child_entries : FsMap T → Children → NfsResult (List DirEntry)
  child_entries m [] = NfsResult.ok []
  child_entries m ((sym, id) ∷ children) =
      let rest = child_entries m children in
      elim (find_entry id m) [
        | NfsResult.err e ↦ NfsResult.err e
        | NfsResult.ok e ↦ elim rest [
          | NfsResult.err e' ↦ NfsResult.err e'
          | NfsResult.ok entries ↦
              NfsResult.ok (dir_entry id (interner.get m.intern sym) e.fsmeta ∷ entries)
        ]
      ]

module _ {T : Type 0} where
  unfoldable pub parent_of : ℕ → FsEntry → FsMap T → Option ℕ
  parent_of dirid e m = elim e.name [
    | [] ↦ some dirid
    | s ∷ path ↦ get m.path_to_id (parent_path (s ∷ path))
  ]

module _ {T : Type 0} (interner : Interner T) where
  -- The whole listing of a directory.
  unfoldable pub all_entries : ℕ → FsEntry → Children → FsMap T → NfsResult (List DirEntry)
  all_entries dirid e children m = elim (parent_of dirid e m) [
    | none ↦ NfsResult.err nfs3err_io
    | some parent_id ↦ elim (find_entry parent_id m) [
      | NfsResult.err stat ↦ NfsResult.err stat
      | NfsResult.ok parent ↦ elim (child_entries interner m children) [
        | NfsResult.err stat ↦ NfsResult.err stat
        | NfsResult.ok entries ↦ NfsResult.ok (
            dir_entry dirid self_name e.fsmeta
            ∷ dir_entry parent_id parent_name parent.fsmeta
            ∷ entries)
      ]
    ]
  ]

  -- What a directory that was brought up to date lists.
  unfoldable pub listing_of : ℕ → FsMap T → NfsResult (List DirEntry)
  listing_of dirid m = elim (find_entry dirid m) [
    | NfsResult.err stat ↦ NfsResult.err stat
    | NfsResult.ok e ↦
        if is_directory e
        then elim e.children [
          | none ↦ NfsResult.err nfs3err_io
          | some children ↦ all_entries dirid e children m
        ]
        else NfsResult.err nfs3err_notdir
  ]

module _ {T H : Type 0} (interner : Interner T) (host : Host H) where
  -- A child of which the map has an entry.
  unfoldable pub known_child : ℕ → Bytes → FsMap T → Option ℕ
  known_child dirid name m = elim (find_child interner host dirid name m) [
    | NfsResult.err e ↦ none
    | NfsResult.ok id ↦ elim (get m.id_to_path id) [ none ↦ none | some e ↦ some id ]
  ]

  unfoldable pub find_again : ℕ → Bytes → M T H ℕ
  find_again dirid name s = some (find_child interner host dirid name s.fsmap, s)

module _ {T H : Type 0} where
  -- The directory may have lost the name in between.
  unfoldable pub confirmed : ℕ → NfsResult ℕ → M T H ℕ
  confirmed id (NfsResult.ok again) = pure id
  confirmed id (NfsResult.err e) = throw nfs3err_noent

module _ {T H : Type 0} (interner : Interner T) (host : Host H) (stack : ℕ) where
  -- A name that the map does not know.
  unfoldable pub lookup_host : ℕ → Bytes → M T H ℕ
  lookup_host dirid name = do
    (e, path) ← place_of interner host dirid name
    there ← exists_now interner host path
    if there
        then (do
          r ← refresh_entry interner host stack dirid
          if is_delete r then throw nfs3err_noent else (do
            refresh_dir_list interner host stack dirid
            find_again interner host dirid name))
        else throw nfs3err_noent

  -- A name that the map knows.
  unfoldable pub lookup_known : ℕ → Bytes → ℕ → M T H ℕ
  lookup_known dirid name id = do
    r ← refresh_entry interner host stack id
    m ← fsmap_now
    if is_delete r
        then lookup_host dirid name
        else confirmed id (find_child interner host dirid name m)

  unfoldable pub lookup : ℕ → Bytes → M T H ℕ
  lookup dirid name = do
    m ← fsmap_now
    elim (known_child interner host dirid name m) [
      | none ↦ lookup_host dirid name
      | some id ↦ lookup_known dirid name id
    ]

  unfoldable pub readdir : ℕ → ℕ → ℕ → M T H (ReadDirResult DirEntry)
  readdir dirid start_after max_entries = do
    r ← refresh_entry interner host stack dirid
    refresh_dir_list interner host stack dirid
    m ← fsmap_now
    λ s. some (page_of start_after max_entries (listing_of interner dirid m), s)
