-- ===== src/Demo/Look.antt =====
-- examples/demo_fs/fs.rs: the methods that look.
use fernfs.Prelude.{
  ℕ, ◌+◌, ◌-◌, ◌%◌, ◌^◌, min, Bool, true, false, Option, none, some, List, [], ◌∷◌, leb, ltb, ◌==◌,
  nat_eq, list_eq, if◌then◌else◌, equal_lists, length, take, drop,
}
use fernfs.Io.{Bytes}
use fernfs.Xdr.Nfs3.{
  nfs3err_noent, nfs3err_notdir, nfs3err_isdir, nfs3err_inval, nfs3err_bad_cookie, Ftype, nf3reg,
  nf3dir, nf3blk, nf3chr, nf3lnk, nf3sock, nf3fifo, Fattr,
}
use fernfs.Vfs.{DirEntry, ReadDirResult}
use fernfs.Demo.Entry.{Contents, DemoFs, D, get_at, fail_with, answer_with, child_named}

unfoldable pub getattr : ℕ → D Fattr
getattr id s = elim (get_at s.entries id) [
  | none ↦ fail_with nfs3err_noent s
  | some e ↦ answer_with e.attr s
]

unfoldable pub lookup_among : ℕ → Bytes → ℕ → Contents → D ℕ
lookup_among dirid name parent (Contents.file cell) s = fail_with nfs3err_notdir s
lookup_among dirid name parent (Contents.directory children) s =
    if equal_lists name (46 ∷ [])
    then answer_with dirid s
    else if equal_lists name (46 ∷ 46 ∷ [])
    then answer_with parent s
    else elim (child_named name children s) [
      | none ↦ fail_with nfs3err_noent s
      | some id ↦ answer_with id s
    ]

unfoldable pub lookup : ℕ → Bytes → D ℕ
lookup dirid name s = elim (get_at s.entries dirid) [
  | none ↦ fail_with nfs3err_noent s
  | some e ↦ lookup_among dirid name e.parent e.contents s
]

-- A range of the bytes. Its end wraps round; if it then ends before it starts, the slice panics.
unfoldable pub read_slice : Bytes → ℕ → ℕ → Option (Bytes × Bool)
read_slice bytes offset count =
    let len = length bytes in
    let end = (offset + count) % 2 ^ 64 in
    let start = min offset len in
    let stop = min end len in
    if ltb stop start then none else some (take (stop - start) (drop start bytes), leb len end)

unfoldable pub read_cell : ℕ → ℕ → ℕ → D (Bytes × Bool)
read_cell cell offset count s = elim (get_at s.cells cell) [
  | none ↦ none
  | some bytes ↦ elim (read_slice bytes offset count) [ none ↦ none | some r ↦ answer_with r s ]
]

unfoldable pub read : ℕ → ℕ → ℕ → D (Bytes × Bool)
read id offset count s = elim (get_at s.entries id) [
  | none ↦ fail_with nfs3err_noent s
  | some e ↦ elim e.contents [
    | Contents.directory children ↦ fail_with nfs3err_isdir s
    | Contents.file cell ↦ read_cell cell offset count s
  ]
]

-- The loop that fills a page, and looks at its length after each entry; a child that does not exist
-- panics.
unfoldable pub list_entries : ℕ → ℕ → List ℕ → DemoFs → Option (List DirEntry)
list_entries max n [] s = some []
list_entries max n (i ∷ is) s =
    let rest = list_entries max (n + 1) is s in
    elim (get_at s.entries i) [
      | none ↦ none
      | some e ↦
          let entry : DirEntry = record { fileid = i; name = e.name; attr = e.attr } in
          if leb max (n + 1)
          then some (entry ∷ [])
          else elim rest [ none ↦ none | some entries ↦ some (entry ∷ entries) ]
    ]

unfoldable pub list_page : ℕ → ℕ → List ℕ → D (ReadDirResult DirEntry)
list_page start max children s =
    if ltb (length children) start
    then fail_with nfs3err_bad_cookie s
    else elim (list_entries max 0 (drop start children) s) [
      | none ↦ none
      | some entries ↦
          answer_with
            (record { entries = entries; end = length entries == length children - start }) s
    ]

unfoldable pub readdir : ℕ → ℕ → ℕ → D (ReadDirResult DirEntry)
readdir dirid start_after max_entries s = elim (get_at s.entries dirid) [
  | none ↦ fail_with nfs3err_noent s
  | some e ↦ elim e.contents [
    | Contents.file cell ↦ fail_with nfs3err_notdir s
    | Contents.directory children ↦ list_page start_after max_entries children s
  ]
]

abbrev pub is_link_type : Ftype → Bool
is_link_type nf3lnk = true
is_link_type nf3reg = false
is_link_type nf3dir = false
is_link_type nf3blk = false
is_link_type nf3chr = false
is_link_type nf3sock = false
is_link_type nf3fifo = false

unfoldable pub link_target : Contents → D Bytes
link_target (Contents.directory children) s = fail_with nfs3err_inval s
link_target (Contents.file cell) s = elim (get_at s.cells cell) [
  | none ↦ none
  | some bytes ↦ answer_with bytes s
]

unfoldable pub readlink : ℕ → D Bytes
readlink id s = elim (get_at s.entries id) [
  | none ↦ fail_with nfs3err_noent s
  | some e ↦
      let attr = e.attr in
      if is_link_type attr.ftype then link_target e.contents s else fail_with nfs3err_inval s
]
