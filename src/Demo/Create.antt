-- ===== src/Demo/Create.antt =====
-- examples/demo_fs/fs.rs: the methods that create an entry. The clock is an argument.
use fernfs.Prelude.{ℕ, ◌+◌, ◌%◌, ◌^◌, Option, none, some, List, [], if◌then◌else◌, length}
use fernfs.Io.{Bytes}
use fernfs.Xdr.Nfs3.{
  nfs3err_noent, nfs3err_notdir, nfs3err_isdir, nfs3err_exist, nfs3err_notsupp, Ftype, nf3reg,
  nf3dir, nf3blk, nf3chr, nf3lnk, nf3sock, nf3fifo, SpecData, Fattr, NfsTime, Sattr,
}
use fernfs.Demo.Entry.{
  Contents, DemoEntry, DemoFs, D, get_at, fail_with, answer_with, modify_entry_at, push_entry,
  push_cell, push_child, child_named, children_of, make_file, make_dir, is_utf8,
}
use fernfs.Demo.Change.{or_old, set_mtime}

-- A new file among the entries, with a cell of its own.
unfoldable pub push_file : Bytes → ℕ → Bytes → (DemoEntry → DemoEntry) → DemoFs → DemoFs
push_file name parent bytes change s =
    push_entry (change (make_file name (length s.entries) parent (length bytes) (length s.cells)))
      (push_cell bytes s)

-- The attributes of an entry that must be there.
unfoldable pub created_as : ℕ → D (ℕ × Fattr)
created_as id s = elim (get_at s.entries id) [ none ↦ none | some e ↦ answer_with (id, e.attr) s ]

-- A directory out of range, and a name that is not UTF-8, panic.
unfoldable pub create : ℕ → Bytes → Sattr → D (ℕ × Fattr)
create dirid name attrs s =
    let id = length s.entries in
    let s' = push_file name dirid [] (λ e. e) s in
    if is_utf8 [] name
    then elim (get_at s'.entries dirid) [
      | none ↦ none
      | some d ↦ created_as id (modify_entry_at dirid (push_child id) s')
    ]
    else none

unfoldable pub create_exclusive : ℕ → Bytes → Bytes → D ℕ
create_exclusive dirid name verifier s = fail_with nfs3err_notsupp s

-- The new entry joins its directory, whose time of modification is now.
unfoldable pub join : NfsTime → ℕ → ℕ → D (ℕ × Fattr)
join now dirid id s =
    created_as id (modify_entry_at dirid (set_mtime now) (modify_entry_at dirid (push_child id) s))

unfoldable pub mkdir_under : NfsTime → ℕ → Bytes → List ℕ → D (ℕ × Fattr)
mkdir_under now dirid name children s =
    let id = length s.entries in
    elim (child_named name children s) [
      | some taken ↦ fail_with nfs3err_exist s
      | none ↦
          if is_utf8 [] name
          then join now dirid id (push_entry (make_dir name id dirid []) s)
          else none
    ]

unfoldable pub mkdir : NfsTime → ℕ → Bytes → D (ℕ × Fattr)
mkdir now dirid name s = elim (children_of (get_at s.entries dirid)) [
  | none ↦ fail_with nfs3err_notdir s
  | some children ↦ mkdir_under now dirid name children s
]

unfoldable pub set_ftype : Ftype → DemoEntry → DemoEntry
set_ftype ftype e = record e { attr = record (e.attr) { ftype = ftype } }

unfoldable pub set_rdev : SpecData → DemoEntry → DemoEntry
set_rdev spec e = record e { attr = record (e.attr) { rdev = spec } }

-- A name that is there already is not looked for.
unfoldable pub symlink : NfsTime → ℕ → Bytes → Bytes → Sattr → D (ℕ × Fattr)
symlink now dirid name target attrs s = elim (children_of (get_at s.entries dirid)) [
  | none ↦ fail_with nfs3err_notdir s
  | some children ↦
      if is_utf8 [] name
      then join now dirid (length s.entries) (push_file name dirid target (set_ftype nf3lnk) s)
      else none
]

unfoldable pub add_link : DemoEntry → DemoEntry
add_link e =
    let attr = e.attr in record e { attr = record attr { nlink = (attr.nlink + 1) % 2 ^ 32 } }

-- The new entry has the attributes and the contents of the source.
unfoldable pub link_under : ℕ → DemoEntry → ℕ → Bytes → List ℕ → D Fattr
link_under file_id source dirid name children s =
    let id = length s.entries in
    let e : DemoEntry = record {
      id = id;
      name = name;
      parent = dirid;
      attr = source.attr;
      contents = source.contents;
    } in
    elim (child_named name children s) [
      | some taken ↦ fail_with nfs3err_exist s
      | none ↦
          let s' =
            modify_entry_at file_id add_link
              (modify_entry_at dirid (push_child id) (push_entry e s)) in
          elim (get_at s'.entries id) [ none ↦ none | some e' ↦ answer_with e'.attr s' ]
    ]

unfoldable pub link_to : ℕ → DemoEntry → ℕ → Bytes → D Fattr
link_to file_id source dirid name s = elim (children_of (get_at s.entries dirid)) [
  | none ↦ fail_with nfs3err_notdir s
  | some children ↦ link_under file_id source dirid name children s
]

unfoldable pub link : ℕ → ℕ → Bytes → D Fattr
link file_id dirid name s = elim (get_at s.entries file_id) [
  | none ↦ fail_with nfs3err_noent s
  | some source ↦ elim source.contents [
    | Contents.directory children ↦ fail_with nfs3err_isdir s
    | Contents.file cell ↦ link_to file_id source dirid name s
  ]
]

unfoldable pub with_attrs : Sattr → DemoEntry → DemoEntry
with_attrs set e =
    let attr = e.attr in
    record e {
      attr = record attr {
        mode = or_old set.mode attr.mode;
        uid = or_old set.uid attr.uid;
        gid = or_old set.gid attr.gid;
      };
    }

-- The new entry of a type, if the type is one that the demo makes.
unfoldable pub push_special :
    Ftype → Bytes → ℕ → SpecData → (DemoEntry → DemoEntry) → DemoFs → Option DemoFs
push_special nf3reg name dirid spec change s = some (push_file name dirid [] change s)
push_special nf3dir name dirid spec change s =
    some (push_entry (change (make_dir name (length s.entries) dirid [])) s)
push_special nf3blk name dirid spec change s =
    some (push_file name dirid [] (λ e. change (set_rdev spec (set_ftype nf3blk e))) s)
push_special nf3chr name dirid spec change s =
    some (push_file name dirid [] (λ e. change (set_rdev spec (set_ftype nf3chr e))) s)
push_special nf3fifo name dirid spec change s =
    some (push_file name dirid [] (λ e. change (set_ftype nf3fifo e)) s)
push_special nf3sock name dirid spec change s =
    some (push_file name dirid [] (λ e. change (set_ftype nf3sock e)) s)
push_special nf3lnk name dirid spec change s = none

unfoldable pub mknod_under : NfsTime → ℕ → Bytes → Ftype → SpecData → Sattr → List ℕ → D (ℕ × Fattr)
mknod_under now dirid name ftype spec attrs children s = elim (child_named name children s) [
  | some taken ↦ fail_with nfs3err_exist s
  | none ↦ elim (push_special ftype name dirid spec (with_attrs attrs) s) [
    | none ↦ fail_with nfs3err_notsupp s
    | some s' ↦ if is_utf8 [] name then join now dirid (length s.entries) s' else none
  ]
]

unfoldable pub mknod : NfsTime → ℕ → Bytes → Ftype → SpecData → Sattr → D (ℕ × Fattr)
mknod now dirid name ftype spec attrs s = elim (children_of (get_at s.entries dirid)) [
  | none ↦ fail_with nfs3err_notdir s
  | some children ↦ mknod_under now dirid name ftype spec attrs children s
]
