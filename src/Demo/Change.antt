-- ===== src/Demo/Change.antt =====
-- examples/demo_fs/fs.rs: writing, setting attributes, removing and renaming. The clock is an argument.
use fernfs.Prelude.{
  ℕ, ◌+◌, ◌-◌, ◌%◌, ◌^◌, ◌&&◌, Option, none, some, List, [], ◌∷◌, ◌++◌, leb, ltb, ◌==◌, nat_eq,
  if◌then◌else◌, length, take, drop, replicate,
}
use fernfs.Io.{Bytes}
use fernfs.Xdr.Nfs3.{
  NfsResult, nfs3err_noent, nfs3err_notdir, nfs3err_isdir, nfs3err_io, Fattr, NfsTime, SetTime,
  dont_change, set_to_server_time, set_to_client_time, Sattr, StableHow, file_sync,
}
use fernfs.Demo.Entry.{
  Contents, DemoEntry, DemoFs, D, get_at, modify_at, fail_with, answer_with, modify_entry_at,
  push_cell, push_child, drop_child, child_named, children_of,
}
use fernfs.Demo.Look.{getattr}

-- The longest that a vector can be.
abbrev pub isize_max : ℕ
isize_max = 9_223_372_036_854_775_807

-- `resize(size, 0)`, which panics where no vector is so long.
unfoldable pub resize : ℕ → Bytes → Option Bytes
resize size bytes =
    if leb size isize_max then some (take size bytes ++ replicate (size - length bytes) 0) else none

-- `copy_from_slice` into a slice, which is to lie within the bytes.
unfoldable pub copy_from_slice : ℕ → ℕ → Bytes → Bytes → Option Bytes
copy_from_slice start stop payload bytes =
    if leb start stop && leb stop (length bytes)
    then some (take start bytes ++ (payload ++ drop stop bytes))
    else none

unfoldable pub written_to : ℕ → ℕ → Bytes → Bytes → Option Bytes
written_to offset stop payload bytes =
    elim (if ltb (length bytes) stop then resize stop bytes else some bytes) [
      | none ↦ none
      | some grown ↦ copy_from_slice offset stop payload grown
    ]

-- The bytes of a file after a write. The end of what is written wraps round.
unfoldable pub write_bytes : ℕ → Bytes → Bytes → Option Bytes
write_bytes offset payload bytes =
    written_to offset ((offset + length payload) % 2 ^ 64) payload bytes

unfoldable pub set_sizes : ℕ → DemoEntry → DemoEntry
set_sizes size e = record e { attr = record (e.attr) { size = size; used = size } }

-- An entry that shares the cell gets the new size.
unfoldable pub resized : ℕ → ℕ → DemoEntry → DemoEntry
resized cell size e = elim e.contents [
  | Contents.directory children ↦ e
  | Contents.file c ↦ if c == cell then set_sizes size e else e
]

unfoldable pub share_size : ℕ → ℕ → List DemoEntry → List DemoEntry
share_size cell size [] = []
share_size cell size (e ∷ es) = resized cell size e ∷ share_size cell size es

unfoldable pub write_cell : ℕ → ℕ → Bytes → DemoFs → Option DemoFs
write_cell cell offset payload s = elim (get_at s.cells cell) [
  | none ↦ none
  | some bytes ↦ elim (write_bytes offset payload bytes) [
    | none ↦ none
    | some bytes' ↦ some (record {
      entries = share_size cell (length bytes') s.entries;
      cells = modify_at cell (λ x. bytes') s.cells;
    })
  ]
]

unfoldable pub write_answer : ℕ → Bytes → D (Fattr × StableHow × ℕ)
write_answer id payload s = elim (getattr id s) [
  | none ↦ none
  | some (r, s') ↦ elim r [
    | NfsResult.err e ↦ fail_with e s'
    | NfsResult.ok attr ↦ answer_with (attr, file_sync, length payload % 2 ^ 32) s'
  ]
]

unfoldable pub write : ℕ → ℕ → Bytes → D (Fattr × StableHow × ℕ)
write id offset payload s = elim (get_at s.entries id) [
  | none ↦ fail_with nfs3err_noent s
  | some e ↦ elim e.contents [
    | Contents.directory children ↦ fail_with nfs3err_io s
    | Contents.file cell ↦ elim (write_cell cell offset payload s) [
      | none ↦ none
      | some s' ↦ write_answer id payload s'
    ]
  ]
]

abbrev pub time_after : SetTime → NfsTime → NfsTime → NfsTime
time_after dont_change now old = old
time_after set_to_server_time now old = now
time_after (set_to_client_time time) now old = time

abbrev pub or_old : Option ℕ → ℕ → ℕ
or_old none old = old
or_old (some n) old = n

-- All but the mode.
unfoldable pub with_sattr : Sattr → NfsTime → DemoEntry → DemoEntry
with_sattr set now e =
    let attr = e.attr in
    record e {
      attr = record attr {
        atime = time_after set.atime now attr.atime;
        mtime = time_after set.mtime now attr.mtime;
        uid = or_old set.uid attr.uid;
        gid = or_old set.gid attr.gid;
        size = or_old set.size attr.size;
        used = or_old set.size attr.used;
      };
    }

unfoldable pub resize_contents : Option ℕ → Contents → DemoFs → Option DemoFs
resize_contents none contents s = some s
resize_contents (some size) (Contents.directory children) s = some s
resize_contents (some size) (Contents.file cell) s = elim (get_at s.cells cell) [
  | none ↦ none
  | some bytes ↦ elim (resize size bytes) [
    | none ↦ none
    | some bytes' ↦ some (record s { cells = modify_at cell (λ x. bytes') s.cells })
  ]
]

unfoldable pub setattr : NfsTime → ℕ → Sattr → D Fattr
setattr now id set s = elim (get_at s.entries id) [
  | none ↦ fail_with nfs3err_noent s
  | some e ↦ elim (resize_contents set.size e.contents s) [
    | none ↦ none
    | some s' ↦
        let e' = with_sattr set now e in
        answer_with e'.attr (modify_entry_at id (with_sattr set now) s')
  ]
]

-- The bytes go to a new cell, which is empty.
unfoldable pub erase : ℕ → DemoFs → DemoFs
erase id s =
    let cell = length s.cells in
    modify_entry_at id (λ e. record e { name = []; contents = Contents.file cell }) (push_cell [] s)

unfoldable pub remove_child : ℕ → ℕ → D (Unit {0})
remove_child dirid id s = elim (get_at s.entries id) [
  | none ↦ none
  | some e ↦ elim e.contents [
    | Contents.directory children ↦ fail_with nfs3err_isdir s
    | Contents.file cell ↦ answer_with tt (erase id (modify_entry_at dirid (drop_child id) s))
  ]
]

unfoldable pub remove : ℕ → Bytes → D (Unit {0})
remove dirid name s = elim (get_at s.entries dirid) [
  | none ↦ fail_with nfs3err_noent s
  | some d ↦ elim d.contents [
    | Contents.file cell ↦ fail_with nfs3err_notdir s
    | Contents.directory children ↦ elim (child_named name children s) [
      | none ↦ fail_with nfs3err_noent s
      | some id ↦ remove_child dirid id s
    ]
  ]
]

unfoldable pub move_between : ℕ → ℕ → ℕ → DemoFs → DemoFs
move_between from_dirid to_dirid id s =
    if from_dirid == to_dirid
    then s
    else modify_entry_at id (λ e. record e { parent = to_dirid })
        (modify_entry_at to_dirid (push_child id) (modify_entry_at from_dirid (drop_child id) s))

-- What has the new name in the target directory goes from its list first.
unfoldable pub make_room : ℕ → Option ℕ → DemoFs → DemoFs
make_room to_dirid none s = s
make_room to_dirid (some id) s = modify_entry_at to_dirid (drop_child id) s

-- An index that is out of range panics.
unfoldable pub rename_child : ℕ → ℕ → ℕ → Bytes → Option ℕ → D (Unit {0})
rename_child from_dirid to_dirid id to_name to_remove s =
    let moved = move_between from_dirid to_dirid id (make_room to_dirid to_remove s) in
    elim (get_at moved.entries id) [
      | none ↦ none
      | some e ↦ answer_with tt (modify_entry_at id (λ e'. record e' { name = to_name }) moved)
    ]

unfoldable pub rename_to : ℕ → ℕ → ℕ → Bytes → D (Unit {0})
rename_to from_dirid to_dirid id to_name s = elim (children_of (get_at s.entries to_dirid)) [
  | none ↦ fail_with nfs3err_notdir s
  | some children ↦ rename_child from_dirid to_dirid id to_name (child_named to_name children s) s
]

unfoldable pub rename_from : ℕ → Bytes → ℕ → Bytes → Contents → D (Unit {0})
rename_from from_dirid from_name to_dirid to_name (Contents.file cell) s =
    fail_with nfs3err_notdir s
rename_from from_dirid from_name to_dirid to_name (Contents.directory children) s =
    elim (child_named from_name children s) [
      | none ↦ fail_with nfs3err_noent s
      | some id ↦ rename_to from_dirid to_dirid id to_name s
    ]

unfoldable pub rename : ℕ → Bytes → ℕ → Bytes → D (Unit {0})
rename from_dirid from_name to_dirid to_name s = elim (get_at s.entries from_dirid) [
  | none ↦ none
  | some d ↦ rename_from from_dirid from_name to_dirid to_name d.contents s
]

unfoldable pub set_mtime : NfsTime → DemoEntry → DemoEntry
set_mtime now e = record e { attr = record (e.attr) { mtime = now } }

unfoldable pub commit : NfsTime → ℕ → ℕ → ℕ → D Fattr
commit now id offset count s = elim (get_at s.entries id) [
  | none ↦ fail_with nfs3err_noent s
  | some e ↦ let e' = set_mtime now e in answer_with e'.attr (modify_entry_at id (set_mtime now) s)
]
