-- ===== src/Demo/Entry.antt =====
-- examples/demo_fs/fs_entry.rs, fs_contents.rs and fs.rs: the entries, and the state. The bytes of a
-- file, which several entries may share, stand in a cell of their own, and a file has the cell's place.
use fernfs.Prelude.{
  ℕ, zero, suc, Bool, true, false, ◌&&◌, Option, none, some, List, [], ◌∷◌, ◌++◌, leb, ltb, ◌==◌,
  if◌then◌else◌, equal_lists, list_eq, nat_eq,
}
use fernfs.Io.{Bytes}
use fernfs.Xdr.Nfs3.{NfsResult, NfsStat, Ftype, nf3reg, nf3dir, Fattr, NfsTime}

-- `FSContents`
pub data Contents : Type 0 where
  file : ℕ → Contents
  directory : List ℕ → Contents

-- `FSEntry`
pub record DemoEntry : Type 0 where
  pub id : ℕ
  pub attr : Fattr
  pub name : Bytes
  pub parent : ℕ
  pub contents : Contents

-- `DemoFS`, its entries behind a lock, with the cells
pub record DemoFs : Type 0 where
  pub entries : List DemoEntry
  pub cells : List Bytes

-- A method; `none` is a panic, after which the lock is poisoned and every method panics.
abbrev pub D : Type 0 → Type 0
D A = DemoFs → Option (NfsResult A × DemoFs)

module _ {ℓ} {A : Type ℓ} where
  -- `get`, and an index
  unfoldable pub get_at : List A → ℕ → Option A
  get_at [] n = none
  get_at (x ∷ xs) zero = some x
  get_at (x ∷ xs) (suc n) = get_at xs n

  -- `get_mut` and a change
  unfoldable pub modify_at : ℕ → (A → A) → List A → List A
  modify_at n f [] = []
  modify_at zero f (x ∷ xs) = f x ∷ xs
  modify_at (suc n) f (x ∷ xs) = x ∷ modify_at n f xs

abbrev pub time_zero : NfsTime
time_zero = record { seconds = 0; nseconds = 0 }

-- The attributes of make_file and make_dir
unfoldable pub new_attr : Ftype → ℕ → ℕ → ℕ → Fattr
new_attr ftype mode id size = record {
  ftype = ftype;
  mode = mode;
  nlink = 1;
  uid = 507;
  gid = 507;
  size = size;
  used = size;
  rdev = record { specdata1 = 0; specdata2 = 0 };
  fsid = 0;
  fileid = id;
  atime = time_zero;
  mtime = time_zero;
  ctime = time_zero;
}

unfoldable pub make_file : Bytes → ℕ → ℕ → ℕ → ℕ → DemoEntry
make_file name id parent size cell = record {
  id = id;
  attr = new_attr nf3reg 493 id size;
  name = name;
  parent = parent;
  contents = Contents.file cell;
}

unfoldable pub make_dir : Bytes → ℕ → ℕ → List ℕ → DemoEntry
make_dir name id parent children = record {
  id = id;
  attr = new_attr nf3dir 511 id 0;
  name = name;
  parent = parent;
  contents = Contents.directory children;
}

abbrev pub rootdir : ℕ
rootdir = 1

-- `DemoFS::default`: the special entry 0, and the root
unfoldable pub new_demo : DemoFs
new_demo = record {
  entries = make_file [] 0 0 0 0 ∷ make_dir (47 ∷ []) 1 1 [] ∷ [];
  cells = [] ∷ [];
}

-- The ranges of the bytes that follow a first byte of UTF-8.
unfoldable pub following : ℕ → Option (List (ℕ × ℕ))
following b =
    let next : ℕ × ℕ = (128, 191) in
    if ltb b 128
    then some []
    else if ltb b 194
    then none
    else if ltb b 224
    then some (next ∷ [])
    else if b == 224
    then some ((160, 191) ∷ next ∷ [])
    else if b == 237
    then some ((128, 159) ∷ next ∷ [])
    else if ltb b 240
    then some (next ∷ next ∷ [])
    else if b == 240
    then some ((144, 191) ∷ next ∷ next ∷ [])
    else if ltb b 244
    then some (next ∷ next ∷ next ∷ [])
    else if b == 244
    then some ((128, 143) ∷ next ∷ next ∷ [])
    else none

-- `str::from_utf8(...).is_ok()`, with the ranges that are due.
unfoldable pub is_utf8 : List (ℕ × ℕ) → Bytes → Bool
is_utf8 [] [] = true
is_utf8 (range ∷ ranges) [] = false
is_utf8 ((lo, hi) ∷ ranges) (b ∷ bs) = leb lo b && leb b hi && is_utf8 ranges bs
is_utf8 [] (b ∷ bs) = elim (following b) [ none ↦ false | some ranges ↦ is_utf8 ranges bs ]

abbrev pub fail_with : {A : Type 0} → NfsStat → D A
fail_with e s = some (NfsResult.err e, s)

abbrev pub answer_with : {A : Type 0} → A → D A
answer_with a s = some (NfsResult.ok a, s)

unfoldable pub modify_entry_at : ℕ → (DemoEntry → DemoEntry) → DemoFs → DemoFs
modify_entry_at id f s = record s { entries = modify_at id f s.entries }

-- A new entry, at the end.
unfoldable pub push_entry : DemoEntry → DemoFs → DemoFs
push_entry e s = record s { entries = s.entries ++ (e ∷ []) }

-- A new cell, at the end; its place is the number of cells before.
unfoldable pub push_cell : Bytes → DemoFs → DemoFs
push_cell bytes s = record s { cells = s.cells ++ (bytes ∷ []) }

unfoldable pub push_child : ℕ → DemoEntry → DemoEntry
push_child id e = record e {
  contents = elim e.contents [
    | Contents.file cell ↦ Contents.file cell
    | Contents.directory children ↦ Contents.directory (children ++ (id ∷ []))
  ];
}

-- `retain`
unfoldable pub retain_not : ℕ → List ℕ → List ℕ
retain_not id [] = []
retain_not id (i ∷ is) = let rest = retain_not id is in if i == id then rest else i ∷ rest

unfoldable pub drop_child : ℕ → DemoEntry → DemoEntry
drop_child id e = record e {
  contents = elim e.contents [
    | Contents.file cell ↦ Contents.file cell
    | Contents.directory children ↦ Contents.directory (retain_not id children)
  ];
}

-- The first child of a name.
unfoldable pub child_named : Bytes → List ℕ → DemoFs → Option ℕ
child_named name [] s = none
child_named name (i ∷ is) s =
    let rest = child_named name is s in
    elim (get_at s.entries i) [
      | none ↦ rest
      | some e ↦ if equal_lists e.name name then some i else rest
    ]

-- The children, if the entry is a directory.
abbrev pub children_of : Option DemoEntry → Option (List ℕ)
children_of none = none
children_of (some e) = elim e.contents [
  | Contents.file cell ↦ none
  | Contents.directory children ↦ some children
]
