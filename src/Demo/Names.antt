-- ===== src/Demo/Names.antt =====
-- examples/demo_fs/fs.rs: a rename to the same name, and a size that the other links of a file do not
-- get.
use fernfs.Prelude.{
  ℕ, ◌-◌, ◌≤◌, ◌≡◌, refl, ◌∙◌, Bool, true, false, ◌||◌, some, List, [], ◌∷◌, ◌++◌, arith, leb, ◌==◌,
  ==_iff, nat_eq, list_eq, length, take, replicate, length-append, length-take, length-replicate,
}
use fernfs.Io.{Bytes}
use fernfs.Xdr.Nfs3.{NfsResult, Fattr, Sattr, NfsTime}
use fernfs.Demo.Entry.{
  Contents, DemoEntry, DemoFs, get_at, modify_at, modify_entry_at, drop_child, retain_not,
  child_named, children_of,
}
use fernfs.Demo.Look.{getattr}
use fernfs.Demo.Change.{
  isize_max, resize, with_sattr, resize_contents, setattr, rename, rename_from, rename_to,
  rename_child, move_between, make_room,
}
use fernfs.Demo.Sharing.{get_at-modify_at}

-- Whether a directory lists an identifier.
unfoldable pub lists_id : ℕ → List ℕ → Bool
lists_id id [] = false
lists_id id (i ∷ is) = i == id || lists_id id is

lists_id-retain_not : (id : ℕ) (is : List ℕ) → lists_id id (retain_not id is) ≡ false
unfolding lists_id retain_not
lists_id-retain_not id [] = refl
lists_id-retain_not id (i ∷ is) = ground (arith, lists_id-retain_not id is)

resize_lem :
    (size : ℕ) (bytes : Bytes)
    → size ≤ isize_max
    → (b : Bytes) × (resize size bytes ≡ some b) × (length b ≡ size)
unfolding resize
resize_lem size bytes h =
    let fits : leb size isize_max ≡ true = ground arith in
    (
      take size bytes ++ replicate (size - length bytes) 0,
      rw fits refl,
      rw
          (
            length-append (take size bytes) (replicate (size - length bytes) 0),
            length-take size bytes,
            length-replicate {A = ℕ} (size - length bytes) 0,
          )
          (ground arith),
    )

module _ (now : NfsTime) (id id' cell size : ℕ) (set : Sattr) (bytes : Bytes) (s : DemoFs)
    (e e' : DemoEntry) where
  -- The setting of a size through one link of a file resizes its bytes, which the other links share,
  -- but leaves the attributes of the other links as they were, with the old size.
  pub setattr_size_stale :
      get_at s.entries id ≡ some e
      → e.contents ≡ Contents.file cell
      → get_at s.entries id' ≡ some e'
      → (id == id') ≡ false
      → get_at s.cells cell ≡ some bytes
      → set.size ≡ some size
      → size ≤ isize_max
      → (attr : Fattr) × (s' : DemoFs) × (b : Bytes) × (setattr now id set s
          ≡ some (NfsResult.ok attr, s'))
        × (get_at s'.cells cell ≡ some b)
        × (length b ≡ size)
        × (getattr id' s' ≡ some (NfsResult.ok e'.attr, s'))
  unfolding setattr resize_contents getattr modify_entry_at
  setattr_size_stale here is_file there other stored wanted h =
      let (b, made, long) = resize_lem size bytes h in
      let s' : DemoFs = record {
        entries = modify_at id (with_sattr set now) s.entries;
        cells = modify_at cell (λ x. b) s.cells;
      } in
      let resized : resize_contents set.size e.contents s
          ≡ some (record s { cells = modify_at cell (λ x. b) s.cells }) =
        rw (wanted, is_file, resize_contents, stored, made) refl in
      let kept : get_at s'.entries id' ≡ some e' =
        get_at-modify_at id id' (with_sattr set now) s.entries e here ∙ rw other there in
      (
        (with_sattr set now e).attr,
        s',
        b,
        rw (setattr, here, resized) refl,
        get_at-modify_at cell cell (λ x. b) s.cells bytes stored ∙ ground arith,
        long,
        rw (getattr, kept) refl,
      )

module _ (dirid id : ℕ) (name : Bytes) (children : List ℕ) (s : DemoFs) (d e : DemoEntry) where
  -- The steps of a rename within one directory to the same name.
  same_from :
      get_at s.entries dirid ≡ some d
      → d.contents ≡ Contents.directory children
      → rename dirid name dirid name s
        ≡ rename_from dirid name dirid name (Contents.directory children) s
  unfolding rename
  same_from here is_dir = rw (rename, here, is_dir) refl

  same_to :
      child_named name children s ≡ some id
      → rename_from dirid name dirid name (Contents.directory children) s
        ≡ rename_to dirid dirid id name s
  unfolding rename_from
  same_to named = rw (rename_from, named) refl

  same_child :
      child_named name children s ≡ some id
      → children_of (get_at s.entries dirid) ≡ some children
      → rename_to dirid dirid id name s ≡ rename_child dirid dirid id name (some id) s
  unfolding rename_to
  same_child named listed = rw (rename_to, listed, named) refl

  same_done :
      (s1 : DemoFs)
      → move_between dirid dirid id (make_room dirid (some id) s) ≡ s1
      → get_at s1.entries id ≡ some e
      → rename_child dirid dirid id name (some id) s
        ≡ some (NfsResult.ok tt, modify_entry_at id (λ e'. record e' { name = name }) s1)
  unfolding rename_child
  same_done s1 moved still = rw (rename_child, moved, still, moved) refl

module _ (dirid id : ℕ) (name : Bytes) (children : List ℕ) (s : DemoFs) (d e : DemoEntry) where
  -- A rename of a child to the name that it has already, in the same directory, takes it out of the
  -- directory: the rename succeeds, and the directory does not list it any more.
  pub rename_same :
      get_at s.entries dirid ≡ some d
      → d.contents ≡ Contents.directory children
      → child_named name children s ≡ some id
      → get_at s.entries id ≡ some e
      → (dirid == id) ≡ false
      → (s' : DemoFs) × (left : List ℕ) × (rename dirid name dirid name s
          ≡ some (NfsResult.ok tt, s'))
        × (children_of (get_at s'.entries dirid) ≡ some left)
        × (lists_id id left ≡ false)
  unfolding move_between make_room modify_entry_at
  rename_same here is_dir named there other =
      let s1 = modify_entry_at dirid (drop_child id) s in
      let s2 = modify_entry_at id (λ e'. record e' { name = name }) s1 in
      let still : get_at s1.entries id ≡ some e =
        get_at-modify_at dirid id (drop_child id) s.entries d here ∙ rw other there in
      let dir : get_at s1.entries dirid ≡ some (drop_child id d) =
        get_at-modify_at dirid dirid (drop_child id) s.entries d here ∙ ground arith in
      let reverse : (id == dirid) ≡ false = ground (arith, ==_iff id dirid, ==_iff dirid id) in
      let after : get_at s2.entries dirid ≡ some (drop_child id d) =
        get_at-modify_at id dirid (λ e'. record e' { name = name }) s1.entries e still
        ∙ rw reverse dir in
      let listed : children_of (get_at s.entries dirid) ≡ some children = rw (here, is_dir) refl in
      let self : (dirid == dirid) ≡ true = ground arith in
      let moved : move_between dirid dirid id (make_room dirid (some id) s) ≡ s1 = rw self refl in
      (
        s2,
        retain_not id children,
        same_from dirid id name children s d e here is_dir
            ∙ same_to dirid id name children s d e named
            ∙ same_child dirid id name children s d e named listed
            ∙ same_done dirid id name children s d e s1 moved still,
        rw after (unfold drop_child in rw is_dir refl),
        lists_id-retain_not id children,
      )
