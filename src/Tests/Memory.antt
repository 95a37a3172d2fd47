-- ===== src/Tests/Memory.antt =====
-- The file system in memory, with a file that has two names, a and b.
use fernfs.Prelude.{ℕ, ◌≡◌, refl, true, false, some, List, [], ◌∷◌, arith, leb, length, equal_lists}
use fernfs.Io.{Bytes}
use fernfs.Xdr.Nfs3.{NfsResult, Fattr, Sattr, default_sattr, SpecData, file_sync, nf3fifo}
use fernfs.Demo.Entry.{
  DemoEntry, DemoFs, get_at, make_file, make_dir, time_zero, child_named, children_of,
}
use fernfs.Demo.Creating.{lookup-create}
use fernfs.Demo.Change.{or_old}
use fernfs.Demo.Look.{lookup}
use fernfs.Demo.Entry.{is_utf8}
use fernfs.Demo.Look.{getattr, read}
use fernfs.Demo.Change
use fernfs.Demo.Sharing.{read-write}
use fernfs.Demo.Create
use fernfs.Demo.Look.{readdir}
use fernfs.Vfs.{DirEntry, ReadDirResult}
use fernfs.Prelude.{◌-◌, take, drop}
use fernfs.Demo.Sound.{IsSound, LeavesSound}
use fernfs.Demo.Sound.Changes.{change-LeavesSound}
use fernfs.Demo.Sound.Listing.{fileids, page_size, readdir_lem}
use fernfs.Demo.Names.{lists_id, setattr_size_stale, rename_same}

abbrev root_entry : DemoEntry
root_entry = make_dir (47 ∷ []) 1 1 (2 ∷ 3 ∷ [])

abbrev a_entry : DemoEntry
a_entry = make_file (97 ∷ []) 2 1 3 1

abbrev b_entry : DemoEntry
b_entry = make_file (98 ∷ []) 3 1 3 1

abbrev memory : DemoFs
memory = record {
  entries = make_file [] 0 0 0 0 ∷ root_entry ∷ a_entry ∷ b_entry ∷ [];
  cells = [] ∷ (1 ∷ 2 ∷ 3 ∷ []) ∷ [];
}

-- Written through a, behind the end, and read through b.
read-write_example :
    (attr : Fattr) × (s' : DemoFs) × (Change.write 2 5 (8 ∷ 9 ∷ []) memory
      ≡ some (NfsResult.ok (attr, file_sync, 2), s'))
    × (read 3 5 2 s' ≡ some (NfsResult.ok (8 ∷ 9 ∷ [], true), s'))
unfolding get_at make_file
read-write_example =
    read-write 2 3 1 5 (8 ∷ 9 ∷ []) (1 ∷ 2 ∷ 3 ∷ []) memory a_entry b_entry refl refl refl refl refl
      (omega arith)

abbrev shorter : Sattr
shorter = record default_sattr { size = some 1 }

setattr_size_stale_example :
    (attr : Fattr) × (s' : DemoFs) × (b : Bytes) × (Change.setattr time_zero 2 shorter memory
      ≡ some (NfsResult.ok attr, s'))
    × (get_at s'.cells 1 ≡ some b)
    × (length b ≡ 1)
    × (getattr 3 s' ≡ some (NfsResult.ok b_entry.attr, s'))
unfolding get_at make_file
setattr_size_stale_example =
    setattr_size_stale time_zero 2 3 1 1 shorter (1 ∷ 2 ∷ 3 ∷ []) memory a_entry b_entry refl refl
      refl refl refl refl (omega arith)

rename_same_example :
    (s' : DemoFs) × (left : List ℕ) × (Change.rename 1 (97 ∷ []) 1 (97 ∷ []) memory
      ≡ some (NfsResult.ok tt, s'))
    × (children_of (get_at s'.entries 1) ≡ some left)
    × (lists_id 2 left ≡ false)
unfolding get_at make_dir make_file child_named equal_lists
rename_same_example =
    rename_same 1 2 (97 ∷ []) (2 ∷ 3 ∷ []) memory root_entry a_entry refl refl refl refl refl

abbrev no_device : SpecData
no_device = record { specdata1 = 0; specdata2 = 0 }

memory-IsSound : IsSound memory
unfolding make_file make_dir
memory-IsSound = record {
  all_fit = (omega arith, ((omega arith, (omega arith, tt)), (omega arith, (omega arith, tt))));
}

-- The second page of the root, of one entry.
readdir_lem_example :
    (r : ReadDirResult DirEntry) × (readdir 1 1 1 memory ≡ some (NfsResult.ok r, memory))
    × (fileids r.entries ≡ take (page_size 1) (drop 1 (2 ∷ 3 ∷ [])))
    × (r.end ≡ leb (length {A = ℕ} (2 ∷ 3 ∷ []) - 1) (page_size 1))
unfolding get_at make_dir
readdir_lem_example =
    readdir_lem memory memory-IsSound 1 1 1 root_entry (2 ∷ 3 ∷ []) refl refl (omega arith)

change-LeavesSound_example :
    LeavesSound (Change.write 2 3 (98 ∷ []) memory)
    × LeavesSound (Change.setattr time_zero 2 shorter memory)
    × LeavesSound (Change.commit time_zero 2 3 0 memory)
    × LeavesSound (Create.create 1 (98 ∷ []) shorter memory)
    × LeavesSound (Create.mkdir time_zero 1 (98 ∷ []) memory)
    × LeavesSound (Create.symlink time_zero 1 (98 ∷ []) (97 ∷ []) shorter memory)
    × LeavesSound (Create.mknod time_zero 1 (98 ∷ []) nf3fifo no_device shorter memory)
    × LeavesSound (Create.link 2 1 (98 ∷ []) memory)
    × LeavesSound (Change.remove 1 (98 ∷ []) memory)
    × LeavesSound (Change.rename 1 (98 ∷ []) 1 (97 ∷ []) memory)
change-LeavesSound_example =
    change-LeavesSound memory memory-IsSound time_zero 2 1 1 3 0 (98 ∷ []) (97 ∷ []) shorter nf3fifo
      no_device

-- The root has the name a already.
lookup-create_example :
    (attr : Fattr) × (s' : DemoFs) × (Create.create 1 (97 ∷ []) shorter memory
      ≡ some (NfsResult.ok (4, attr), s'))
    × (lookup 1 (97 ∷ []) s'
        ≡ some (NfsResult.ok (or_old (child_named (97 ∷ []) (2 ∷ 3 ∷ []) memory) 4), s'))
unfolding get_at make_dir is_utf8 equal_lists fernfs.Demo.Entry.following
lookup-create_example =
    lookup-create memory memory-IsSound 1 (97 ∷ []) shorter root_entry (2 ∷ 3 ∷ []) refl refl refl
      refl refl
