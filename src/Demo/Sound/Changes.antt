-- ===== src/Demo/Sound/Changes.antt =====
-- examples/demo_fs/fs.rs: the state is sound, whatever is called.
use fernfs.Prelude.{ℕ}
use fernfs.Io.{Bytes}
use fernfs.Xdr.Nfs3.{Ftype, NfsTime, Sattr, SpecData}
use fernfs.Demo.Entry.{DemoFs}
use fernfs.Demo.Change.{write, setattr, remove, rename, commit}
use fernfs.Demo.Create.{create, mkdir, symlink, link, mknod}
use fernfs.Demo.Sound.{IsSound, LeavesSound}
use fernfs.Demo.Sound.Methods.{write-LeavesSound, setattr-LeavesSound, commit-LeavesSound}
use fernfs.Demo.Sound.Names.{remove-LeavesSound, rename-LeavesSound}
use fernfs.Demo.Sound.Creation.{
  create-LeavesSound, mkdir-LeavesSound, symlink-LeavesSound, mknod-LeavesSound,
}
use fernfs.Demo.Sound.Linking.{link-LeavesSound}

-- From a sound state, in which each child of a directory is an entry and the bytes of each file
-- exist, every method that changes the state either panics or leaves a sound state, on each of its
-- branches, errors included.
pub change-LeavesSound :
    (s : DemoFs)
    → IsSound s
    → (now : NfsTime) (id dirid to_dirid n count : ℕ) (name name' : Bytes) (set : Sattr)
      (ftype : Ftype) (spec : SpecData)
    → LeavesSound (write id n name s)
      × LeavesSound (setattr now id set s)
      × LeavesSound (commit now id n count s)
      × LeavesSound (create dirid name set s)
      × LeavesSound (mkdir now dirid name s)
      × LeavesSound (symlink now dirid name name' set s)
      × LeavesSound (mknod now dirid name ftype spec set s)
      × LeavesSound (link id dirid name s)
      × LeavesSound (remove dirid name s)
      × LeavesSound (rename dirid name to_dirid name' s)
change-LeavesSound s c now id dirid to_dirid n count name name' set ftype spec = (
  write-LeavesSound s c id n name,
  setattr-LeavesSound s c now id set,
  commit-LeavesSound s c now id n count,
  create-LeavesSound s c dirid name set,
  mkdir-LeavesSound s c now dirid name,
  symlink-LeavesSound s c now dirid name name' set,
  mknod-LeavesSound s c now dirid name ftype spec set,
  link-LeavesSound s c id dirid name,
  remove-LeavesSound s c dirid name,
  rename-LeavesSound s c dirid name to_dirid name',
)
