-- ===== src/Mirror/Attributes.antt =====
-- fs_util.rs: a host's metadata as NFS attributes, and when attributes differ. `std::fs::Metadata` is
-- a record; its 64-bit times stand as their bit patterns.
use fernfs.Prelude.{ℕ, ◌%◌, ◌^◌, Bool, true, false, ◌||◌, not, ◌==◌, if◌then◌else◌}
use fernfs.Xdr.Nfs3.{Ftype, nf3reg, nf3dir, nf3lnk, Fattr}
use fernfs.Xdr.Nfs3.Codec.{ftype_code}

pub data FileKind : Type 0 where
  file symlink dir other : FileKind

pub record Metadata : Type 0 where
  pub kind : FileKind
  pub mode : ℕ
  pub nlink : ℕ
  pub uid : ℕ
  pub gid : ℕ
  pub size : ℕ
  pub atime : ℕ
  pub atime_nsec : ℕ
  pub mtime : ℕ
  pub mtime_nsec : ℕ
  pub ctime : ℕ
  pub ctime_nsec : ℕ
  pub dev : ℕ
  pub ino : ℕ

abbrev pub is_file : FileKind → Bool
is_file FileKind.file = true
is_file FileKind.symlink = false
is_file FileKind.dir = false
is_file FileKind.other = false

abbrev pub is_symlink : FileKind → Bool
is_symlink FileKind.symlink = true
is_symlink FileKind.file = false
is_symlink FileKind.dir = false
is_symlink FileKind.other = false

abbrev pub is_dir : FileKind → Bool
is_dir FileKind.dir = true
is_dir FileKind.file = false
is_dir FileKind.symlink = false
is_dir FileKind.other = false

-- `mode & 0x1FF`
unfoldable pub mode_unmask : ℕ → ℕ
mode_unmask mode = mode % 512

-- The three arms differ in the type of the file only.
unfoldable pub attributes : Ftype → ℕ → Metadata → Fattr
attributes ftype fid meta = record {
  ftype = ftype;
  mode = mode_unmask meta.mode;
  nlink = meta.nlink % 2 ^ 32;
  uid = meta.uid;
  gid = meta.gid;
  size = meta.size;
  used = meta.size;
  rdev = record { specdata1 = 0; specdata2 = 0 };
  fsid = 0;
  fileid = fid;
  atime = record { seconds = meta.atime % 2 ^ 32; nseconds = meta.atime_nsec % 2 ^ 32 };
  mtime = record { seconds = meta.mtime % 2 ^ 32; nseconds = meta.mtime_nsec % 2 ^ 32 };
  ctime = record { seconds = meta.ctime % 2 ^ 32; nseconds = meta.ctime_nsec % 2 ^ 32 };
}

unfoldable pub metadata_to_fattr3 : ℕ → Metadata → Fattr
metadata_to_fattr3 fid meta =
    if is_file meta.kind
    then attributes nf3reg fid meta
    else if is_symlink meta.kind
    then attributes nf3lnk fid meta
    else attributes nf3dir fid meta

unfoldable pub fattr3_differ : Fattr → Fattr → Bool
fattr3_differ lhs rhs =
    let lm = lhs.mtime in
    let rm = rhs.mtime in
    let lc = lhs.ctime in
    let rc = rhs.ctime in
    not (lhs.fileid == rhs.fileid)
    || not (lm.seconds == rm.seconds)
    || not (lm.nseconds == rm.nseconds)
    || not (lc.seconds == rc.seconds)
    || not (lc.nseconds == rc.nseconds)
    || not (lhs.size == rhs.size)
    || not (lhs.nlink == rhs.nlink)
    || not (ftype_code lhs.ftype == ftype_code rhs.ftype)
