-- ===== src/Vfs.antt =====
-- vfs.rs: what the server needs of a file system, and the default methods of `NFSFileSystem`.
pub mod Handles
pub mod Permissions
pub mod Paths
pub mod Listing
pub mod Defaults
use fernfs.Prelude.{ℕ, Bool, List}
use fernfs.Io.{Bytes}
use fernfs.Xdr.Nfs3.{NfsResult, Ftype, SpecData, Fattr, Sattr, StableHow}
use fernfs.Xdr.Nfs3.Fs.{FsInfo, FsStat}
use fernfs.Xdr.Rpc.{AuthUnix}

pub data Capabilities : Type 0 where
  read_only read_write : Capabilities

pub record DirEntrySimple : Type 0 where
  pub fileid : ℕ
  pub name : Bytes

pub record DirEntry : Type 0 where
  pub fileid : ℕ
  pub name : Bytes
  pub attr : Fattr

-- `ReadDirResult` and `ReadDirSimpleResult`, which differ in their entries
pub record ReadDirResult (E : Type 0) : Type 0 where
  pub entries : List E
  pub end : Bool

-- The methods that an exported file system supplies, over its own state. A method takes effect at
-- one moment: what runs between two calls of the server changes the state only through the server.
-- `check_access`, `readdir_index`, `readdir_simple_index`, `fsinfo`, `fsstat` and the values have
-- defaults, which a file system may replace.
pub record FileSystem (S : Type 0) : Type 0 where
  pub generation : ℕ
  pub capabilities : Capabilities
  pub root_dir : ℕ
  pub fsinfo_rtmax : ℕ
  pub lookup : ℕ → Bytes → S → NfsResult ℕ × S
  pub getattr : ℕ → S → NfsResult Fattr × S
  pub setattr : ℕ → Sattr → S → NfsResult Fattr × S
  pub read : ℕ → ℕ → ℕ → S → NfsResult (Bytes × Bool) × S
  pub write : ℕ → ℕ → Bytes → StableHow → S → NfsResult (Fattr × StableHow × ℕ) × S
  pub create : ℕ → Bytes → Sattr → S → NfsResult (ℕ × Fattr) × S
  pub create_exclusive : ℕ → Bytes → Bytes → S → NfsResult ℕ × S
  pub mkdir : ℕ → Bytes → S → NfsResult (ℕ × Fattr) × S
  pub remove : ℕ → Bytes → S → NfsResult (Unit {0}) × S
  pub rename : ℕ → Bytes → ℕ → Bytes → S → NfsResult (Unit {0}) × S
  pub symlink : ℕ → Bytes → Bytes → Sattr → S → NfsResult (ℕ × Fattr) × S
  pub readlink : ℕ → S → NfsResult Bytes × S
  pub link : ℕ → ℕ → Bytes → S → NfsResult Fattr × S
  pub mknod : ℕ → Bytes → Ftype → SpecData → Sattr → S → NfsResult (ℕ × Fattr) × S
  pub commit : ℕ → ℕ → ℕ → S → NfsResult Fattr × S
  pub check_access : ℕ → AuthUnix → ℕ → S → NfsResult ℕ × S
  pub readdir : ℕ → ℕ → ℕ → S → NfsResult (ReadDirResult DirEntry) × S
  pub readdir_index : ℕ → ℕ → ℕ → S → NfsResult (ReadDirResult DirEntry) × S
  pub readdir_simple_index : ℕ → ℕ → ℕ → S → NfsResult (ReadDirResult DirEntrySimple) × S
  pub fsinfo : ℕ → S → NfsResult FsInfo × S
  pub fsstat : ℕ → S → NfsResult FsStat × S
  pub pathconf_linkmax : ℕ
  pub pathconf_name_max : ℕ
  pub pathconf_no_trunc : Bool
  pub pathconf_chown_restricted : Bool
  pub pathconf_case_insensitive : Bool
  pub pathconf_case_preserving : Bool
