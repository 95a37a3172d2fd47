-- ===== src/Xdr/Nfs3.antt =====
-- protocol/xdr/nfs3/mod.rs: the data types of NFS version 3.
pub mod Codec
pub mod RoundTrip
pub mod Args
pub mod Fs
pub mod Dir
use fernfs.Prelude.{ℕ, Option, none}
use fernfs.Io.{Bytes}

pub data NfsStat : Type 0 where
  nfs3_ok nfs3err_perm nfs3err_noent nfs3err_io nfs3err_nxio nfs3err_acces nfs3err_exist : NfsStat
  nfs3err_xdev nfs3err_nodev nfs3err_notdir nfs3err_isdir nfs3err_inval nfs3err_fbig : NfsStat
  nfs3err_nospc nfs3err_rofs nfs3err_mlink nfs3err_nametoolong nfs3err_notempty : NfsStat
  nfs3err_dquot nfs3err_stale nfs3err_remote nfs3err_badhandle nfs3err_not_sync : NfsStat
  nfs3err_bad_cookie nfs3err_notsupp nfs3err_toosmall nfs3err_serverfault : NfsStat
  nfs3err_badtype nfs3err_jukebox : NfsStat

-- What a method of the file system returns.
pub data NfsResult {ℓ} (A : Type ℓ) : Type ℓ where
  ok : A → NfsResult A
  err : NfsStat → NfsResult A

pub data Ftype : Type 0 where
  nf3reg nf3dir nf3blk nf3chr nf3lnk nf3sock nf3fifo : Ftype

pub record SpecData : Type 0 where
  pub specdata1 : ℕ
  pub specdata2 : ℕ

pub record NfsTime : Type 0 where
  pub seconds : ℕ
  pub nseconds : ℕ

pub record Fattr : Type 0 where
  pub ftype : Ftype
  pub mode : ℕ
  pub nlink : ℕ
  pub uid : ℕ
  pub gid : ℕ
  pub size : ℕ
  pub used : ℕ
  pub rdev : SpecData
  pub fsid : ℕ
  pub fileid : ℕ
  pub atime : NfsTime
  pub mtime : NfsTime
  pub ctime : NfsTime

-- `set_atime` and `set_mtime`, which are alike
pub data SetTime : Type 0 where
  dont_change set_to_server_time : SetTime
  set_to_client_time : NfsTime → SetTime

pub record Sattr : Type 0 where
  pub mode : Option ℕ
  pub uid : Option ℕ
  pub gid : Option ℕ
  pub size : Option ℕ
  pub atime : SetTime
  pub mtime : SetTime

abbrev pub default_sattr : Sattr
default_sattr = record {
  mode = none;
  uid = none;
  gid = none;
  size = none;
  atime = dont_change;
  mtime = dont_change;
}

-- A file handle is opaque data, `nfs_fh3`.
pub record DirOpArgs : Type 0 where
  pub dir : Bytes
  pub name : Bytes

pub record WccAttr : Type 0 where
  pub size : ℕ
  pub mtime : NfsTime
  pub ctime : NfsTime

pub record WccData : Type 0 where
  pub before : Option WccAttr
  pub after : Option Fattr

abbrev pub default_wcc_data : WccData
default_wcc_data = record { before = none; after = none }

pub data StableHow : Type 0 where
  unstable data_sync file_sync : StableHow

pub data CreateMode : Type 0 where
  unchecked guarded exclusive : CreateMode
