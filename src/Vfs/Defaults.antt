-- ===== src/Vfs/Defaults.antt =====
-- vfs.rs: the default methods that ask for access and describe the file system.
use fernfs.Prelude.{ℕ, Bool, true, false}
use fernfs.Xdr.Rpc.{AuthUnix}
use fernfs.Xdr.Nfs3.{NfsResult, NfsTime}
use fernfs.Xdr.Nfs3.Fs.{FsInfo, FsStat}
use fernfs.Vfs.{FileSystem, DirEntrySimple, ReadDirResult}
use fernfs.Vfs.Permissions.{access_mask}
use fernfs.Vfs.Listing.{map_ok, from_readdir_result}
use fernfs.Nfs.Steps.{to_option}

-- The values of FSINFO but rtmax, which READ asks for too. FSF_SYMLINK is 2, FSF_HOMOGENEOUS 8 and
-- FSF_CANSETTIME 16.
pub record FsInfoValues : Type 0 where
  pub rtpref : ℕ
  pub rtmult : ℕ
  pub wtmax : ℕ
  pub wtpref : ℕ
  pub wtmult : ℕ
  pub dtpref : ℕ
  pub maxfilesize : ℕ
  pub time_delta : NfsTime
  pub properties : ℕ

abbrev pub default_rtmax : ℕ
default_rtmax = 1_048_576

abbrev pub default_fsinfo_values : FsInfoValues
default_fsinfo_values = record {
  rtpref = 126_976;
  rtmult = 1_048_576;
  wtmax = 1_048_576;
  wtpref = 1_048_576;
  wtmult = 1_048_576;
  dtpref = 1_048_576;
  maxfilesize = 137_438_953_472;
  time_delta = record { seconds = 0; nseconds = 1_000_000 };
  properties = 26;
}

-- The values of PATHCONF
abbrev pub default_linkmax : ℕ
default_linkmax = 0

abbrev pub default_name_max : ℕ
default_name_max = 32768

abbrev pub default_no_trunc : Bool
default_no_trunc = true

abbrev pub default_chown_restricted : Bool
default_chown_restricted = true

abbrev pub default_case_insensitive : Bool
default_case_insensitive = false

abbrev pub default_case_preserving : Bool
default_case_preserving = true

module _ {S : Type 0} (vfs : FileSystem S) where
  unfoldable pub default_check_access : ℕ → AuthUnix → ℕ → S → NfsResult ℕ × S
  default_check_access id auth access s =
      map_ok (λ attr. NfsResult.ok (access_mask attr auth vfs.capabilities access))
        (vfs.getattr id s)

  unfoldable pub readdir_simple : ℕ → ℕ → ℕ → S → NfsResult (ReadDirResult DirEntrySimple) × S
  readdir_simple dirid start_after count s =
      map_ok (λ r. NfsResult.ok (from_readdir_result r)) (vfs.readdir dirid start_after count s)

  -- The attributes of the root are left out if the file system refuses them.
  unfoldable pub default_fsinfo : FsInfoValues → ℕ → S → NfsResult FsInfo × S
  default_fsinfo v root_fileid s =
      let (r, s') = vfs.getattr root_fileid s in
      (
        NfsResult.ok (record {
          obj_attributes = to_option r;
          rtmax = vfs.fsinfo_rtmax;
          rtpref = v.rtpref;
          rtmult = v.rtmult;
          wtmax = v.wtmax;
          wtpref = v.wtpref;
          wtmult = v.wtmult;
          dtpref = v.dtpref;
          maxfilesize = v.maxfilesize;
          time_delta = v.time_delta;
          properties = v.properties;
        }),
        s',
      )

  unfoldable pub default_fsstat : ℕ → S → NfsResult FsStat × S
  default_fsstat root_fileid s =
      let (r, s') = vfs.getattr root_fileid s in
      (
        NfsResult.ok (record {
          obj_attributes = to_option r;
          tbytes = 0;
          fbytes = 0;
          abytes = 0;
          tfiles = 0;
          ffiles = 0;
          afiles = 0;
          invarsec = 0;
        }),
        s',
      )
