-- ===== src/Xdr/Nfs3/RoundTrip.antt =====
-- protocol/xdr/nfs3/mod.rs: attributes and status codes are read back as they were written.
use fernfs.Prelude.{◌≤◌, ◌≡◌, refl, some, arith}
use fernfs.Io.{RoundTrips}
use fernfs.Io.RoundTrip.{RoundTrips-bind, RoundTrips-map}
use fernfs.Xdr.Word.{IsU32, IsU64, read_u32-write_u32, read_u64-write_u64}
use fernfs.Xdr.Array.{write_enum, read_enum, read_enum-write_enum}
use fernfs.Xdr.Nfs3.{
  NfsStat, nfs3_ok, nfs3err_perm, nfs3err_noent, nfs3err_io, nfs3err_nxio, nfs3err_acces,
  nfs3err_exist, nfs3err_xdev, nfs3err_nodev, nfs3err_notdir, nfs3err_isdir, nfs3err_inval,
  nfs3err_fbig, nfs3err_nospc, nfs3err_rofs, nfs3err_mlink, nfs3err_nametoolong, nfs3err_notempty,
  nfs3err_dquot, nfs3err_stale, nfs3err_remote, nfs3err_badhandle, nfs3err_not_sync,
  nfs3err_bad_cookie, nfs3err_notsupp, nfs3err_toosmall, nfs3err_serverfault, nfs3err_badtype,
  nfs3err_jukebox, Ftype, nf3reg, nf3dir, nf3blk, nf3chr, nf3lnk, nf3sock, nf3fifo, SpecData,
  NfsTime, Fattr,
}
use fernfs.Xdr.Nfs3.Codec.{
  nfsstat_code, nfsstat_of, ftype_code, ftype_of, write_nfsstat, read_nfsstat, write_specdata,
  read_specdata, write_nfstime, read_nfstime, write_fattr, read_fattr,
}

nfsstat_of-code : (s : NfsStat) → nfsstat_of (nfsstat_code s) ≡ some s
unfolding nfsstat_of nfsstat_code
nfsstat_of-code nfs3_ok = refl
nfsstat_of-code nfs3err_perm = refl
nfsstat_of-code nfs3err_noent = refl
nfsstat_of-code nfs3err_io = refl
nfsstat_of-code nfs3err_nxio = refl
nfsstat_of-code nfs3err_acces = refl
nfsstat_of-code nfs3err_exist = refl
nfsstat_of-code nfs3err_xdev = refl
nfsstat_of-code nfs3err_nodev = refl
nfsstat_of-code nfs3err_notdir = refl
nfsstat_of-code nfs3err_isdir = refl
nfsstat_of-code nfs3err_inval = refl
nfsstat_of-code nfs3err_fbig = refl
nfsstat_of-code nfs3err_nospc = refl
nfsstat_of-code nfs3err_rofs = refl
nfsstat_of-code nfs3err_mlink = refl
nfsstat_of-code nfs3err_nametoolong = refl
nfsstat_of-code nfs3err_notempty = refl
nfsstat_of-code nfs3err_dquot = refl
nfsstat_of-code nfs3err_stale = refl
nfsstat_of-code nfs3err_remote = refl
nfsstat_of-code nfs3err_badhandle = refl
nfsstat_of-code nfs3err_not_sync = refl
nfsstat_of-code nfs3err_bad_cookie = refl
nfsstat_of-code nfs3err_notsupp = refl
nfsstat_of-code nfs3err_toosmall = refl
nfsstat_of-code nfs3err_serverfault = refl
nfsstat_of-code nfs3err_badtype = refl
nfsstat_of-code nfs3err_jukebox = refl

nfsstat_code-le : (s : NfsStat) → nfsstat_code s ≤ 10008
unfolding nfsstat_code
nfsstat_code-le nfs3_ok = omega arith
nfsstat_code-le nfs3err_perm = omega arith
nfsstat_code-le nfs3err_noent = omega arith
nfsstat_code-le nfs3err_io = omega arith
nfsstat_code-le nfs3err_nxio = omega arith
nfsstat_code-le nfs3err_acces = omega arith
nfsstat_code-le nfs3err_exist = omega arith
nfsstat_code-le nfs3err_xdev = omega arith
nfsstat_code-le nfs3err_nodev = omega arith
nfsstat_code-le nfs3err_notdir = omega arith
nfsstat_code-le nfs3err_isdir = omega arith
nfsstat_code-le nfs3err_inval = omega arith
nfsstat_code-le nfs3err_fbig = omega arith
nfsstat_code-le nfs3err_nospc = omega arith
nfsstat_code-le nfs3err_rofs = omega arith
nfsstat_code-le nfs3err_mlink = omega arith
nfsstat_code-le nfs3err_nametoolong = omega arith
nfsstat_code-le nfs3err_notempty = omega arith
nfsstat_code-le nfs3err_dquot = omega arith
nfsstat_code-le nfs3err_stale = omega arith
nfsstat_code-le nfs3err_remote = omega arith
nfsstat_code-le nfs3err_badhandle = omega arith
nfsstat_code-le nfs3err_not_sync = omega arith
nfsstat_code-le nfs3err_bad_cookie = omega arith
nfsstat_code-le nfs3err_notsupp = omega arith
nfsstat_code-le nfs3err_toosmall = omega arith
nfsstat_code-le nfs3err_serverfault = omega arith
nfsstat_code-le nfs3err_badtype = omega arith
nfsstat_code-le nfs3err_jukebox = omega arith

-- Every status code is read back as it was written.
pub read_nfsstat-write_nfsstat : (s : NfsStat) → RoundTrips (write_nfsstat s) read_nfsstat s
unfolding write_nfsstat read_nfsstat
read_nfsstat-write_nfsstat s =
    read_enum-write_enum nfsstat_code nfsstat_of s (omega (arith, nfsstat_code-le s))
      (nfsstat_of-code s)

ftype_of-code : (t : Ftype) → ftype_of (ftype_code t) ≡ some t
unfolding ftype_of ftype_code
ftype_of-code nf3reg = refl
ftype_of-code nf3dir = refl
ftype_of-code nf3blk = refl
ftype_of-code nf3chr = refl
ftype_of-code nf3lnk = refl
ftype_of-code nf3sock = refl
ftype_of-code nf3fifo = refl

ftype_code-le : (t : Ftype) → ftype_code t ≤ 7
unfolding ftype_code
ftype_code-le nf3reg = omega arith
ftype_code-le nf3dir = omega arith
ftype_code-le nf3blk = omega arith
ftype_code-le nf3chr = omega arith
ftype_code-le nf3lnk = omega arith
ftype_code-le nf3sock = omega arith
ftype_code-le nf3fifo = omega arith

ftype_RoundTrips : (t : Ftype) → RoundTrips (write_enum ftype_code t) (read_enum ftype_of) t
ftype_RoundTrips t =
    read_enum-write_enum ftype_code ftype_of t (omega (arith, ftype_code-le t)) (ftype_of-code t)

abbrev pub TimeFits : NfsTime → Type 0
TimeFits t = IsU32 t.seconds × IsU32 t.nseconds

abbrev pub SpecFits : SpecData → Type 0
SpecFits d = IsU32 d.specdata1 × IsU32 d.specdata2

pub record FattrFits (a : Fattr) : Type 0 where
  pub mode : IsU32 a.mode
  pub nlink : IsU32 a.nlink
  pub uid : IsU32 a.uid
  pub gid : IsU32 a.gid
  pub size : IsU64 a.size
  pub used : IsU64 a.used
  pub rdev : SpecFits a.rdev
  pub fsid : IsU64 a.fsid
  pub fileid : IsU64 a.fileid
  pub atime : TimeFits a.atime
  pub mtime : TimeFits a.mtime
  pub ctime : TimeFits a.ctime

specdata_RoundTrips : (d : SpecData) → SpecFits d → RoundTrips (write_specdata d) read_specdata d
unfolding write_specdata read_specdata
specdata_RoundTrips d (a, b) =
    RoundTrips-bind _ (read_u32-write_u32 d.specdata1 a)
      (RoundTrips-map _ (read_u32-write_u32 d.specdata2 b))

pub nfstime_RoundTrips : (t : NfsTime) → TimeFits t → RoundTrips (write_nfstime t) read_nfstime t
unfolding write_nfstime read_nfstime
nfstime_RoundTrips t (a, b) =
    RoundTrips-bind _ (read_u32-write_u32 t.seconds a)
      (RoundTrips-map _ (read_u32-write_u32 t.nseconds b))

-- The attributes of a file are read back as they were written, if each fits its Rust type.
pub read_fattr-write_fattr : (a : Fattr) → FattrFits a → RoundTrips (write_fattr a) read_fattr a
unfolding write_fattr read_fattr
read_fattr-write_fattr a h = RoundTrips-bind _ (ftype_RoundTrips a.ftype) (
    RoundTrips-bind _ (read_u32-write_u32 a.mode h.mode) (
      RoundTrips-bind _ (read_u32-write_u32 a.nlink h.nlink) (
        RoundTrips-bind _ (read_u32-write_u32 a.uid h.uid) (
          RoundTrips-bind _ (read_u32-write_u32 a.gid h.gid) (
            RoundTrips-bind _ (read_u64-write_u64 a.size h.size) (
              RoundTrips-bind _ (read_u64-write_u64 a.used h.used) (
                RoundTrips-bind _ (specdata_RoundTrips a.rdev h.rdev) (
                  RoundTrips-bind _ (read_u64-write_u64 a.fsid h.fsid) (
                    RoundTrips-bind _ (read_u64-write_u64 a.fileid h.fileid) (
                      RoundTrips-bind _ (nfstime_RoundTrips a.atime h.atime) (
                        RoundTrips-bind _ (nfstime_RoundTrips a.mtime h.mtime)
                          (RoundTrips-map _ (nfstime_RoundTrips a.ctime h.ctime)))))))))))))
