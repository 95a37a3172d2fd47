-- ===== src/Xdr/Nfs3/Codec.antt =====
-- protocol/xdr/nfs3/mod.rs: codes of the enumerations, and the codecs of the structures.
use fernfs.Prelude.{ℕ, Option, none, some, ◌==◌, if◌then◌else◌}
use fernfs.Io.{Result, Bytes, Reader, ◌>>=◌, pure, ◌⊕◌}
use fernfs.Xdr.Word.{write_u32, read_u32, write_u64, read_u64}
use fernfs.Xdr.Array.{write_enum, read_enum}
use fernfs.Xdr.Nfs3.{
  NfsStat, nfs3_ok, nfs3err_perm, nfs3err_noent, nfs3err_io, nfs3err_nxio, nfs3err_acces,
  nfs3err_exist, nfs3err_xdev, nfs3err_nodev, nfs3err_notdir, nfs3err_isdir, nfs3err_inval,
  nfs3err_fbig, nfs3err_nospc, nfs3err_rofs, nfs3err_mlink, nfs3err_nametoolong, nfs3err_notempty,
  nfs3err_dquot, nfs3err_stale, nfs3err_remote, nfs3err_badhandle, nfs3err_not_sync,
  nfs3err_bad_cookie, nfs3err_notsupp, nfs3err_toosmall, nfs3err_serverfault, nfs3err_badtype,
  nfs3err_jukebox, Ftype, nf3reg, nf3dir, nf3blk, nf3chr, nf3lnk, nf3sock, nf3fifo, SpecData,
  NfsTime, Fattr,
}

unfoldable pub nfsstat_code : NfsStat → ℕ
nfsstat_code nfs3_ok = 0
nfsstat_code nfs3err_perm = 1
nfsstat_code nfs3err_noent = 2
nfsstat_code nfs3err_io = 5
nfsstat_code nfs3err_nxio = 6
nfsstat_code nfs3err_acces = 13
nfsstat_code nfs3err_exist = 17
nfsstat_code nfs3err_xdev = 18
nfsstat_code nfs3err_nodev = 19
nfsstat_code nfs3err_notdir = 20
nfsstat_code nfs3err_isdir = 21
nfsstat_code nfs3err_inval = 22
nfsstat_code nfs3err_fbig = 27
nfsstat_code nfs3err_nospc = 28
nfsstat_code nfs3err_rofs = 30
nfsstat_code nfs3err_mlink = 31
nfsstat_code nfs3err_nametoolong = 63
nfsstat_code nfs3err_notempty = 66
nfsstat_code nfs3err_dquot = 69
nfsstat_code nfs3err_stale = 70
nfsstat_code nfs3err_remote = 71
nfsstat_code nfs3err_badhandle = 10001
nfsstat_code nfs3err_not_sync = 10002
nfsstat_code nfs3err_bad_cookie = 10003
nfsstat_code nfs3err_notsupp = 10004
nfsstat_code nfs3err_toosmall = 10005
nfsstat_code nfs3err_serverfault = 10006
nfsstat_code nfs3err_badtype = 10007
nfsstat_code nfs3err_jukebox = 10008

unfoldable pub nfsstat_of : ℕ → Option NfsStat
nfsstat_of v =
    if v == 0
    then some nfs3_ok
    else if v == 1
    then some nfs3err_perm
    else if v == 2
    then some nfs3err_noent
    else if v == 5
    then some nfs3err_io
    else if v == 6
    then some nfs3err_nxio
    else if v == 13
    then some nfs3err_acces
    else if v == 17
    then some nfs3err_exist
    else if v == 18
    then some nfs3err_xdev
    else if v == 19
    then some nfs3err_nodev
    else if v == 20
    then some nfs3err_notdir
    else if v == 21
    then some nfs3err_isdir
    else if v == 22
    then some nfs3err_inval
    else if v == 27
    then some nfs3err_fbig
    else if v == 28
    then some nfs3err_nospc
    else if v == 30
    then some nfs3err_rofs
    else if v == 31
    then some nfs3err_mlink
    else if v == 63
    then some nfs3err_nametoolong
    else if v == 66
    then some nfs3err_notempty
    else if v == 69
    then some nfs3err_dquot
    else if v == 70
    then some nfs3err_stale
    else if v == 71
    then some nfs3err_remote
    else if v == 10001
    then some nfs3err_badhandle
    else if v == 10002
    then some nfs3err_not_sync
    else if v == 10003
    then some nfs3err_bad_cookie
    else if v == 10004
    then some nfs3err_notsupp
    else if v == 10005
    then some nfs3err_toosmall
    else if v == 10006
    then some nfs3err_serverfault
    else if v == 10007
    then some nfs3err_badtype
    else if v == 10008
    then some nfs3err_jukebox
    else none

unfoldable pub ftype_code : Ftype → ℕ
ftype_code nf3reg = 1
ftype_code nf3dir = 2
ftype_code nf3blk = 3
ftype_code nf3chr = 4
ftype_code nf3lnk = 5
ftype_code nf3sock = 6
ftype_code nf3fifo = 7

unfoldable pub ftype_of : ℕ → Option Ftype
ftype_of v =
    if v == 1
    then some nf3reg
    else if v == 2
    then some nf3dir
    else if v == 3
    then some nf3blk
    else if v == 4
    then some nf3chr
    else if v == 5
    then some nf3lnk
    else if v == 6
    then some nf3sock
    else if v == 7
    then some nf3fifo
    else none

unfoldable pub write_nfsstat : NfsStat → Result Bytes
write_nfsstat = write_enum nfsstat_code

unfoldable pub read_nfsstat : Reader NfsStat
read_nfsstat = read_enum nfsstat_of

unfoldable pub write_specdata : SpecData → Result Bytes
write_specdata d = write_u32 d.specdata1 ⊕ write_u32 d.specdata2

unfoldable pub read_specdata : Reader SpecData
read_specdata = do
  specdata1 ← read_u32
  specdata2 ← read_u32
  pure (record { specdata1 = specdata1; specdata2 = specdata2 })

unfoldable pub write_nfstime : NfsTime → Result Bytes
write_nfstime t = write_u32 t.seconds ⊕ write_u32 t.nseconds

unfoldable pub read_nfstime : Reader NfsTime
read_nfstime = do
  seconds ← read_u32
  nseconds ← read_u32
  pure (record { seconds = seconds; nseconds = nseconds })

unfoldable pub write_fattr : Fattr → Result Bytes
write_fattr a =
    write_enum ftype_code a.ftype
    ⊕ write_u32 a.mode
    ⊕ write_u32 a.nlink
    ⊕ write_u32 a.uid
    ⊕ write_u32 a.gid
    ⊕ write_u64 a.size
    ⊕ write_u64 a.used
    ⊕ write_specdata a.rdev
    ⊕ write_u64 a.fsid
    ⊕ write_u64 a.fileid
    ⊕ write_nfstime a.atime
    ⊕ write_nfstime a.mtime
    ⊕ write_nfstime a.ctime

unfoldable pub read_fattr : Reader Fattr
read_fattr = do
  ftype ← read_enum ftype_of
  mode ← read_u32
  nlink ← read_u32
  uid ← read_u32
  gid ← read_u32
  size ← read_u64
  used ← read_u64
  rdev ← read_specdata
  fsid ← read_u64
  fileid ← read_u64
  atime ← read_nfstime
  mtime ← read_nfstime
  ctime ← read_nfstime
  pure (record {
    ftype = ftype;
    mode = mode;
    nlink = nlink;
    uid = uid;
    gid = gid;
    size = size;
    used = used;
    rdev = rdev;
    fsid = fsid;
    fileid = fileid;
    atime = atime;
    mtime = mtime;
    ctime = ctime;
  })
