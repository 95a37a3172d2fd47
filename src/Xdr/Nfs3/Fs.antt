-- ===== src/Xdr/Nfs3/Fs.antt =====
-- protocol/xdr/nfs3/fs.rs: what FSINFO, FSSTAT and PATHCONF answer.
use fernfs.Prelude.{ℕ, Bool, Option}
use fernfs.Io.{Result, Bytes, ◌⊕◌}
use fernfs.Xdr.Word.{write_u32, write_u64, write_bool}
use fernfs.Xdr.Array.{write_option}
use fernfs.Xdr.Nfs3.{NfsTime, Fattr}
use fernfs.Xdr.Nfs3.Codec.{write_nfstime, write_fattr}

pub record FsInfo : Type 0 where
  pub obj_attributes : Option Fattr
  pub rtmax : ℕ
  pub rtpref : ℕ
  pub rtmult : ℕ
  pub wtmax : ℕ
  pub wtpref : ℕ
  pub wtmult : ℕ
  pub dtpref : ℕ
  pub maxfilesize : ℕ
  pub time_delta : NfsTime
  pub properties : ℕ

unfoldable pub write_fsinfo : FsInfo → Result Bytes
write_fsinfo i =
    write_option write_fattr i.obj_attributes
    ⊕ write_u32 i.rtmax
    ⊕ write_u32 i.rtpref
    ⊕ write_u32 i.rtmult
    ⊕ write_u32 i.wtmax
    ⊕ write_u32 i.wtpref
    ⊕ write_u32 i.wtmult
    ⊕ write_u32 i.dtpref
    ⊕ write_u64 i.maxfilesize
    ⊕ write_nfstime i.time_delta
    ⊕ write_u32 i.properties

pub record FsStat : Type 0 where
  pub obj_attributes : Option Fattr
  pub tbytes : ℕ
  pub fbytes : ℕ
  pub abytes : ℕ
  pub tfiles : ℕ
  pub ffiles : ℕ
  pub afiles : ℕ
  pub invarsec : ℕ

unfoldable pub write_fsstat : FsStat → Result Bytes
write_fsstat i =
    write_option write_fattr i.obj_attributes
    ⊕ write_u64 i.tbytes
    ⊕ write_u64 i.fbytes
    ⊕ write_u64 i.abytes
    ⊕ write_u64 i.tfiles
    ⊕ write_u64 i.ffiles
    ⊕ write_u64 i.afiles
    ⊕ write_u32 i.invarsec

pub record PathConf : Type 0 where
  pub obj_attributes : Option Fattr
  pub linkmax : ℕ
  pub name_max : ℕ
  pub no_trunc : Bool
  pub chown_restricted : Bool
  pub case_insensitive : Bool
  pub case_preserving : Bool

unfoldable pub write_pathconf : PathConf → Result Bytes
write_pathconf i =
    write_option write_fattr i.obj_attributes
    ⊕ write_u32 i.linkmax
    ⊕ write_u32 i.name_max
    ⊕ write_bool i.no_trunc
    ⊕ write_bool i.chown_restricted
    ⊕ write_bool i.case_insensitive
    ⊕ write_bool i.case_preserving
