-- ===== src/Xdr/Nfs3/Dir.antt =====
-- protocol/xdr/nfs3/dir.rs: the arguments of READDIR and READDIRPLUS, and the entries they answer.
use fernfs.Prelude.{ℕ, Option}
use fernfs.Io.{Result, Bytes, Reader, ◌>>=◌, pure, ◌⊕◌}
use fernfs.Xdr.Word.{write_u64, read_u32, read_u64}
use fernfs.Xdr.Opaque.{write_opaque, read_opaque, read_fixed}
use fernfs.Xdr.Array.{write_option}
use fernfs.Xdr.Nfs3.{Fattr}
use fernfs.Xdr.Nfs3.Codec.{write_fattr}

pub record Entry3 : Type 0 where
  pub fileid : ℕ
  pub name : Bytes
  pub cookie : ℕ

unfoldable pub write_entry3 : Entry3 → Result Bytes
write_entry3 e = write_u64 e.fileid ⊕ write_opaque e.name ⊕ write_u64 e.cookie

pub record EntryPlus3 : Type 0 where
  pub fileid : ℕ
  pub name : Bytes
  pub cookie : ℕ
  pub name_attributes : Option Fattr
  pub name_handle : Option Bytes

unfoldable pub write_entryplus3 : EntryPlus3 → Result Bytes
write_entryplus3 e =
    write_u64 e.fileid
    ⊕ write_opaque e.name
    ⊕ write_u64 e.cookie
    ⊕ write_option write_fattr e.name_attributes
    ⊕ write_option write_opaque e.name_handle

pub record Readdir3Args : Type 0 where
  pub dir : Bytes
  pub cookie : ℕ
  pub cookieverf : Bytes
  pub dircount : ℕ

unfoldable pub read_readdir3args : Reader Readdir3Args
read_readdir3args = do
  dir ← read_opaque
  cookie ← read_u64
  cookieverf ← read_fixed 8
  dircount ← read_u32
  pure (record { dir = dir; cookie = cookie; cookieverf = cookieverf; dircount = dircount })

pub record ReaddirPlus3Args : Type 0 where
  pub dir : Bytes
  pub cookie : ℕ
  pub cookieverf : Bytes
  pub dircount : ℕ
  pub maxcount : ℕ

unfoldable pub read_readdirplus3args : Reader ReaddirPlus3Args
read_readdirplus3args = do
  dir ← read_opaque
  cookie ← read_u64
  cookieverf ← read_fixed 8
  dircount ← read_u32
  maxcount ← read_u32
  pure (record {
    dir = dir;
    cookie = cookie;
    cookieverf = cookieverf;
    dircount = dircount;
    maxcount = maxcount;
  })
