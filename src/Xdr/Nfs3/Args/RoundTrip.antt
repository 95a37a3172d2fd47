-- ===== src/Xdr/Nfs3/Args/RoundTrip.antt =====
-- protocol/xdr/nfs3: the arguments of SETATTR, CREATE and WRITE are read back as they were written.
use fernfs.Prelude.{ℕ, ◌≤◌, refl, false, Option, none, some, arith, length}
use fernfs.Io.{Result, Bytes, Reader, RoundTrips}
use fernfs.Io.RoundTrip.{RoundTrips-bind, RoundTrips-map, RoundTrips-tag}
use fernfs.Xdr.Word.{
  IsU32, IsU64, write_u32, read_u32, read_u32-write_u32, write_u64, read_u64, read_u64-write_u64,
  read_bool-write_bool,
}
use fernfs.Xdr.Opaque.{max_xdr_opaque_length}
use fernfs.Xdr.Opaque.Laws.{read_opaque-write_opaque}
use fernfs.Xdr.Array.{write_option, read_option, read_option-write_option-some}
use fernfs.Xdr.Nfs3.{SetTime, dont_change, set_to_server_time, set_to_client_time, Sattr, DirOpArgs}
use fernfs.Xdr.Nfs3.RoundTrip.{TimeFits, nfstime_RoundTrips}
use fernfs.Xdr.Nfs3.Args.{
  write_set_time, read_set_time, read_set_time_arm, write_sattr, read_sattr, write_diropargs,
  read_diropargs, Write3Args, write_write3args, read_write3args,
}

abbrev pub OptionFits : (ℕ → Type 0) → Option ℕ → Type 0
OptionFits P none = Unit {0}
OptionFits P (some v) = P v

abbrev pub SetTimeFits : SetTime → Type 0
SetTimeFits (set_to_client_time t) = TimeFits t
SetTimeFits dont_change = Unit {0}
SetTimeFits set_to_server_time = Unit {0}

pub record SattrFits (a : Sattr) : Type 0 where
  pub mode : OptionFits IsU32 a.mode
  pub uid : OptionFits IsU32 a.uid
  pub gid : OptionFits IsU32 a.gid
  pub size : OptionFits IsU64 a.size
  pub atime : SetTimeFits a.atime
  pub mtime : SetTimeFits a.mtime

read_option-write_option :
    (w : ℕ → Result Bytes) (p : Reader ℕ) (P : ℕ → Type 0)
    → ((v : ℕ) → P v → RoundTrips (w v) p v)
    → (o : Option ℕ) → OptionFits P o
    → RoundTrips (write_option w o) (read_option p) o
unfolding write_option read_option
read_option-write_option w p P each none h = RoundTrips-tag _ none (read_bool-write_bool false) refl
read_option-write_option w p P each (some v) h = read_option-write_option-some w p v (each v h)

set_time_RoundTrips : (t : SetTime) → SetTimeFits t → RoundTrips (write_set_time t) read_set_time t
unfolding write_set_time read_set_time read_set_time_arm
set_time_RoundTrips dont_change h =
    RoundTrips-tag _ dont_change (read_u32-write_u32 0 (omega arith)) refl
set_time_RoundTrips set_to_server_time h =
    RoundTrips-tag _ set_to_server_time (read_u32-write_u32 1 (omega arith)) refl
set_time_RoundTrips (set_to_client_time t) h =
    RoundTrips-bind _ (read_u32-write_u32 2 (omega arith))
      (RoundTrips-map set_to_client_time (nfstime_RoundTrips t h))

-- The attributes that a client asks to set are read back as they were written.
pub read_sattr-write_sattr : (a : Sattr) → SattrFits a → RoundTrips (write_sattr a) read_sattr a
unfolding write_sattr read_sattr
read_sattr-write_sattr a h =
    let word = read_option-write_option write_u32 read_u32 IsU32 read_u32-write_u32 in
    RoundTrips-bind _ (word a.mode h.mode) (
      RoundTrips-bind _ (word a.uid h.uid) (
        RoundTrips-bind _ (word a.gid h.gid) (
          RoundTrips-bind _
            (read_option-write_option write_u64 read_u64 IsU64 read_u64-write_u64 a.size h.size)
            (RoundTrips-bind _ (set_time_RoundTrips a.atime h.atime)
              (RoundTrips-map _ (set_time_RoundTrips a.mtime h.mtime))))))

pub record DirOpArgsFits (a : DirOpArgs) : Type 0 where
  pub dir : length a.dir ≤ max_xdr_opaque_length
  pub name : length a.name ≤ max_xdr_opaque_length

pub read_diropargs-write_diropargs :
    (a : DirOpArgs) → DirOpArgsFits a → RoundTrips (write_diropargs a) read_diropargs a
unfolding write_diropargs read_diropargs
read_diropargs-write_diropargs a h =
    RoundTrips-bind _ (read_opaque-write_opaque a.dir h.dir)
      (RoundTrips-map _ (read_opaque-write_opaque a.name h.name))

pub record Write3ArgsFits (a : Write3Args) : Type 0 where
  pub file : length a.file ≤ max_xdr_opaque_length
  pub offset : IsU64 a.offset
  pub count : IsU32 a.count
  pub stable : IsU32 a.stable
  pub payload : length a.payload ≤ max_xdr_opaque_length

-- The arguments of WRITE are read back as they were written.
pub read_write3args-write_write3args :
    (a : Write3Args) → Write3ArgsFits a → RoundTrips (write_write3args a) read_write3args a
unfolding write_write3args read_write3args
read_write3args-write_write3args a h = RoundTrips-bind _ (read_opaque-write_opaque a.file h.file) (
    RoundTrips-bind _ (read_u64-write_u64 a.offset h.offset) (
      RoundTrips-bind _ (read_u32-write_u32 a.count h.count) (
        RoundTrips-bind _ (read_u32-write_u32 a.stable h.stable)
          (RoundTrips-map _ (read_opaque-write_opaque a.payload h.payload)))))
