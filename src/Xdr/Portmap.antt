-- ===== src/Xdr/Portmap.antt =====
-- protocol/xdr/portmap.rs: the data of the portmapper.
use fernfs.Prelude.{ℕ, true, false, List, [], ◌∷◌}
use fernfs.Io.{Result, Bytes, Reader, ◌>>=◌, pure, ◌⊕◌, RoundTrips}
use fernfs.Io.RoundTrip.{RoundTrips-bind, RoundTrips-map}
use fernfs.Xdr.Word.{IsU32, write_u32, read_u32, write_bool, read_u32-write_u32}

pub record Mapping : Type 0 where
  pub prog : ℕ
  pub vers : ℕ
  pub prot : ℕ
  pub port : ℕ

unfoldable pub write_mapping : Mapping → Result Bytes
write_mapping m = write_u32 m.prog ⊕ write_u32 m.vers ⊕ write_u32 m.prot ⊕ write_u32 m.port

unfoldable pub read_mapping : Reader Mapping
read_mapping = do
  prog ← read_u32
  vers ← read_u32
  prot ← read_u32
  port ← read_u32
  pure (record { prog = prog; vers = vers; prot = prot; port = port })

-- `Option<pmaplist>`, a chain of boxes, is a list
unfoldable pub write_pmaplist : List Mapping → Result Bytes
write_pmaplist [] = write_bool false
write_pmaplist (m ∷ ms) = write_bool true ⊕ write_mapping m ⊕ write_pmaplist ms

abbrev pub ipproto_tcp : ℕ
ipproto_tcp = 6

abbrev pub ipproto_udp : ℕ
ipproto_udp = 17

abbrev pub program : ℕ
program = 100000

abbrev pub version : ℕ
version = 2

pub record MappingFits (m : Mapping) : Type 0 where
  pub prog : IsU32 m.prog
  pub vers : IsU32 m.vers
  pub prot : IsU32 m.prot
  pub port : IsU32 m.port

pub read_mapping-write_mapping :
    (m : Mapping) → MappingFits m → RoundTrips (write_mapping m) read_mapping m
unfolding write_mapping read_mapping
read_mapping-write_mapping m h = RoundTrips-bind _ (read_u32-write_u32 m.prog h.prog) (
    RoundTrips-bind _ (read_u32-write_u32 m.vers h.vers) (
      RoundTrips-bind _ (read_u32-write_u32 m.prot h.prot)
        (RoundTrips-map _ (read_u32-write_u32 m.port h.port))))
