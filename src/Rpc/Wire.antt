-- ===== src/Rpc/Wire.antt =====
-- protocol/rpc/wire.rs: the record marking of TCP, and the handler that reassembles records.
pub mod Records
pub mod Bounds
pub mod Written
use fernfs.Prelude.{saturating_add}
use fernfs.Prelude.{
  ℕ, zero, suc, ◌+◌, ◌-◌, ◌/◌, ◌%◌, ◌^◌, min, Bool, true, false, List, [], ◌∷◌, ◌++◌, ltb, leb,
  ◌==◌, if◌then◌else◌, length, take, drop,
}
use fernfs.Io.{Error, Result, ok, err, record_too_long, Bytes, Reader, ◌>>=◌, pure, fail}
use fernfs.Xdr.Word.{u32_bytes, read_u32}
use fernfs.Xdr.Opaque.{read_exact, max_rpc_record_length}

-- `fragment_header & (1 << 31)` and `fragment_header & ((1 << 31) - 1)`
abbrev pub header_is_last : ℕ → Bool
header_is_last header = ltb 0 (header / 2 ^ 31 % 2)

abbrev pub header_length : ℕ → ℕ
header_length header = header % 2 ^ 31

unfoldable pub read_fragment_body : Bytes → Bool → ℕ → Reader (Bool × Bytes)
read_fragment_body append_to is_last n =
    if ltb max_rpc_record_length (saturating_add (length append_to) n)
    then fail record_too_long
    else do body ← read_exact n; pure (is_last, append_to ++ body)

-- Whether this was the last fragment, and the buffer with the fragment appended. Where the stream ends
-- within a fragment, the source has made its buffer longer already; its loop ends then, and nothing reads
-- that buffer.
unfoldable pub read_fragment : Bytes → Reader (Bool × Bytes)
read_fragment append_to = do
  header ← read_u32
  read_fragment_body append_to (header_is_last header) (header_length header)

abbrev pub max_fragment_size : ℕ
max_fragment_size = 2 ^ 31 - 1

abbrev pub fragment_header : Bool → ℕ → ℕ
fragment_header is_last size = if is_last then (size + 2 ^ 31) % 2 ^ 32 else size

-- The loop of `write_fragment`: the list is `buf[offset..]`. A round takes a byte at least, so a
-- fuel of the list's length is enough.
unfoldable pub write_fragments : ℕ → ℕ → Bytes → Bytes
write_fragments max_size zero buf = []
write_fragments max_size (suc fuel) [] = []
write_fragments max_size (suc fuel) (b ∷ buf) =
    let remaining = length (b ∷ buf) in
    let size = min remaining max_size in
    let is_last = leb remaining size in
    u32_bytes (fragment_header is_last size)
    ++ (take size (b ∷ buf) ++ write_fragments max_size fuel (drop size (b ∷ buf)))

-- What is written to the socket, if it takes all.
unfoldable pub write_fragment : Bytes → Bytes
write_fragment buf = write_fragments max_fragment_size (length buf) buf

-- `SocketMessageHandler`: the buffer, and the commands submitted to the queue, oldest first.
pub record Handler : Type 0 where
  pub cur_fragment : Bytes
  pub submitted : List Bytes

abbrev pub new_handler : Handler
new_handler = record { cur_fragment = []; submitted = [] }

unfoldable pub accept_fragment : Handler → Bool × Bytes → Handler
accept_fragment h (is_last, buffer) =
    if is_last
    then record { cur_fragment = []; submitted = h.submitted ++ (buffer ∷ []) }
    else record h { cur_fragment = buffer }

-- `SocketMessageHandler::read`
unfoldable pub read : Handler → Reader Handler
read h = do r ← read_fragment h.cur_fragment; pure (accept_fragment h r)

-- The loop of `process_socket`'s task, which ends at the first error. A round takes four bytes at
-- least, so a fuel above the stream's length is enough.
unfoldable pub read_loop : ℕ → Handler → Bytes → Handler × Error
read_loop zero h s = (h, record_too_long)
read_loop (suc fuel) h s = elim (read h s) [ ok (h', s') ↦ read_loop fuel h' s' | err e ↦ (h, e) ]

unfoldable pub receive : Bytes → Handler × Error
receive s = read_loop (suc (length s)) new_handler s
