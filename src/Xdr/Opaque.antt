-- ===== src/Xdr/Opaque.antt =====
-- protocol/xdr/mod.rs and utils.rs: opaque data and strings, with their padding.
pub mod Laws
use fernfs.Prelude.{
  ℕ, ◌+◌, ◌-◌, ◌*◌, ◌/◌, ◌%◌, ◌^◌, Bool, true, ◌&&◌, [], ◌∷◌, ltb, leb, if◌then◌else◌, length, take,
  drop, replicate,
}
use fernfs.Io.{Result, ok, err, unexpected_eof, invalid_data, Bytes, Reader, ◌>>=◌, pure, fail}
use fernfs.Io.{◌⊕◌}
use fernfs.Xdr.Word.{write_u32, read_u32}

-- rpc::MAX_RPC_RECORD_LENGTH: a block of 4 MiB and a page, rounded up to whole pages
abbrev pub max_block_size : ℕ
max_block_size = 4 * 1024 * 1024

abbrev pub page_size : ℕ
page_size = 4096

abbrev pub max_rpc_record_length : ℕ
max_rpc_record_length = (max_block_size + page_size + (page_size - 1)) / page_size * page_size

abbrev pub max_xdr_opaque_length : ℕ
max_xdr_opaque_length = max_rpc_record_length

abbrev pub alignment : ℕ
alignment = 4

unfoldable pub padding_len : ℕ → ℕ
padding_len n = (alignment - n % alignment) % alignment

-- `read_exact` into a buffer of `n` bytes
unfoldable pub read_exact : ℕ → Reader Bytes
read_exact n s = if leb n (length s) then ok (take n s, drop n s) else err unexpected_eof

-- The padding is read, and its value is not looked at.
unfoldable pub read_padding : ℕ → Reader (Unit {0})
read_padding n =
    if ltb 0 (padding_len n) then (do _ ← read_exact (padding_len n); pure tt) else pure tt

unfoldable pub write_padding : ℕ → Result Bytes
write_padding n = ok (if ltb 0 (padding_len n) then replicate (padding_len n) 0 else [])

-- `UsizeAsU32`, for a 64-bit `usize`
unfoldable pub write_usize : ℕ → Result Bytes
write_usize n = if ltb n (2 ^ 32) then write_u32 n else err invalid_data

unfoldable pub read_usize : Reader ℕ
read_usize = read_u32

-- `[u8]::serialize`
unfoldable pub write_opaque : Bytes → Result Bytes
write_opaque bs = write_usize (length bs) ⊕ ok bs ⊕ write_padding (length bs)

read_opaque_body : ℕ → Reader Bytes
read_opaque_body n =
    if ltb max_xdr_opaque_length n
    then fail invalid_data
    else do bs ← read_exact n; _ ← read_padding n; pure bs

-- `Vec<u8>::deserialize`
unfoldable pub read_opaque : Reader Bytes
unfolding read_opaque_body
read_opaque = do n ← read_usize; read_opaque_body n

-- `[u8; N]`: no length, and padding as above
unfoldable pub write_fixed : Bytes → Result Bytes
write_fixed bs = ok bs ⊕ write_padding (length bs)

unfoldable pub read_fixed : ℕ → Reader Bytes
read_fixed n = do bs ← read_exact n; _ ← read_padding n; pure bs

unfoldable pub is_ascii : Bytes → Bool
is_ascii [] = true
is_ascii (b ∷ bs) = ltb b 128 && is_ascii bs

read_string_body : Bytes → Reader Bytes
read_string_body bs = if is_ascii bs then pure bs else fail invalid_data

-- `String::deserialize`: an opaque that holds ASCII only
unfoldable pub read_string : Reader Bytes
unfolding read_string_body
read_string = do bs ← read_opaque; read_string_body bs
