-- ===== src/Xdr/Word.antt =====
-- protocol/xdr/mod.rs: the fixed-size types, big endian. An `i32` and an `i64` stand as their bit
-- patterns; no code below looks at a sign.
use fernfs.Prelude.{
  ℕ, ◌+◌, ◌*◌, ◌/◌, ◌%◌, ◌^◌, ◌<◌, ◌≡◌, refl, Bool, true, false, [], ◌∷◌, ◌++◌, arith, ◌==◌,
  if◌then◌else◌, length,
}
use fernfs.Io.{Result, ok, err, unexpected_eof, invalid_data, Bytes, Reader, ◌>>=◌, pure, fail}
use fernfs.Io.{RoundTrips}
use fernfs.Io.Ensures.{Ensures, Ensures-ok, Ensures-err}

abbrev pub IsU32 : ℕ → Type 0
IsU32 v = v < 2 ^ 32

abbrev pub IsU64 : ℕ → Type 0
IsU64 v = v < 2 ^ 64

-- `to_be_bytes`
unfoldable pub u32_bytes : ℕ → Bytes
u32_bytes v = v / 2 ^ 24 % 256 ∷ v / 2 ^ 16 % 256 ∷ v / 2 ^ 8 % 256 ∷ v % 256 ∷ []

-- `write_u32::<XDREndian>`; a u32 always fits
unfoldable pub write_u32 : ℕ → Result Bytes
write_u32 v = ok (u32_bytes v)

-- `read_u32::<XDREndian>`, which fails where fewer than four bytes are left
unfoldable pub read_u32 : Reader ℕ
read_u32 (a ∷ b ∷ c ∷ d ∷ s) = ok (a * 2 ^ 24 + b * 2 ^ 16 + c * 2 ^ 8 + d, s)
read_u32 s = err unexpected_eof

pub read_u32-u32_bytes :
    (v : ℕ) (rest : Bytes) → IsU32 v → read_u32 (u32_bytes v ++ rest) ≡ ok (v, rest)
unfolding read_u32 u32_bytes
read_u32-u32_bytes v rest h = ground arith

pub read_u32-Ensures : (s : Bytes) → Ensures (λ v rest. length s ≡ length rest + 4) (read_u32 s)
unfolding read_u32
read_u32-Ensures (a ∷ b ∷ c ∷ d ∷ s) = Ensures-ok _ _ (omega arith)
read_u32-Ensures _ = Ensures-err _

pub read_u32-write_u32 : (v : ℕ) → IsU32 v → RoundTrips (write_u32 v) read_u32 v
unfolding write_u32
read_u32-write_u32 v h = record {
  bytes = u32_bytes v;
  writes = refl;
  reads = λ rest. read_u32-u32_bytes v rest h;
}

-- A `u64` is its upper and its lower half.
unfoldable pub u64_bytes : ℕ → Bytes
u64_bytes v = u32_bytes (v / 2 ^ 32) ++ u32_bytes v

unfoldable pub write_u64 : ℕ → Result Bytes
write_u64 v = ok (u64_bytes v)

unfoldable pub read_u64 : Reader ℕ
read_u64 = do hi ← read_u32; lo ← read_u32; pure (hi * 2 ^ 32 + lo)

pub read_u64-write_u64 : (v : ℕ) → IsU64 v → RoundTrips (write_u64 v) read_u64 v
unfolding write_u64 read_u64 u64_bytes u32_bytes read_u32 ◌>>=◌ pure
read_u64-write_u64 v h = record { bytes = u64_bytes v; writes = refl; reads = λ rest. ground arith }

-- `bool` is an `i32`, 0 or 1
unfoldable pub write_bool : Bool → Result Bytes
write_bool b = write_u32 (if b then 1 else 0)

read_bool_value : ℕ → Reader Bool
read_bool_value v = if v == 0 then pure false else if v == 1 then pure true else fail invalid_data

unfoldable pub read_bool : Reader Bool
unfolding read_bool_value
read_bool = do v ← read_u32; read_bool_value v

pub read_bool-write_bool : (b : Bool) → RoundTrips (write_bool b) read_bool b
unfolding write_bool read_bool write_u32 read_u32 u32_bytes ◌>>=◌ pure
read_bool-write_bool true = record { bytes = u32_bytes 1; writes = refl; reads = λ rest. refl }
read_bool-write_bool false = record { bytes = u32_bytes 0; writes = refl; reads = λ rest. refl }
