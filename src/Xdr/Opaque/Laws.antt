-- ===== src/Xdr/Opaque/Laws.antt =====
-- Opaque data: the round trip, the alignment, and the bound on what is read.
use fernfs.Prelude.{
  ℕ, ◌+◌, ◌%◌, ◌≤◌, ◌<◌, ◌≡◌, refl, Bool-cases, [], ◌++◌, arith, ltb, leb, leb→le, if◌then◌else◌,
  length, replicate, length-append, length-replicate, take-append, drop-append, length-take,
  length-drop, inl, inr,
}
use fernfs.Io.{ok, err, invalid_data, Bytes, ◌>>=◌, pure, fail}
use fernfs.Io.{◌⊕◌, RoundTrips}
use fernfs.Io.RoundTrip.{RoundTrips-bind, RoundTrips-map}
use fernfs.Io.Ensures.{Ensures, Ensures-elim, Ensures-ok, Ensures-err, Ensures-mono, Ensures-bind}
use fernfs.Xdr.Word.{
  IsU32, u32_bytes, write_u32, read_u32-write_u32, read_u32-u32_bytes, read_u32-Ensures,
}
use fernfs.Xdr.Opaque.{
  max_xdr_opaque_length, padding_len, read_exact, read_padding, write_padding, write_usize,
  read_usize, write_opaque, read_opaque_body, read_opaque, write_fixed, read_fixed,
}

-- Reading as many bytes as were written takes just these.
pub read_exact-append : (bs rest : Bytes) → read_exact (length bs) (bs ++ rest) ≡ ok (bs, rest)
unfolding read_exact
read_exact-append bs rest = ground (
  arith,
  length-append bs rest,
  take-append (length bs) bs rest refl,
  drop-append (length bs) bs rest refl,
)

pub read_exact-RoundTrips : (bs : Bytes) → RoundTrips (ok bs) (read_exact (length bs)) bs
read_exact-RoundTrips bs = record { bytes = bs; writes = refl; reads = read_exact-append bs }

read_exact-replicate :
    (n : ℕ) (rest : Bytes) → read_exact n (replicate n 0 ++ rest) ≡ ok (replicate n 0, rest)
read_exact-replicate n rest =
    rw (length-replicate {A = ℕ} n 0) at (read_exact-append (replicate n 0) rest)

pub read_padding-write_padding : (n : ℕ) → RoundTrips (write_padding n) (read_padding n) tt
unfolding write_padding read_padding ◌>>=◌ pure
read_padding-write_padding n = record {
  bytes = if ltb 0 (padding_len n) then replicate (padding_len n) 0 else [];
  writes = refl;
  reads = λ rest. ground (arith, read_exact-replicate (padding_len n) rest);
}

pub read_usize-write_usize : (n : ℕ) → IsU32 n → RoundTrips (write_usize n) read_usize n
unfolding read_usize
read_usize-write_usize n h = rw (fits n h) (read_u32-write_u32 n h)
  where
    fits : (n : ℕ) → IsU32 n → write_usize n ≡ write_u32 n
    fits n h = unfold write_usize in ground arith

padded_RoundTrips :
    (bs : Bytes)
    → RoundTrips
        (ok bs ⊕ write_padding (length bs))
        (do x ← read_exact (length bs); _ ← read_padding (length bs); pure x)
        bs
padded_RoundTrips bs =
    RoundTrips-bind _ (read_exact-RoundTrips bs)
      (RoundTrips-map (λ _. bs) (read_padding-write_padding (length bs)))

opaque_body :
    (n : ℕ)
    → n ≤ max_xdr_opaque_length
    → read_opaque_body n ≡ (do bs ← read_exact n; _ ← read_padding n; pure bs)
unfolding read_opaque_body
opaque_body n h = ground arith

-- What `[u8]` serializes to is read back as the same `Vec<u8>`, up to the limit on its length.
pub read_opaque-write_opaque :
    (bs : Bytes) → length bs ≤ max_xdr_opaque_length → RoundTrips (write_opaque bs) read_opaque bs
unfolding write_opaque read_opaque
read_opaque-write_opaque bs h =
    RoundTrips-bind _ (read_usize-write_usize (length bs) (omega arith))
      (rw (opaque_body (length bs) h) (padded_RoundTrips bs))

pub read_fixed-write_fixed : (bs : Bytes) → RoundTrips (write_fixed bs) (read_fixed (length bs)) bs
unfolding write_fixed read_fixed
read_fixed-write_fixed bs = padded_RoundTrips bs

-- An opaque longer than the limit is refused before any of it is read.
pub read_opaque_too_long :
    (n : ℕ) (rest : Bytes)
    → IsU32 n
    → max_xdr_opaque_length < n
    → read_opaque (u32_bytes n ++ rest) ≡ err invalid_data
unfolding read_opaque read_opaque_body fail ◌>>=◌ read_usize
read_opaque_too_long n rest h k = ground (arith, read_u32-u32_bytes n rest h)

padding_len-lt : (n : ℕ) → padding_len n < 4
unfolding padding_len
padding_len-lt n = omega arith

padding_aligned : (n : ℕ) → (n + padding_len n) % 4 ≡ 0
unfolding padding_len
padding_aligned n = omega arith

-- The encoding of opaque data fills whole units of four bytes, and is no longer than it must be.
pub write_opaque_aligned :
    (bs out : Bytes)
    → write_opaque bs ≡ ok out
    → (length out % 4 ≡ 0) × (4 + length bs ≤ length out) × (length out < 8 + length bs)
unfolding write_opaque write_usize write_padding write_u32 u32_bytes ◌⊕◌
write_opaque_aligned bs out e = ground (
  arith,
  padding_aligned (length bs),
  padding_len-lt (length bs),
  length-append bs (replicate (padding_len (length bs)) 0),
  length-append bs [],
  length-replicate {A = ℕ} (padding_len (length bs)) 0,
)

pub read_exact-Ensures :
    (n : ℕ) (s : Bytes)
    → Ensures (λ bs rest. (length bs ≡ n) × (length s ≡ n + length rest)) (read_exact n s)
unfolding read_exact
read_exact-Ensures n s = elim (Bool-cases (leb n (length s))) [
  | inl h ↦
      rw h (Ensures-ok _ _ (omega (arith, leb→le n (length s) h, length-take n s, length-drop n s)))
  | inr h ↦ rw h (Ensures-err _)
]

read_padding-Ensures :
    (n : ℕ) (s : Bytes) → Ensures (λ _ rest. length rest ≤ length s) (read_padding n s)
unfolding read_padding pure
read_padding-Ensures n s = elim (Bool-cases (ltb 0 (padding_len n))) [
  | inl h ↦ rw h (
      Ensures-bind _ _ s (read_exact-Ensures (padding_len n) s)
        (λ bs rest k. Ensures-ok _ _ (omega arith)))
  | inr h ↦ rw h (Ensures-ok _ _ (omega arith))
]

padded-Ensures :
    (n : ℕ) (s : Bytes)
    → Ensures
        (λ bs rest. (length bs ≡ n) × (n + length rest ≤ length s))
        ((do bs ← read_exact n; _ ← read_padding n; pure bs) s)
unfolding pure
padded-Ensures n s = Ensures-bind _ _ s (read_exact-Ensures n s) (λ bs s' k.
    Ensures-bind _ _ s' (read_padding-Ensures n s') (λ _ rest l. Ensures-ok _ _ (omega arith)))

read_opaque_body-Ensures :
    (n : ℕ) (s : Bytes)
    → Ensures
        (λ bs rest. (length bs ≤ max_xdr_opaque_length) × (length bs + length rest ≤ length s))
        (read_opaque_body n s)
unfolding read_opaque_body fail
read_opaque_body-Ensures n s = elim (Bool-cases (ltb max_xdr_opaque_length n)) [
  | inl h ↦ rw h (Ensures-err _)
  | inr h ↦ rw h (Ensures-mono (padded-Ensures n s) (λ bs rest k. ground arith))
]

read_opaque-Ensures :
    (s : Bytes)
    → Ensures
        (λ bs rest. (length bs ≤ max_xdr_opaque_length) × (length bs + length rest + 4 ≤ length s))
        (read_opaque s)
unfolding read_opaque read_usize
read_opaque-Ensures s =
    Ensures-bind _ _ s (read_u32-Ensures s)
      (λ n s' k. Ensures-mono (read_opaque_body-Ensures n s') (λ bs rest l. omega arith))

-- Whatever the input holds, a successful read stays within the limit and within the input.
pub read_opaque_bounds :
    (s bs rest : Bytes)
    → read_opaque s ≡ ok (bs, rest)
    → (length bs ≤ max_xdr_opaque_length) × (length bs + length rest + 4 ≤ length s)
read_opaque_bounds s bs rest e = Ensures-elim (read_opaque-Ensures s) e
