-- ===== src/Xdr/Array.antt =====
-- protocol/xdr/mod.rs: enumerations, arrays and optional data, over the codec of their items.
use fernfs.Prelude.{
  ℕ, zero, suc, ◌/◌, ◌≤◌, ◌≡◌, true, false, Option, none, some, List, [], ◌∷◌, arith, ltb,
  if◌then◌else◌, length, All,
}
use fernfs.Io.{Result, ok, invalid_data, Bytes, Reader, ◌>>=◌, pure, fail, ◌⊕◌, RoundTrips}
use fernfs.Io.RoundTrip.{RoundTrips-bind, RoundTrips-map, RoundTrips-pure}
use fernfs.Xdr.Word.{IsU32, write_u32, read_u32, write_bool, read_bool, read_u32-write_u32}
use fernfs.Xdr.Word.{read_bool-write_bool}
use fernfs.Xdr.Opaque.{max_xdr_opaque_length, alignment, write_usize, read_usize}
use fernfs.Xdr.Opaque.Laws.{read_usize-write_usize}

-- `SerializeEnum` and `DeserializeEnum`, over `to_i32` and `from_i32` of the enumeration. All
-- discriminants are non-negative, so a negative `i32` has no value, as a pattern above 2 ^ 31 has.
module _ {ℓ} {A : Type ℓ} where
  unfoldable pub write_enum : (A → ℕ) → A → Result Bytes
  write_enum to_i32 a = write_u32 (to_i32 a)

  unfoldable pub or_invalid : Option A → Reader A
  or_invalid none = fail invalid_data
  or_invalid (some a) = pure a

  unfoldable pub read_enum : (ℕ → Option A) → Reader A
  read_enum from_i32 = do v ← read_u32; or_invalid (from_i32 v)

  pub read_enum-write_enum :
      (to_i32 : A → ℕ) (from_i32 : ℕ → Option A) (a : A)
      → IsU32 (to_i32 a)
      → from_i32 (to_i32 a) ≡ some a
      → RoundTrips (write_enum to_i32 a) (read_enum from_i32) a
  unfolding write_enum read_enum or_invalid pure ◌>>=◌
  read_enum-write_enum to_i32 from_i32 a h e =
      let word = read_u32-write_u32 (to_i32 a) h in
      record {
        bytes = word.bytes;
        writes = word.writes;
        reads = λ rest. rw (word.reads rest, ◌>>=◌) (rw (e, or_invalid));
      }

abbrev pub max_xdr_array_length : ℕ
max_xdr_array_length = max_xdr_opaque_length / alignment

-- `[T]`, `Vec<T>` and `Option<T>`
module _ {ℓ} {A : Type ℓ} where
  unfoldable pub write_items : (A → Result Bytes) → List A → Result Bytes
  write_items w [] = ok []
  write_items w (x ∷ xs) = w x ⊕ write_items w xs

  unfoldable pub write_array : (A → Result Bytes) → List A → Result Bytes
  write_array w xs = write_usize (length xs) ⊕ write_items w xs

  unfoldable pub read_items : ℕ → Reader A → Reader (List A)
  read_items zero p = pure []
  read_items (suc n) p = do x ← p; xs ← read_items n p; pure (x ∷ xs)

  unfoldable pub read_array_body : Reader A → ℕ → Reader (List A)
  read_array_body p n = if ltb max_xdr_array_length n then fail invalid_data else read_items n p

  unfoldable pub read_array : Reader A → Reader (List A)
  read_array p = do n ← read_usize; read_array_body p n

  unfoldable pub write_option : (A → Result Bytes) → Option A → Result Bytes
  write_option w none = write_bool false
  write_option w (some a) = write_bool true ⊕ w a

  unfoldable pub read_option : Reader A → Reader (Option A)
  read_option p = do b ← read_bool; if b then (do a ← p; pure (some a)) else pure none

module _ {ℓ} {A : Type ℓ} (w : A → Result Bytes) (p : Reader A) where
  read_items-write_items :
      (xs : List A)
      → All (λ a. RoundTrips (w a) p a) xs
      → RoundTrips (write_items w xs) (read_items (length xs) p) xs
  unfolding write_items read_items
  read_items-write_items [] h = RoundTrips-pure []
  read_items-write_items (x ∷ xs) (hx, hxs) =
      RoundTrips-bind _ hx (RoundTrips-map (λ ys. x ∷ ys) (read_items-write_items xs hxs))

  -- An array is read back if each item is, up to the limit on the count.
  pub read_array-write_array :
      (xs : List A)
      → length xs ≤ max_xdr_array_length
      → All (λ a. RoundTrips (w a) p a) xs
      → RoundTrips (write_array w xs) (read_array p) xs
  unfolding write_array read_array
  read_array-write_array xs h all =
      RoundTrips-bind _ (read_usize-write_usize (length xs) (omega arith))
        (rw (within (length xs) h) (read_items-write_items xs all))
    where
      within : (n : ℕ) → n ≤ max_xdr_array_length → read_array_body p n ≡ read_items n p
      within n h = unfold read_array_body in ground arith

  pub read_option-write_option-some :
      (a : A) → RoundTrips (w a) p a → RoundTrips (write_option w (some a)) (read_option p) (some a)
  unfolding write_option read_option
  read_option-write_option-some a h =
      RoundTrips-bind _ (read_bool-write_bool true) (RoundTrips-map some h)
