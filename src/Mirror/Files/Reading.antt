-- ===== src/Mirror/Files/Reading.antt =====
-- bin/fernfs/fs.rs: which bytes `read` answers.
use fernfs.Prelude.{
  ℕ, zero, suc, ◌+◌, ◌-◌, ◌%◌, ◌^◌, ◌<◌, ◌≤◌, ◌≡◌, refl, ap, ◌∙◌, min, Bool, Bool-cases, inl, inr,
  some, List, [], arith, leb, length, take, drop, take_all, drop_all, length-drop,
}
use fernfs.Io.{Bytes}
use fernfs.Xdr.Nfs3.{NfsResult}
use fernfs.Mirror.Entry.{FsEntry}
use fernfs.Mirror.Map.{find_entry}
use fernfs.Mirror.Host.{IoResult, Host, Interner, Mirror, M, ◌>>=◌, bind_ok, look}
use fernfs.Mirror.Refresh.{find, sym_to_path}
use fernfs.Mirror.Files.{as_noent, read_window, path_of, read_clamped, read}

take-nil : {A : Type 0} (n : ℕ) → take {A = A} n [] ≡ []
take-nil zero = refl
take-nil (suc n) = refl

take-min : {A : Type 0} (n : ℕ) (xs : List A) → take (min n (length xs)) xs ≡ take n xs
take-min n xs = elim (Bool-cases (leb (length xs) n)) [
  | inl t ↦ rw (take_all (min n (length xs)) xs (ground arith), take_all n xs (ground arith)) refl
  | inr f ↦ ap (λ k. take k xs) (ground arith)
]

-- The bytes of a range that is cut off at the end of the file.
clamped_range :
    {A : Type 0} (offset count : ℕ) (xs : List A)
    → take
        (min (offset + count) (length xs) - min offset (length xs))
        (drop (min offset (length xs)) xs)
      ≡ take count (drop offset xs)
clamped_range offset count xs = elim (Bool-cases (leb offset (length xs))) [
  | inl t ↦
      let start : min offset (length xs) ≡ offset = ground arith in
      let size : min (offset + count) (length xs) - offset ≡ min count (length (drop offset xs)) =
        rw (length-drop offset xs) (ground arith) in
      rw (start, size) (take-min count (drop offset xs))
  | inr f ↦
      let start : min offset (length xs) ≡ length xs = ground arith in
      rw
        (
          start,
          drop_all (length xs) xs (omega arith),
          drop_all offset xs (ground arith),
          take-nil count,
        )
        (take-nil _)
]

module _ (offset count : ℕ) where
  window :
      (len : ℕ)
      → offset + count < 2 ^ 64
      → read_window len offset count
        ≡ some (min offset len, min (offset + count) len - min offset len, leb len (offset + count))
  unfolding read_window
  window len h =
      let e : (offset + count) % 2 ^ 64 ≡ offset + count = omega arith in
      rw (read_window, e) (ground arith)

module _ {T H : Type 0} (interner : Interner T) (host : Host H) (id offset count : ℕ)
    (s : Mirror T H) (e : FsEntry) where
  pub path_known :
      find_entry id s.fsmap ≡ NfsResult.ok e
      → path_of interner host id s
        ≡ some (NfsResult.ok (sym_to_path interner host e.name s.fsmap), s)
  unfolding path_of find ◌>>=◌
  path_known found = rw (path_of, ◌>>=◌, find, found) refl

  -- A file that is found and measured.
  read_known :
      (len : ℕ)
      → let path = sym_to_path interner host e.name s.fsmap in
        find_entry id s.fsmap ≡ NfsResult.ok e
        → host.file_len path s.host ≡ IoResult.done len
        → read interner host id offset count s ≡ read_clamped interner host path offset count len s
  unfolding read
  read_known len found measured =
      let path = sym_to_path interner host e.name s.fsmap in
      let rest : Bytes → M T H (Bytes × Bool) =
        λ p. look (host.file_len p) as_noent >>= read_clamped interner host p offset count in
      bind_ok (path_of interner host id) rest s path s (path_known found)
      ∙ bind_ok (look (host.file_len path) as_noent) (read_clamped interner host path offset count)
          s len s (rw measured refl)

module _ {T H : Type 0} (interner : Interner T) (host : Host H) (id offset count : ℕ)
    (s : Mirror T H) (e : FsEntry) (contents : Bytes) where
  -- If the file of an identifier has some contents on the host, which the host measures and reads,
  -- and the end of the range is below 2^64, then `read` answers the bytes of the contents from the
  -- offset on, as many as are asked for and there are, and whether these reach the end.
  pub read_lem :
      let path = sym_to_path interner host e.name s.fsmap in
      find_entry id s.fsmap ≡ NfsResult.ok e
      → host.file_len path s.host ≡ IoResult.done (length contents)
      → ((start size : ℕ)
          → start + size ≤ length contents
          → host.read_exact path start size s.host
            ≡ IoResult.done (take size (drop start contents)))
      → offset + count < 2 ^ 64
      → read interner host id offset count s
        ≡ some (
          NfsResult.ok (take count (drop offset contents), leb (length contents) (offset + count)),
          s,
        )
  unfolding read_clamped ◌>>=◌
  read_lem found measured reads bound =
      let len = length contents in
      let start = min offset len in
      let size = min (offset + count) len - start in
      let there = reads start size (ground arith) in
      read_known interner host id offset count s e len found measured
      ∙ rw (read_clamped, window offset count len bound, ◌>>=◌, there)
          (rw (clamped_range offset count contents) refl)
