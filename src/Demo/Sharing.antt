-- ===== src/Demo/Sharing.antt =====
-- examples/demo_fs/fs.rs: what is written to a file is read through each of its links.
use fernfs.Prelude.{
  ℕ, zero, suc, ◌+◌, ◌-◌, ◌%◌, ◌^◌, ◌≤◌, ◌≡◌, refl, ap, ◌∙◌, min, true, false, Bool-cases, inl, inr,
  some, List, [], ◌∷◌, ◌++◌, arith, leb, ltb, ◌==◌, nat_eq, if◌then◌else◌, length, take, drop,
  replicate, length-append, length-take, length-drop, length-replicate, take-append, drop-append,
}
use fernfs.Prelude.{◌&&◌}
use fernfs.Io.{Bytes}
use fernfs.Xdr.Nfs3.{NfsResult, Fattr, file_sync}
use fernfs.Demo.Entry.{Contents, DemoEntry, DemoFs, get_at, modify_at}
use fernfs.Demo.Look.{getattr, read_slice, read_cell, read}
use fernfs.Demo.Change.{
  isize_max, resize, copy_from_slice, write_bytes, written_to, set_sizes, resized, share_size,
  write_cell, write_answer, write,
}

module _ {A : Type 0} where
  pub get_at-modify_at :
      (n m : ℕ) (f : A → A) (xs : List A) (x : A)
      → get_at xs n ≡ some x
      → get_at (modify_at n f xs) m ≡ (if n == m then some (f x) else get_at xs m)
  unfolding get_at modify_at
  get_at-modify_at n m f [] x h = ground (arith, h)
  get_at-modify_at zero zero f (y ∷ xs) x h = ground (arith, h)
  get_at-modify_at zero (suc m) f (y ∷ xs) x h = ground arith
  get_at-modify_at (suc n) zero f (y ∷ xs) x h = ground arith
  get_at-modify_at (suc n) (suc m) f (y ∷ xs) x h = get_at-modify_at n m f xs x h ∙ ground arith

copy_from_slice_lem :
    (offset : ℕ) (payload bytes : Bytes)
    → offset + length payload ≤ length bytes
    → (w : Bytes) × (copy_from_slice offset (offset + length payload) payload bytes ≡ some w)
      × (take (length payload) (drop offset w) ≡ payload)
      × (length w ≡ length bytes)
unfolding copy_from_slice
copy_from_slice_lem offset payload bytes h =
    let stop = offset + length payload in
    let w = take offset bytes ++ (payload ++ drop stop bytes) in
    let front : length (take offset bytes) ≡ offset = rw (length-take offset bytes) (omega arith) in
    let fits : (leb offset stop && leb stop (length bytes)) ≡ true = ground arith in
    (
      w,
      rw fits refl,
      rw (drop-append offset (take offset bytes) (payload ++ drop stop bytes) front)
          (take-append (length payload) payload (drop stop bytes) refl),
      rw
          (
            length-append (take offset bytes) (payload ++ drop stop bytes),
            front,
            length-append payload (drop stop bytes),
            length-drop stop bytes,
          )
          (omega arith),
    )

written_whole :
    (offset : ℕ) (payload bytes : Bytes)
    → offset + length payload ≤ isize_max
    → write_bytes offset payload bytes ≡ written_to offset (offset + length payload) payload bytes
unfolding write_bytes
written_whole offset payload bytes h =
    ap (λ stop. written_to offset stop payload bytes) (omega arith)

-- What a write makes of the bytes of a file.
write_bytes_lem :
    (offset : ℕ) (payload bytes : Bytes)
    → offset + length payload ≤ isize_max
    → (w : Bytes) × (write_bytes offset payload bytes ≡ some w)
      × (take (length payload) (drop offset w) ≡ payload)
      × (length w ≡ (
          if ltb (length bytes) (offset + length payload)
          then offset + length payload
          else length bytes))
unfolding written_to resize
write_bytes_lem offset payload bytes h =
    let stop = offset + length payload in
    let no_wrap = written_whole offset payload bytes h in
    elim (Bool-cases (ltb (length bytes) stop)) [
      | inl t ↦
          let within : leb stop isize_max ≡ true = ground arith in
          let grown = take stop bytes ++ replicate (stop - length bytes) 0 in
          let long : length grown ≡ stop =
            rw
              (
                length-append (take stop bytes) (replicate (stop - length bytes) 0),
                length-take stop bytes,
                length-replicate {A = ℕ} (stop - length bytes) 0,
              )
              (ground arith) in
          let (w, made, back, size) = copy_from_slice_lem offset payload grown (omega arith) in
          (w, no_wrap ∙ rw (written_to, t, resize, within) made, back, rw t (size ∙ long))
      | inr f ↦
          let (w, made, back, size) = copy_from_slice_lem offset payload bytes (ground arith) in
          (w, no_wrap ∙ rw (written_to, f) made, back, rw f size)
    ]

get_at-share_size :
    (cell size : ℕ) (es : List DemoEntry) (id : ℕ) (e : DemoEntry)
    → get_at es id ≡ some e
    → get_at (share_size cell size es) id ≡ some (resized cell size e)
unfolding share_size get_at
get_at-share_size cell size [] id e h = ground (arith, h)
get_at-share_size cell size (x ∷ es) zero e h = ground (arith, h)
get_at-share_size cell size (x ∷ es) (suc id) e h = get_at-share_size cell size es id e h

resized_contents :
    (cell size : ℕ) (e : DemoEntry)
    → e.contents ≡ Contents.file cell
    → (resized cell size e).contents ≡ Contents.file cell
unfolding resized set_sizes
resized_contents cell size e h = rw (resized, h) (ground (arith, h))

read_slice_lem :
    (offset : ℕ) (payload bytes w : Bytes)
    → offset + length payload ≤ isize_max
    → take (length payload) (drop offset w) ≡ payload
    → length w ≡ (
        if ltb (length bytes) (offset + length payload)
        then offset + length payload
        else length bytes)
    → read_slice w offset (length payload)
      ≡ some (payload, leb (length bytes) (offset + length payload))
unfolding read_slice
read_slice_lem offset payload bytes w h back size =
    let stop = offset + length payload in
    let whole : stop % 2 ^ 64 ≡ stop = omega arith in
    let long : stop ≤ length w = ground arith in
    let start_is : min offset (length w) ≡ offset = omega arith in
    let stop_is : min stop (length w) ≡ stop = omega arith in
    let ordered : ltb stop offset ≡ false = ground arith in
    let all : stop - offset ≡ length payload = omega arith in
    let last : leb (length w) stop ≡ leb (length bytes) stop = ground arith in
    rw (whole, start_is, stop_is, ordered, all, back, last) refl

write_file :
    (id cell offset : ℕ) (payload : Bytes) (s s' : DemoFs) (e : DemoEntry)
    → get_at s.entries id ≡ some e
    → e.contents ≡ Contents.file cell
    → write_cell cell offset payload s ≡ some s'
    → write id offset payload s ≡ write_answer id payload s'
unfolding write
write_file id cell offset payload s s' e here is_file made = rw (write, here, is_file, made) refl

module _ (id id' cell offset : ℕ) (payload bytes : Bytes) (s : DemoFs) (e e' : DemoEntry) where
  -- What is written to a file is read back through each of its links: whatever identifier leads to the
  -- same bytes, reading as much from the same offset answers what was written, and whether nothing
  -- comes after it. The file and what is written do not pass the longest vector.
  pub read-write :
      get_at s.entries id ≡ some e
      → e.contents ≡ Contents.file cell
      → get_at s.entries id' ≡ some e'
      → e'.contents ≡ Contents.file cell
      → get_at s.cells cell ≡ some bytes
      → offset + length payload ≤ isize_max
      → (attr : Fattr) × (s' : DemoFs) × (write id offset payload s
          ≡ some (NfsResult.ok (attr, file_sync, length payload % 2 ^ 32), s'))
        × (read id' offset (length payload) s'
            ≡ some (NfsResult.ok (payload, leb (length bytes) (offset + length payload)), s'))
  unfolding write write_cell write_answer getattr read read_cell
  read-write here is_file there is_file' stored h =
      let (w, made, back, size) = write_bytes_lem offset payload bytes h in
      let cells = modify_at cell (λ x. w) s.cells in
      let entries = share_size cell (length w) s.entries in
      let s' : DemoFs = record { entries = entries; cells = cells } in
      let own = get_at-share_size cell (length w) s.entries id e here in
      let other = get_at-share_size cell (length w) s.entries id' e' there in
      let kept = resized_contents cell (length w) e' is_file' in
      let changed : get_at cells cell ≡ some w =
        get_at-modify_at cell cell (λ x. w) s.cells bytes stored ∙ ground arith in
      let slice = read_slice_lem offset payload bytes w h back size in
      (
        (resized cell (length w) e).attr,
        s',
        write_file id cell offset payload s s' e here is_file (rw (write_cell, stored, made) refl)
            ∙ rw (write_answer, getattr, own) refl,
        rw (read, other, kept, read_cell, changed, slice) refl,
      )
