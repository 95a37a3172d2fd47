-- ===== src/Rpc/Wire/Written.antt =====
-- What `write_fragment` writes is a record of the framing, whatever the size of the message.
use mathlib.Core.List.{map}
use mathlib.Core.Path.{ap₂}
use fernfs.Prelude.{
  ℕ, zero, suc, ◌≤◌, ◌<◌, ◌≡◌, ◌≢◌, refl, sym, ◌∙◌, ap, min, true, false, Bool-cases, inl, inr,
  List, [], ◌∷◌, ◌++◌, append_assoc, append-nil, arith, leb, le→leb, length, take, drop, take_all,
  drop_all, length-take, length-drop, take-append-drop, All, if◌then◌else◌,
}
use native.Mathlib.Decide.{dec_lt}
use fernfs.Io.{unexpected_eof, Bytes}
use fernfs.Xdr.Word.{u32_bytes}
use fernfs.Xdr.Opaque.{max_rpc_record_length}
use fernfs.Rpc.Wire.{write_fragments, write_fragment, max_fragment_size, receive}
use fernfs.Rpc.Wire.Records.{
  Cut, fragment, fragments, contents, encode_record, encode_stream, CutFits, receive-encode_stream,
}

-- The fragments into which the loop cuts the message.
unfoldable pub cut : ℕ → ℕ → Bytes → Cut
cut max_size zero buf = record { firsts = []; final = buf }
cut max_size (suc fuel) buf =
    let rest = cut max_size fuel (drop max_size buf) in
    let more : Cut = record { firsts = take max_size buf ∷ rest.firsts; final = rest.final } in
    if leb (length buf) max_size then record { firsts = []; final = buf } else more

write_nothing : (max_size fuel : ℕ) → write_fragments max_size fuel [] ≡ []
unfolding write_fragments
write_nothing max_size zero = refl
write_nothing max_size (suc fuel) = refl

contents-cut : (max_size fuel : ℕ) (buf : Bytes) → contents (cut max_size fuel buf) ≡ buf
unfolding cut
contents-cut max_size zero buf = refl
contents-cut max_size (suc fuel) buf = elim (Bool-cases (leb (length buf) max_size)) [
  | inl small ↦ rw (small, cut)
  | inr large ↦
      rw (large, cut)
        (rw append_assoc
          (rw (contents-cut max_size fuel (drop max_size buf)) (take-append-drop max_size buf)))
]

pub nonempty : (xs : Bytes) → 0 < length xs → xs ≢ []
nonempty [] h = absurd (omega arith)
nonempty (x ∷ xs) h = λ e. cc

lt→leb : (a b : ℕ) → a < b → leb b a ≡ false
lt→leb a b h = ground arith

write_last :
    (max_size fuel : ℕ) (b : ℕ) (buf : Bytes)
    → length (b ∷ buf) ≤ max_size
    → write_fragments max_size (suc fuel) (b ∷ buf) ≡ fragment true (b ∷ buf)
unfolding write_fragments u32_bytes
write_last max_size fuel b buf h =
    let n = length buf in
    let whole : min (suc n) max_size ≡ suc n = omega arith in
    rw whole (
      rw (le→leb (suc n) (suc n) (omega arith)) (
        rw (take_all n buf (omega arith), drop_all n buf (omega arith))
          (ap (λ r. fragment true (b ∷ buf) ++ r) (write_nothing max_size fuel) ∙ append-nil _)))

write_more :
    (max_size fuel : ℕ) (b : ℕ) (buf : Bytes)
    → max_size < length (b ∷ buf)
    → write_fragments max_size (suc fuel) (b ∷ buf)
      ≡ fragment false (take max_size (b ∷ buf))
        ++ write_fragments max_size fuel (drop max_size (b ∷ buf))
unfolding write_fragments
write_more max_size fuel b buf h =
    let n = length buf in
    let part : min (suc n) max_size ≡ max_size = omega arith in
    let size : length (take max_size (b ∷ buf)) ≡ max_size =
      omega (arith, length-take max_size (b ∷ buf)) in
    rw part (rw (lt→leb max_size (suc n) h) (rw (size, append_assoc)))

cut_last :
    (max_size fuel : ℕ) (buf : Bytes)
    → length buf ≤ max_size
    → encode_record (cut max_size (suc fuel) buf) ≡ fragment true buf
unfolding cut
cut_last max_size fuel buf h = rw (le→leb (length buf) max_size h)

cut_more :
    (max_size fuel : ℕ) (buf : Bytes)
    → max_size < length buf
    → encode_record (cut max_size (suc fuel) buf)
      ≡ fragment false (take max_size buf) ++ encode_record (cut max_size fuel (drop max_size buf))
unfolding cut
cut_more max_size fuel buf h =
    let rest = cut max_size fuel (drop max_size buf) in
    rw (lt→leb max_size (length buf) h) (
      append_assoc (fragment false (take max_size buf)) (fragments rest.firsts)
        (fragment true rest.final))

pub write_fragments-cut :
    (max_size fuel : ℕ) (buf : Bytes)
    → 0 < max_size
    → buf ≢ []
    → length buf ≤ fuel
    → write_fragments max_size fuel buf ≡ encode_record (cut max_size fuel buf)
write_fragments-cut max_size zero [] p ne h = absurd (ne refl)
write_fragments-cut max_size (suc fuel) [] p ne h = absurd (ne refl)
write_fragments-cut max_size zero (b ∷ buf) p ne h = absurd (omega arith)
write_fragments-cut max_size (suc fuel) (b ∷ buf) p ne h =
    elim (dec_lt max_size (length (b ∷ buf))) [
      | yes more ↦
          let rest = drop max_size (b ∷ buf) in
          let size = length-drop max_size (b ∷ buf) in
          write_more max_size fuel b buf more
          ∙ ap (λ r. fragment false (take max_size (b ∷ buf)) ++ r)
              (write_fragments-cut max_size fuel rest p (nonempty rest (omega (arith, size)))
                (omega (arith, size)))
          ∙ sym (cut_more max_size fuel (b ∷ buf) more)
      | no small ↦
          write_last max_size fuel b buf (omega arith)
          ∙ sym (cut_last max_size fuel (b ∷ buf) (omega arith))
    ]

-- Whatever the size of a message that is not empty, `write_fragment` writes one record that holds
-- the message, so a reader that joins the fragments gets it back.
pub write_fragment_lem :
    (buf : Bytes)
    → buf ≢ []
    → (c : Cut) × (write_fragment buf ≡ encode_record c) × (contents c ≡ buf)
unfolding write_fragment
write_fragment_lem buf ne = (
  cut max_fragment_size (length buf) buf,
  write_fragments-cut max_fragment_size (length buf) buf (omega arith) ne (omega arith),
  contents-cut max_fragment_size (length buf) buf,
)

-- All messages of a list, each written by `write_fragment`.
abbrev pub write_all : List Bytes → Bytes
write_all [] = []
write_all (m ∷ ms) = write_fragment m ++ write_all ms

abbrev pub MessageFits : Bytes → Type 0
MessageFits m = (m ≢ []) × (length m ≤ max_rpc_record_length)

cuts : List Bytes → List Cut
cuts [] = []
cuts (m ∷ ms) = cut max_fragment_size (length m) m ∷ cuts ms

write_all-cuts : (ms : List Bytes) → All MessageFits ms → write_all ms ≡ encode_stream (cuts ms)
unfolding cuts write_fragment
write_all-cuts [] h = refl
write_all-cuts (m ∷ ms) ((ne, fits), hs) =
    ap₂ ◌++◌ (write_fragments-cut max_fragment_size (length m) m (omega arith) ne (omega arith))
      (write_all-cuts ms hs)

contents-cuts : (ms : List Bytes) → map contents (cuts ms) ≡ ms
unfolding cuts
contents-cuts [] = refl
contents-cuts (m ∷ ms) = ap₂ ◌∷◌ (contents-cut max_fragment_size (length m) m) (contents-cuts ms)

cuts-fit : (ms : List Bytes) → All MessageFits ms → All CutFits (cuts ms)
unfolding cuts
cuts-fit [] h = tt
cuts-fit (m ∷ ms) ((ne, fits), hs) =
    (omega (arith, ap length (contents-cut max_fragment_size (length m) m)), cuts-fit ms hs)

-- Messages that are not empty and within the limit, sent one after the other, are received whole
-- and in order.
pub receive-write_all :
    (ms : List Bytes)
    → All MessageFits ms
    → receive (write_all ms) ≡ (record { cur_fragment = []; submitted = ms }, unexpected_eof)
receive-write_all ms h =
    ap receive (write_all-cuts ms h)
    ∙ receive-encode_stream (cuts ms) (cuts-fit ms h)
    ∙ rw (contents-cuts ms)
