-- ===== src/Rpc/Wire/Records.antt =====
-- Reassembly: whatever the fragmentation, the records that arrive are submitted whole and in order.
use fernfs.Prelude.{
  ℕ, zero, suc, ◌+◌, ◌^◌, ◌≤◌, ◌<◌, ◌≡◌, refl, ◌∙◌, ap, Bool, true, false, List, [], ◌∷◌, ◌++◌,
  append_assoc, append-nil, arith, length, length-append, All,
}
use mathlib.Core.List.{map}
use fernfs.Io.{ok, unexpected_eof, Bytes, ◌>>=◌, pure}
use fernfs.Io.RoundTrip.{bind_ok}
use fernfs.Xdr.Word.{u32_bytes, read_u32, read_u32-u32_bytes}
use fernfs.Xdr.Opaque.{max_rpc_record_length}
use fernfs.Xdr.Opaque.Laws.{read_exact-append}
use fernfs.Rpc.Wire.{
  header_is_last, header_length, read_fragment_body, read_fragment, fragment_header, Handler,
  accept_fragment, read, read_loop, receive,
}

-- A fragment on the wire.
abbrev pub fragment : Bool → Bytes → Bytes
fragment is_last body = u32_bytes (fragment_header is_last (length body)) ++ body

-- A record on the wire, cut into fragments: those before the last, and the last.
pub record Cut : Type 0 where
  pub firsts : List Bytes
  pub final : Bytes

abbrev pub flat : List Bytes → Bytes
flat [] = []
flat (x ∷ xs) = x ++ flat xs

abbrev pub contents : Cut → Bytes
contents c = flat c.firsts ++ c.final

abbrev pub fragments : List Bytes → Bytes
fragments [] = []
fragments (x ∷ xs) = fragment false x ++ fragments xs

abbrev pub encode_record : Cut → Bytes
encode_record c = fragments c.firsts ++ fragment true c.final

abbrev pub encode_stream : List Cut → Bytes
encode_stream [] = []
encode_stream (c ∷ cs) = encode_record c ++ encode_stream cs

abbrev pub CutFits : Cut → Type 0
CutFits c = length (contents c) ≤ max_rpc_record_length

read_fragment_body_lem :
    (buffer body : Bytes) (is_last : Bool) (rest : Bytes)
    → length buffer + length body ≤ max_rpc_record_length
    → read_fragment_body buffer is_last (length body) (body ++ rest)
      ≡ ok ((is_last, buffer ++ body), rest)
unfolding read_fragment_body ◌>>=◌ pure
read_fragment_body_lem buffer body is_last rest h = ground (arith, read_exact-append body rest)

header_lem :
    (is_last : Bool) (n : ℕ)
    → n < 2 ^ 31
    → (fragment_header is_last n < 2 ^ 32)
      × (header_is_last (fragment_header is_last n) ≡ is_last)
      × (header_length (fragment_header is_last n) ≡ n)
header_lem is_last n h = ground arith

-- One fragment is read back with its flag and appended to the buffer.
pub read_fragment-fragment :
    (buffer body : Bytes) (is_last : Bool) (rest : Bytes)
    → length buffer + length body ≤ max_rpc_record_length
    → read_fragment buffer (fragment is_last body ++ rest) ≡ ok ((is_last, buffer ++ body), rest)
unfolding read_fragment ◌>>=◌
read_fragment-fragment buffer body is_last rest h =
    let (fits, flag, size) = header_lem is_last (length body) (omega arith) in
    rw append_assoc (
      rw (read_u32-u32_bytes (fragment_header is_last (length body)) (body ++ rest) fits, ◌>>=◌)
        (rw (flag, size) (read_fragment_body_lem buffer body is_last rest h)))

read_step :
    (h : Handler) (body : Bytes) (is_last : Bool) (rest : Bytes)
    → length h.cur_fragment + length body ≤ max_rpc_record_length
    → read h (fragment is_last body ++ rest)
      ≡ ok (accept_fragment h (is_last, h.cur_fragment ++ body), rest)
unfolding read pure
read_step h body is_last rest fits =
    bind_ok _ _ _ (read_fragment-fragment h.cur_fragment body is_last rest fits)

-- A round of the loop on a whole fragment.
loop_step :
    (fuel : ℕ) (h : Handler) (body : Bytes) (is_last : Bool) (rest : Bytes)
    → length h.cur_fragment + length body ≤ max_rpc_record_length
    → read_loop (suc fuel) h (fragment is_last body ++ rest)
      ≡ read_loop fuel (accept_fragment h (is_last, h.cur_fragment ++ body)) rest
unfolding read_loop
loop_step fuel h body is_last rest fits = rw (read_step h body is_last rest fits, read_loop)

-- From `s` on the loop goes on from `h'` with `rest`, and with fuel enough.
record GoesOn (fuel : ℕ) (h : Handler) (s : Bytes) (h' : Handler) (rest : Bytes) : Type 0 where
  left : ℕ
  enough : length rest < left
  same : read_loop fuel h s ≡ read_loop left h' rest

length-fragment : (is_last : Bool) (body : Bytes) → length (fragment is_last body) ≡ 4 + length body
unfolding u32_bytes
length-fragment is_last body = omega arith

loop_fragment :
    (fuel : ℕ) (h : Handler) (body : Bytes) (is_last : Bool) (rest : Bytes)
    → length h.cur_fragment + length body ≤ max_rpc_record_length
    → length (fragment is_last body ++ rest) < fuel
    → GoesOn fuel h
        (fragment is_last body ++ rest)
        (accept_fragment h (is_last, h.cur_fragment ++ body))
        rest
loop_fragment zero h body is_last rest fits enough = absurd (omega arith)
loop_fragment (suc fuel) h body is_last rest fits enough = record {
  left = fuel;
  enough = omega (arith, length-append (fragment is_last body) rest, length-fragment is_last body);
  same = loop_step fuel h body is_last rest fits;
}

GoesOn-trans :
    {fuel : ℕ} {h h' h'' : Handler} {s s' s'' : Bytes}
    → (g : GoesOn fuel h s h' s') → GoesOn g.left h' s' h'' s''
    → GoesOn fuel h s h'' s''
GoesOn-trans g k = record { left = k.left; enough = k.enough; same = g.same ∙ k.same }

-- The fragments before the last are gathered in the buffer.
loop_firsts :
    (xs : List Bytes) (fuel : ℕ) (h : Handler) (rest : Bytes)
    → length h.cur_fragment + length (flat xs) ≤ max_rpc_record_length
    → length (fragments xs ++ rest) < fuel
    → GoesOn fuel h
        (fragments xs ++ rest)
        (record h { cur_fragment = h.cur_fragment ++ flat xs })
        rest
unfolding accept_fragment
loop_firsts [] fuel h rest fits enough = record {
  left = fuel;
  enough = enough;
  same = rw append-nil;
}
loop_firsts (x ∷ xs) fuel h rest fits enough =
    let tail = fragments xs ++ rest in
    let g = loop_fragment fuel h x false tail (omega (arith, length-append x (flat xs))) (
      omega (
        arith,
        length-append (fragment false x) tail,
        length-append (fragment false x ++ fragments xs) rest,
        length-append (fragment false x) (fragments xs),
        length-append (fragments xs) rest,
      )) in
    rw
      (
        append_assoc (fragment false x) (fragments xs) rest,
        ← append_assoc h.cur_fragment x (flat xs),
      )
      (GoesOn-trans g (
        loop_firsts xs g.left (record h { cur_fragment = h.cur_fragment ++ x }) rest
          (omega (arith, length-append x (flat xs), length-append h.cur_fragment x)) g.enough))

-- A record that begins with an empty buffer is submitted whole.
loop_record :
    (c : Cut) (fuel : ℕ) (done : List Bytes) (rest : Bytes)
    → CutFits c
    → length (encode_record c ++ rest) < fuel
    → GoesOn fuel
        (record { cur_fragment = []; submitted = done })
        (encode_record c ++ rest)
        (record { cur_fragment = []; submitted = done ++ (contents c ∷ []) })
        rest
unfolding accept_fragment
loop_record c fuel done rest fits enough =
    let last = fragment true c.final in
    let split = append_assoc (fragments c.firsts) last rest in
    let g =
      loop_firsts c.firsts fuel (record { cur_fragment = []; submitted = done }) (last ++ rest)
        (omega (arith, length-append (flat c.firsts) c.final)) (omega (arith, ap length split)) in
    rw split (
      GoesOn-trans g (
        loop_fragment g.left (record { cur_fragment = flat c.firsts; submitted = done }) c.final
          true rest (omega (arith, length-append (flat c.firsts) c.final)) g.enough))

loop_stream :
    (cs : List Cut) (fuel : ℕ) (done : List Bytes)
    → All CutFits cs
    → length (encode_stream cs) < fuel
    → read_loop fuel (record { cur_fragment = []; submitted = done }) (encode_stream cs)
      ≡ (record { cur_fragment = []; submitted = done ++ map contents cs }, unexpected_eof)
loop_stream [] zero done h enough = absurd (omega arith)
loop_stream [] (suc fuel) done h enough =
    rw append-nil (unfold read_loop read read_fragment ◌>>=◌ read_u32 in refl)
loop_stream (c ∷ cs) fuel done (h, hs) enough =
    let g = loop_record c fuel done (encode_stream cs) h enough in
    g.same ∙ loop_stream cs g.left (done ++ (contents c ∷ [])) hs g.enough ∙ rw append_assoc

-- Whatever way the client cuts its records into fragments, the handler submits exactly these
-- records, whole and in the order sent, if none is longer than the limit; at the end of the stream
-- it stops with an empty buffer.
pub receive-encode_stream :
    (cs : List Cut)
    → All CutFits cs
    → receive (encode_stream cs)
      ≡ (record { cur_fragment = []; submitted = map contents cs }, unexpected_eof)
unfolding receive
receive-encode_stream cs h = loop_stream cs (suc (length (encode_stream cs))) [] h (omega arith)
