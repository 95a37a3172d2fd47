-- ===== src/Rpc/Wire/Bounds.antt =====
-- What holds of the handler on every stream, well formed or not.
use fernfs.Prelude.{saturating_add}
use fernfs.Prelude.{
  ℕ, zero, suc, ◌≤◌, ◌<◌, ◌≡◌, refl, Bool, true, false, Bool-cases, inl, inr, ◌⊎◌, List, [], ◌∷◌,
  ◌++◌, ltb, arith, length, length-append, All,
}
use mathlib.Core.Path.{subst}
use fernfs.Io.{Error, Result, ok, err, Bytes, pure, fail}
use fernfs.Io.Ensures.{Ensures, Ensures-ok, Ensures-err, Ensures-mono, Ensures-bind}
use fernfs.Xdr.Word.{read_u32-Ensures}
use fernfs.Xdr.Opaque.{max_rpc_record_length}
use fernfs.Xdr.Opaque.Laws.{read_exact-Ensures}
use fernfs.Rpc.Wire.{
  read_fragment_body, read_fragment, Handler, new_handler, accept_fragment, read, read_loop,
  receive,
}

abbrev pub InLimit : Bytes → Type 0
InLimit r = length r ≤ max_rpc_record_length

-- Neither the buffer nor a submitted command is longer than the limit.
pub record IsBounded (h : Handler) : Type 0 where
  pub buffer : InLimit h.cur_fragment
  pub commands : All InLimit h.submitted

read_fragment_body-Ensures :
    (buffer : Bytes) (is_last : Bool) (n : ℕ) (s : Bytes)
    → Ensures
        (λ r rest. InLimit r.1 × (length rest ≤ length s))
        (read_fragment_body buffer is_last n s)
unfolding read_fragment_body pure fail
read_fragment_body-Ensures buffer is_last n s =
    let test = ltb max_rpc_record_length (saturating_add (length buffer) n) in
    elim (Bool-cases test) [
      | inl h ↦ rw h (Ensures-err _)
      | inr h ↦ rw h (
          Ensures-bind _ _ s (read_exact-Ensures n s) (λ body rest k.
            Ensures-ok _ _ (ground (arith, length-append buffer body), omega arith)))
    ]

read_fragment-Ensures :
    (buffer s : Bytes)
    → Ensures (λ r rest. InLimit r.1 × (length rest < length s)) (read_fragment buffer s)
unfolding read_fragment
read_fragment-Ensures buffer s = Ensures-bind _ _ s (read_u32-Ensures s) (λ header s' k.
    Ensures-mono (read_fragment_body-Ensures buffer _ _ s') (λ r rest l. (l.0, omega arith)))

All-snoc : (rs : List Bytes) (r : Bytes) → All InLimit rs → InLimit r → All InLimit (rs ++ (r ∷ []))
All-snoc [] r h k = (k, tt)
All-snoc (x ∷ rs) r (h, hs) k = (h, All-snoc rs r hs k)

accept_fragment-IsBounded :
    (h : Handler) (r : Bool × Bytes) → IsBounded h → InLimit r.1 → IsBounded (accept_fragment h r)
unfolding accept_fragment
accept_fragment-IsBounded h (true, buffer) b k = record {
  buffer = omega arith;
  commands = All-snoc h.submitted buffer b.commands k;
}
accept_fragment-IsBounded h (false, buffer) b k = record { buffer = k; commands = b.commands }

read-Ensures :
    (h : Handler) (s : Bytes)
    → IsBounded h
    → Ensures (λ h' rest. IsBounded h' × (length rest < length s)) (read h s)
unfolding read pure
read-Ensures h s b =
    Ensures-bind _ _ s (read_fragment-Ensures h.cur_fragment s)
      (λ r rest k. Ensures-ok _ _ (accept_fragment-IsBounded h r b k.0, k.1))

module _ (rounds : ℕ) where
  step-IsBounded :
      (r : Result (Handler × Bytes)) (h : Handler)
      → IsBounded h
      → Ensures (λ h' rest. IsBounded h') r
      → ((h' : Handler) (s' : Bytes) → IsBounded h' → IsBounded (read_loop rounds h' s').0)
      → IsBounded
          (elim r as (λ _. Handler × Error) [
            | ok (h', s') ↦ read_loop rounds h' s'
            | err e ↦ (h, e)
          ]).0
  step-IsBounded (ok (h', s')) h b e k = k h' s' e.holds
  step-IsBounded (err x) h b e k = b

loop-IsBounded :
    (fuel : ℕ) (h : Handler) (s : Bytes) → IsBounded h → IsBounded (read_loop fuel h s).0
unfolding read_loop
loop-IsBounded zero h s b = b
loop-IsBounded (suc fuel) h s b =
    step-IsBounded fuel (read h s) h b (Ensures-mono (read-Ensures h s b) (λ h' rest k. k.0))
      (λ h' s' b'. loop-IsBounded fuel h' s' b')

-- On every stream of bytes, no record that is buffered or submitted is longer than the limit.
pub receive-IsBounded : (s : Bytes) → IsBounded (receive s).0
unfolding receive
receive-IsBounded s =
    loop-IsBounded (suc (length s)) new_handler s (record { buffer = omega arith; commands = tt })

read_shrinks : (h : Handler) (s : Bytes) → Ensures (λ h' rest. length rest < length s) (read h s)
unfolding read pure
read_shrinks h s =
    Ensures-bind _ _ s (read_fragment-Ensures h.cur_fragment s) (λ r rest k. Ensures-ok _ _ k.1)

-- The runs of the source's loop, which has no fuel: it goes on while `read` succeeds, and ends with the
-- error of a `read` that fails.
pub data Ends : Handler → Bytes → Handler → Error → Type 0 where
  stop : {h : Handler} {s : Bytes} {e : Error} → read h s ≡ err e → Ends h s h e
  again :
      {h h' last : Handler} {s s' : Bytes} {e : Error}
      → read h s ≡ ok (h', s')
      → Ends h' s' last e
      → Ends h s last e

Result-cases : {A : Type 0} (r : Result A) → ((a : A) × (r ≡ ok a)) ⊎ ((e : Error) × (r ≡ err e))
Result-cases (ok a) = inl (a, refl)
Result-cases (err e) = inr (e, refl)

shorter : (h h' : Handler) (s s' : Bytes) → read h s ≡ ok (h', s') → length s' < length s
shorter h h' s s' e =
    (subst (λ r. Ensures (λ x rest. length rest < length s) r) e (read_shrinks h s)).holds

-- On every stream and in every state, the loop of the source comes to an end after finitely many
-- rounds, because a `read` fails, and any fuel above the length of the stream gives the state and the
-- error with which it ends.
pub read_loop-Ends :
    (fuel : ℕ) (h : Handler) (s : Bytes)
    → length s < fuel
    → Ends h s (read_loop fuel h s).0 (read_loop fuel h s).1
unfolding read_loop
read_loop-Ends zero h s p = absurd (omega arith)
read_loop-Ends (suc fuel) h s p = elim (Result-cases (read h s)) [
  | inr (e, u) ↦ rw (read_loop, u) (stop u)
  | inl ((h', s'), u) ↦
      let less = shorter h h' s s' u in
      rw (read_loop, u) (again u (read_loop-Ends fuel h' s' (omega arith)))
]
