-- ===== src/Io/RoundTrip.antt =====
-- How the round trips of a value's fields make that of the value.
use fernfs.Prelude.{◌≡◌, refl, [], ◌++◌, append_assoc}
use fernfs.Io.{Result, ok, Bytes, Reader, ◌>>=◌, pure, ◌⊕◌, RoundTrips}

module _ {ℓ} {A : Type ℓ} where
  pub RoundTrips-pure : (a : A) → RoundTrips (ok []) (pure a) a
  unfolding pure
  RoundTrips-pure a = record { bytes = []; writes = refl; reads = λ rest. refl }

module _ {ℓ κ} {A : Type ℓ} {B : Type κ} where
  -- Fields are read back in the order in which they are written.
  pub RoundTrips-bind :
      {w v : Result Bytes} {p : Reader A} (f : A → Reader B) {a : A} {b : B}
      → RoundTrips w p a
      → RoundTrips v (f a) b
      → RoundTrips (w ⊕ v) (p >>= f) b
  unfolding ◌⊕◌ ◌>>=◌
  RoundTrips-bind f h k = record {
    bytes = h.bytes ++ k.bytes;
    writes = rw (h.writes, k.writes, ◌⊕◌);
    reads = λ rest. rw append_assoc (rw (h.reads (k.bytes ++ rest), ◌>>=◌) (k.reads rest));
  }

  -- The last field, and what is made of all of them.
  pub RoundTrips-map :
      {w : Result Bytes} {p : Reader A} (g : A → B) {a : A}
      → RoundTrips w p a
      → RoundTrips w (p >>= λ x. pure (g x)) (g a)
  unfolding ◌>>=◌ pure
  RoundTrips-map g h = record {
    bytes = h.bytes;
    writes = h.writes;
    reads = λ rest. rw (h.reads rest, ◌>>=◌);
  }

  -- A tag that says all.
  pub RoundTrips-tag :
      {w : Result Bytes} {p : Reader A} (f : A → Reader B) {a : A} (b : B)
      → RoundTrips w p a
      → f a ≡ pure b
      → RoundTrips w (p >>= f) b
  unfolding ◌>>=◌ pure
  RoundTrips-tag f b h e = record {
    bytes = h.bytes;
    writes = h.writes;
    reads = λ rest. rw (h.reads rest, ◌>>=◌) (rw e);
  }

  pub bind_ok :
      (p : Reader A) (f : A → Reader B) (s : Bytes) {a : A} {s' : Bytes}
      → p s ≡ ok (a, s')
      → (p >>= f) s ≡ f a s'
  unfolding ◌>>=◌
  bind_ok p f s e = rw (e, ◌>>=◌)
