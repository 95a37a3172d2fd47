-- ===== src/Io.antt =====
-- Fallible reads and writes: `std::io::Result`, a reader and a writer over bytes.
-- A writer here is always a `Vec<u8>` or a cursor over one, so a write itself never fails.
pub mod RoundTrip
pub mod Ensures
use fernfs.Prelude.{ℕ, ◌≡◌, List, ◌++◌}

-- `std::io::ErrorKind` and the messages of `anyhow!`, as far as the program tells them apart.
pub data Error : Type 0 where
  unexpected_eof invalid_data record_too_long bad_call_format queue_closed : Error

pub data Result {ℓ} (A : Type ℓ) : Type ℓ where
  ok : A → Result A
  err : Error → Result A

-- A byte is a number below 256.
abbrev pub Bytes : Type 0
Bytes = List ℕ

-- Bytes in front of the reader's position; a read that succeeds says what is left.
abbrev pub Reader {ℓ} : Type ℓ → Type ℓ
Reader A = Bytes → Result (A × Bytes)

module _ {ℓ κ} {A : Type ℓ} {B : Type κ} where
  infixl 5 ◌>>=◌
  unfoldable pub ◌>>=◌ : Reader A → (A → Reader B) → Reader B
  ◌>>=◌ p f s = elim (p s) [ ok (a, s') ↦ f a s' | err e ↦ err e ]

module _ {ℓ} {A : Type ℓ} where
  unfoldable pub pure : A → Reader A
  pure a s = ok (a, s)

  unfoldable pub fail : Error → Reader A
  fail e s = err e

-- `a.serialize(dest)?; b.serialize(dest)?`: the bytes that both write.
infixr 30 ◌⊕◌
unfoldable pub ◌⊕◌ : Result Bytes → Result Bytes → Result Bytes
ok a ⊕ ok b = ok (a ++ b)
ok a ⊕ err e = err e
err e ⊕ w = err e

-- The write succeeds, and `p` reads `a` back from what it wrote, whatever follows.
pub record RoundTrips {ℓ} {A : Type ℓ} (w : Result Bytes) (p : Reader A) (a : A) : Type ℓ where
  pub bytes : Bytes
  pub writes : w ≡ ok bytes
  pub reads : (rest : Bytes) → p (bytes ++ rest) ≡ ok (a, rest)
