-- ===== src/Io/Ensures.antt =====
-- What a successful read ensures of its value and of the bytes that it leaves.
use mathlib.Core.Path.{subst}
use fernfs.Prelude.{◌≡◌}
use fernfs.Io.{Error, Result, ok, err, Bytes, Reader, ◌>>=◌}

abbrev pub Holds {ℓ κ} : {A : Type ℓ} → (A → Bytes → Type κ) → Result (A × Bytes) → Type κ
Holds P (ok (a, s)) = P a s
Holds P (err e) = Unit

pub record Ensures {ℓ κ} {A : Type ℓ} (P : A → Bytes → Type κ) (r : Result (A × Bytes))
    : Type (ℓ ⊔ κ) where
  pub holds : Holds P r

module _ {ℓ κ} {A : Type ℓ} {P : A → Bytes → Type κ} where
  pub Ensures-elim :
      {r : Result (A × Bytes)} {a : A} {s : Bytes} → Ensures P r → r ≡ ok (a, s) → P a s
  Ensures-elim h e = subst (Holds P) e h.holds

  pub Ensures-ok : (a : A) (s : Bytes) → P a s → Ensures P (ok (a, s))
  Ensures-ok a s h = record { holds = h }

  pub Ensures-err : (e : Error) → Ensures P (err e)
  Ensures-err e = record { holds = tt }

  pub Ensures-mono {ι} :
      {Q : A → Bytes → Type ι} {r : Result (A × Bytes)}
      → Ensures P r
      → ((a : A) (s : Bytes) → P a s → Q a s)
      → Ensures Q r
  Ensures-mono {r = ok (a, s)} h k = record { holds = k a s h.holds }
  Ensures-mono {r = err e} h k = record { holds = tt }

module _ {ℓ κ ι} {A : Type ℓ} {B : Type ℓ} {P : A → Bytes → Type κ} {Q : B → Bytes → Type ι} where
  bind_cases :
      (r : Result (A × Bytes)) (f : A → Reader B)
      → Ensures P r
      → ((a : A) (s : Bytes) → P a s → Ensures Q (f a s))
      → Ensures Q (elim r [ ok (a, s') ↦ f a s' | err e ↦ err e ])
  bind_cases (ok (a, s)) f h k = k a s h.holds
  bind_cases (err e) f h k = record { holds = tt }

  pub Ensures-bind :
      (p : Reader A) (f : A → Reader B) (s : Bytes)
      → Ensures P (p s)
      → ((a : A) (s' : Bytes) → P a s' → Ensures Q (f a s'))
      → Ensures Q ((p >>= f) s)
  unfolding ◌>>=◌
  Ensures-bind p f s h k = bind_cases (p s) f h k
