-- ===== src/Prelude/HashMap.antt =====
-- `std::collections::HashMap` as an association list; a key is stored once.
use mathlib.Core.Path.{◌≡◌, refl}
use mathlib.Core.Bool.{Bool, true, false}
use mathlib.Core.Option.{Option, none, some}
use mathlib.Core.List.{List, [], ◌∷◌}
use native.Mathlib.Omega.{arith}
use fernfs.Prelude.Tests.{Eq, if◌then◌else◌}

abbrev pub HashMap {ℓ κ} : Type ℓ → Type κ → Type (ℓ ⊔ κ)
HashMap K V = List (K × V)

abbrev pub kept {κ} : {V : Type κ} → (V → Bool) → Option V → Option V
kept p none = none
kept p (some v) = if p v then some v else none

module _ {ℓ κ} {K : Type ℓ} {V : Type κ} where
  abbrev pub is_empty : HashMap K V → Bool
  is_empty [] = true
  is_empty (e ∷ m) = false

  -- `retain`, whose closure looks at the value alone
  unfoldable pub retain : (V → Bool) → HashMap K V → HashMap K V
  retain p [] = []
  retain p ((j, v) ∷ m) = let rest = retain p m in if p v then (j, v) ∷ rest else rest

module _ {ℓ κ} {K : Type ℓ} {V : Type κ} ⦃e : Eq K⦄ where
  unfoldable pub get : HashMap K V → K → Option V
  get [] k = none
  get ((j, v) ∷ m) k = if e.beq j k then some v else get m k

  unfoldable pub remove : HashMap K V → K → HashMap K V
  remove [] k = []
  remove ((j, v) ∷ m) k = let rest = remove m k in if e.beq j k then rest else (j, v) ∷ rest

  unfoldable pub insert : HashMap K V → K → V → HashMap K V
  unfolding remove
  insert m k v = (k, v) ∷ remove m k

  abbrev pub Absent : K → HashMap K V → Type 0
  Absent k [] = Unit {0}
  Absent k ((j, v) ∷ m) = (e.beq j k ≡ false) × Absent k m

  abbrev pub HasUniqueKeys : HashMap K V → Type 0
  HasUniqueKeys [] = Unit {0}
  HasUniqueKeys ((j, v) ∷ m) = Absent j m × HasUniqueKeys m

module _ {ℓ κ} {K : Type ℓ} {V : Type κ} ⦃e : Eq K⦄ where
  pub get-remove :
      (m : HashMap K V) (k j : K) → get (remove m k) j ≡ (if e.beq k j then none else get m j)
  unfolding get remove
  get-remove [] k j = ground arith
  get-remove ((i, v) ∷ m) k j =
      ground (arith, get-remove m k j, e.beq_iff i k, e.beq_iff i j, e.beq_iff k j)

  pub get-insert :
      (m : HashMap K V) (k j : K) (v : V)
      → get (insert m k v) j ≡ (if e.beq k j then some v else get m j)
  unfolding get insert
  get-insert m k j v = ground (arith, get-remove m k j)

  Absent-remove : (m : HashMap K V) (k j : K) → Absent j m → Absent j (remove m k)
  unfolding remove
  Absent-remove [] k j h = tt
  Absent-remove ((i, v) ∷ m) k j h = ground (arith, Absent-remove m k j h.1)

  Absent-remove_self : (m : HashMap K V) (k : K) → Absent k (remove m k)
  unfolding remove
  Absent-remove_self [] k = tt
  Absent-remove_self ((i, v) ∷ m) k = ground (arith, Absent-remove_self m k)

  pub remove-HasUniqueKeys :
      (m : HashMap K V) (k : K) → HasUniqueKeys m → HasUniqueKeys (remove m k)
  unfolding remove
  remove-HasUniqueKeys [] k h = tt
  remove-HasUniqueKeys ((i, v) ∷ m) k h =
      ground (arith, Absent-remove m k i h.0, remove-HasUniqueKeys m k h.1)

  pub insert-HasUniqueKeys :
      (m : HashMap K V) (k : K) (v : V) → HasUniqueKeys m → HasUniqueKeys (insert m k v)
  unfolding insert
  insert-HasUniqueKeys m k v h = (Absent-remove_self m k, remove-HasUniqueKeys m k h)

  Absent-retain : (p : V → Bool) (m : HashMap K V) (j : K) → Absent j m → Absent j (retain p m)
  unfolding retain
  Absent-retain p [] j h = tt
  Absent-retain p ((i, v) ∷ m) j h = ground (arith, Absent-retain p m j h.1)

  pub retain-HasUniqueKeys :
      (p : V → Bool) (m : HashMap K V) → HasUniqueKeys m → HasUniqueKeys (retain p m)
  unfolding retain
  retain-HasUniqueKeys p [] h = tt
  retain-HasUniqueKeys p ((i, v) ∷ m) h =
      ground (arith, Absent-retain p m i h.0, retain-HasUniqueKeys p m h.1)

  get-Absent : (m : HashMap K V) (k : K) → Absent k m → get m k ≡ none
  unfolding get
  get-Absent [] k h = refl
  get-Absent ((i, v) ∷ m) k h = ground (arith, get-Absent m k h.1)

  -- In a map with unique keys, `retain` filters the value of each key.
  pub get-retain :
      (p : V → Bool) (m : HashMap K V) (k : K)
      → HasUniqueKeys m
      → get (retain p m) k ≡ kept p (get m k)
  unfolding get retain
  get-retain p [] k h = refl
  get-retain p ((i, v) ∷ m) k h = ground (
    arith,
    get-retain p m k h.1,
    get-Absent (retain p m) i (Absent-retain p m i h.0),
    e.beq_iff i k,
  )

  pub get-is_empty : (m : HashMap K V) (k : K) {v : V} → get m k ≡ some v → is_empty m ≡ false
  unfolding get
  get-is_empty [] k h = cc
  get-is_empty (e ∷ m) k h = refl
