-- ===== src/Mirror/Tree/Prefixes.antt =====
-- bin/fernfs/fs_map.rs: paths that start with a path.
use mathlib.Core.Path.{subst}
use fernfs.Prelude.{Bool-cases, inl, inr, equal_lists, equal_lists_iff}
use fernfs.Prelude.{◌≡◌, refl, true, false, ◌||◌, [], ◌∷◌, ◌++◌, arith, length, drop, drop-append}
use fernfs.Mirror.Entry.{SymPath}
use fernfs.Mirror.Tree.{starts_with}

pub starts_with-append : (p r : SymPath) → starts_with (p ++ r) p ≡ true
unfolding starts_with
starts_with-append [] r = refl
starts_with-append (x ∷ p) r = ground (arith, starts_with-append p r)

pub append-drop : (p q : SymPath) → starts_with q p ≡ true → p ++ drop (length p) q ≡ q
unfolding starts_with
append-drop [] q h = refl
append-drop (x ∷ p) [] h = ground (arith, h)
append-drop (x ∷ p) (y ∷ q) h =
    let same : y ≡ x = ground (arith, h) in
    let rest : starts_with q p ≡ true = ground (arith, h) in rw (append-drop p q rest, same) refl

-- Two prefixes of one path: one is a prefix of the other.
pub starts_with_related :
    (q a b : SymPath)
    → starts_with q a ≡ true
    → starts_with q b ≡ true
    → (starts_with a b || starts_with b a) ≡ true
unfolding starts_with
starts_with_related q [] b h k = ground arith
starts_with_related q (x ∷ a) [] h k = ground arith
starts_with_related [] (x ∷ a) (y ∷ b) h k = ground (arith, h)
starts_with_related (z ∷ q) (x ∷ a) (y ∷ b) h k =
    let rest : (starts_with a b || starts_with b a) ≡ true =
      starts_with_related q a b (ground (arith, h)) (ground (arith, k)) in
    ground (arith, rest, h, k)

pub drop_prefix : (p r : SymPath) → drop (length p) (p ++ r) ≡ r
drop_prefix p r = drop-append (length p) p r refl

pub starts_with_self : (p : SymPath) → starts_with p p ≡ true
unfolding starts_with
starts_with_self [] = refl
starts_with_self (x ∷ p) = ground (arith, starts_with_self p)

pub starts_with_differ :
    (a b p : SymPath) → starts_with a p ≡ true → starts_with b p ≡ false → equal_lists a b ≡ false
starts_with_differ a b p h k = elim (Bool-cases (equal_lists a b)) [
  | inl t ↦
      let e : a ≡ b = (equal_lists_iff a b).0 t in
      absurd (ground (arith, subst (λ x. starts_with x p ≡ true) e h))
  | inr f ↦ f
]

-- Where neither of two paths is a prefix of the other, no path starts with both.
pub starts_with_apart :
    (q a b : SymPath)
    → starts_with a b ≡ false
    → starts_with b a ≡ false
    → starts_with q a ≡ true
    → starts_with q b ≡ false
starts_with_apart q a b h k t = elim (Bool-cases (starts_with q b)) [
  | inl u ↦ absurd (ground (arith, starts_with_related q a b t u))
  | inr f ↦ f
]
