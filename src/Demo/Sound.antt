-- ===== src/Demo/Sound.antt =====
-- examples/demo_fs: no directory lists, and no file has, what does not exist.
pub mod Methods
pub mod Names
pub mod Creation
pub mod Linking
pub mod Listing
pub mod Changes
use fernfs.Prelude.{
  ℕ, zero, suc, ◌+◌, ◌<◌, ◌≤◌, ◌≡◌, refl, ap, sym, ◌∙◌, Bool, true, false, Bool-cases, Option-cases,
  inl, inr, ◌⊎◌, Option, none, some, List, [], ◌∷◌, ◌++◌, arith, ◌==◌, if◌then◌else◌, length,
  length-append, All,
}
use mathlib.Core.Path.{subst}
use fernfs.Io.{Bytes}
use fernfs.Xdr.Nfs3.{NfsResult}
use fernfs.Demo.Entry.{
  Contents, DemoEntry, DemoFs, get_at, modify_at, modify_entry_at, push_entry, push_cell,
  push_child, drop_child, retain_not,
}
use fernfs.Demo.Change.{set_sizes, resized, share_size}

-- Contents within so many entries and so many cells.
abbrev pub Fits : ℕ → ℕ → Contents → Type 0
Fits n c (Contents.file cell) = cell < c
Fits n c (Contents.directory children) = All (λ i. i < n) children

abbrev pub AllFit : ℕ → ℕ → List DemoEntry → Type 0
AllFit n c es = All (λ e. Fits n c e.contents) es

pub record IsSound (s : DemoFs) : Type 0 where
  pub all_fit : AllFit (length s.entries) (length s.cells) s.entries

-- What a method leaves is sound, unless it panics.
abbrev pub LeavesSound : {A : Type 0} → Option (NfsResult A × DemoFs) → Type 0
LeavesSound none = Unit {0}
LeavesSound (some (r, s)) = IsSound s

below_more : (n m : ℕ) (is : List ℕ) → n ≤ m → All (λ i. i < n) is → All (λ i. i < m) is
below_more n m [] h u = tt
below_more n m (i ∷ is) h (u, v) = (omega arith, below_more n m is h v)

pub Fits-more : (n m c d : ℕ) (x : Contents) → n ≤ m → c ≤ d → Fits n c x → Fits m d x
Fits-more n m c d (Contents.file cell) h k u = omega arith
Fits-more n m c d (Contents.directory is) h k u = below_more n m is h u

AllFit-more : (n m c d : ℕ) (es : List DemoEntry) → n ≤ m → c ≤ d → AllFit n c es → AllFit m d es
AllFit-more n m c d [] h k u = tt
AllFit-more n m c d (e ∷ es) h k (u, v) =
    (Fits-more n m c d e.contents h k u, AllFit-more n m c d es h k v)

module _ {A : Type 0} where
  pub All-append : (P : A → Type 0) (xs ys : List A) → All P xs → All P ys → All P (xs ++ ys)
  All-append P [] ys u v = v
  All-append P (x ∷ xs) ys (u, w) v = (u, All-append P xs ys w v)

  All-modify_at :
      (P : A → Type 0) (n : ℕ) (f : A → A) (xs : List A)
      → ((x : A) → P x → P (f x))
      → All P xs
      → All P (modify_at n f xs)
  unfolding modify_at
  All-modify_at P n f [] k u = tt
  All-modify_at P zero f (x ∷ xs) k (u, v) = (k x u, v)
  All-modify_at P (suc n) f (x ∷ xs) k (u, v) = (u, All-modify_at P n f xs k v)

  pub length-modify_at : (n : ℕ) (f : A → A) (xs : List A) → length (modify_at n f xs) ≡ length xs
  unfolding modify_at
  length-modify_at n f [] = refl
  length-modify_at zero f (x ∷ xs) = refl
  length-modify_at (suc n) f (x ∷ xs) = ap suc (length-modify_at n f xs)

  pub All-get_at :
      (P : A → Type 0) (n : ℕ) (xs : List A) (x : A) → All P xs → get_at xs n ≡ some x → P x
  unfolding get_at
  All-get_at P n [] x u h = absurd (ground (arith, h))
  All-get_at P zero (y ∷ xs) x (u, v) h = subst P (ap (λ o. elim o [ none ↦ y | some z ↦ z ]) h) u
  All-get_at P (suc n) (y ∷ xs) x (u, v) h = All-get_at P n xs x v h

module _ (s : DemoFs) (c : IsSound s) where
  pub push_entry-IsSound :
      (e : DemoEntry)
      → Fits (length s.entries + 1) (length s.cells) e.contents
      → IsSound (push_entry e s)
  unfolding push_entry
  push_entry-IsSound e u =
      let n = length s.entries in
      let more : length (s.entries ++ (e ∷ [])) ≡ n + 1 = length-append s.entries (e ∷ []) in
      record {
        all_fit =
            subst (λ k. AllFit k (length s.cells) (s.entries ++ (e ∷ []))) (sym more)
              (All-append (λ x. Fits (n + 1) (length s.cells) x.contents) s.entries (e ∷ [])
                (AllFit-more n (n + 1) (length s.cells) (length s.cells) s.entries (omega arith)
                  (omega arith) c.all_fit)
                (u, tt));
      }

  pub push_cell-IsSound : (bytes : Bytes) → IsSound (push_cell bytes s)
  unfolding push_cell
  push_cell-IsSound bytes = record {
    all_fit =
        AllFit-more (length s.entries) (length s.entries) (length s.cells)
          (length (s.cells ++ (bytes ∷ []))) s.entries (omega arith)
          (rw (length-append s.cells (bytes ∷ [])) (omega arith)) c.all_fit;
  }

  pub modify_entry_at-IsSound :
      (id : ℕ) (f : DemoEntry → DemoEntry)
      → ((e : DemoEntry)
          → Fits (length s.entries) (length s.cells) e.contents
          → Fits (length s.entries) (length s.cells) (f e).contents)
      → IsSound (modify_entry_at id f s)
  unfolding modify_entry_at
  modify_entry_at-IsSound id f u = record {
    all_fit =
        subst (λ k. AllFit k (length s.cells) (modify_at id f s.entries))
          (sym (length-modify_at id f s.entries))
          (All-modify_at (λ x. Fits (length s.entries) (length s.cells) x.contents) id f s.entries u
            c.all_fit);
  }

  pub cells-IsSound :
      (cell : ℕ) (bytes : Bytes)
      → IsSound (record s { cells = modify_at cell (λ x. bytes) s.cells })
  cells-IsSound cell bytes = record {
    all_fit =
        subst (λ k. AllFit (length s.entries) k s.entries)
          (sym (length-modify_at cell (λ x. bytes) s.cells)) c.all_fit;
  }

pub Contents-cases :
    (x : Contents)
    → ((cell : ℕ) × (x ≡ Contents.file cell)) ⊎ ((is : List ℕ) × (x ≡ Contents.directory is))
Contents-cases (Contents.file cell) = inl (cell, refl)
Contents-cases (Contents.directory is) = inr (is, refl)

resized_same : (cell size : ℕ) (e : DemoEntry) → (resized cell size e).contents ≡ e.contents
unfolding resized set_sizes
resized_same cell size e = elim (Contents-cases e.contents) [
  | inl (c, h) ↦ elim (Bool-cases (c == cell)) [
    | inl t ↦ rw (resized, h, t) h
    | inr f ↦ rw (resized, h, f) h
  ]
  | inr (is, h) ↦ rw (resized, h) h
]

share_size-AllFit :
    (n c cell size : ℕ) (es : List DemoEntry) → AllFit n c es → AllFit n c (share_size cell size es)
unfolding share_size
share_size-AllFit n c cell size [] u = tt
share_size-AllFit n c cell size (e ∷ es) (u, v) = (
  subst (λ x. Fits n c x) (sym (resized_same cell size e)) u,
  share_size-AllFit n c cell size es v,
)

length-share_size :
    (cell size : ℕ) (es : List DemoEntry) → length (share_size cell size es) ≡ length es
unfolding share_size
length-share_size cell size [] = refl
length-share_size cell size (e ∷ es) = ap suc (length-share_size cell size es)

pub share_size-IsSound :
    (cell size : ℕ) (s : DemoFs)
    → IsSound s
    → IsSound (record s { entries = share_size cell size s.entries })
share_size-IsSound cell size s c = record {
  all_fit =
      subst (λ k. AllFit k (length s.cells) (share_size cell size s.entries))
        (sym (length-share_size cell size s.entries))
        (share_size-AllFit (length s.entries) (length s.cells) cell size s.entries c.all_fit);
}

pub push_child-Fits :
    (n c id : ℕ) (e : DemoEntry)
    → id < n
    → Fits n c e.contents
    → Fits n c (push_child id e).contents
unfolding push_child
push_child-Fits n c id e h u = elim (Contents-cases e.contents) [
  | inl (cell, k) ↦ rw (push_child, k) (subst (λ x. Fits n c x) k u)
  | inr (is, k) ↦
      rw (push_child, k)
        (All-append (λ i. i < n) is (id ∷ []) (subst (λ x. Fits n c x) k u) (h, tt))
]

retain_below : (n id : ℕ) (is : List ℕ) → All (λ i. i < n) is → All (λ i. i < n) (retain_not id is)
unfolding retain_not
retain_below n id [] u = tt
retain_below n id (i ∷ is) (u, v) = elim (Bool-cases (i == id)) [
  | inl t ↦ rw t (retain_below n id is v)
  | inr f ↦ rw f (u, retain_below n id is v)
]

pub drop_child-Fits :
    (n c id : ℕ) (e : DemoEntry) → Fits n c e.contents → Fits n c (drop_child id e).contents
unfolding drop_child
drop_child-Fits n c id e u = elim (Contents-cases e.contents) [
  | inl (cell, k) ↦ rw (drop_child, k) (subst (λ x. Fits n c x) k u)
  | inr (is, k) ↦ rw (drop_child, k) (retain_below n id is (subst (λ x. Fits n c x) k u))
]
