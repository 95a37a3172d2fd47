-- ===== src/Mirror/Tree/Removal.antt =====
-- bin/fernfs/fs_map.rs: what the removal of an entry and of all that is below it does.
pub mod Part
use fernfs.Prelude.{
  ℕ, zero, suc, ◌≡◌, ◌⊎◌, inl, inr, refl, sym, ap, ◌∙◌, Bool, true, false, Bool-cases, Option-cases,
  Option, none, some, List, [], ◌∷◌, ◌++◌, arith, nat_eq, list_eq, equal_lists, if◌then◌else◌, All,
}
use mathlib.Core.Path.{subst}
use fernfs.Prelude.HashMap.{get}
use fernfs.Mirror.Entry.{SymPath, Children, FsEntry, is_directory}
use fernfs.Mirror.Map.{FsMap, remove_path}
use fernfs.Mirror.Map.Observe.{id_of, entry_of}
use fernfs.Mirror.Map.Consistent.{IsConsistent, path_cases}
use fernfs.Mirror.Map.Consistent.Removal.{remove_path_frame}
use fernfs.Mirror.Tree.{
  starts_with, remove_child_tree, remove_children, listed_children, remove_path_tree, delete_entry,
}
use fernfs.Mirror.Tree.Prefixes.{starts_with_self, starts_with_differ}
use fernfs.Mirror.Tree.Removal.Part.{
  AllGone, AllKnown, ListsItsPaths, IsPart, remove_path-IsPart, remove_path_self,
}

-- The directories below an entry are nested no deeper than so many levels, the entry's included.
abbrev pub IsShallow : {T : Type 0} → ℕ → FsMap T → ℕ → Type 0
IsShallow zero m id = (e : FsEntry) → entry_of m id ≡ some e → is_directory e ≡ false
IsShallow (suc n) m id =
    (e : FsEntry) → entry_of m id ≡ some e → All (λ c. IsShallow n m c.1) (listed_children e)

-- Whether a name is among the children.
abbrev pub Lists : ℕ → Children → Type 0
Lists name [] = ⊥
Lists name ((x, id) ∷ cs) = (name ≡ x) ⊎ Lists name cs

-- What the removal of a path and of all below it leaves of `m1`, itself a part of `m`.
pub record Removes {T : Type 0} (m m1 : FsMap T) (path : SymPath) (o : Option (FsMap T))
    : Type 0 where
  pub left : FsMap T
  pub ends : o ≡ some left
  pub part : IsPart m left
  pub self : id_of left path ≡ none
  pub gone : (q : SymPath) → id_of m1 q ≡ none → id_of left q ≡ none
  pub outside : (q : SymPath) → starts_with q path ≡ false → id_of left q ≡ id_of m1 q

starts_with_child :
    (q p : SymPath) (x : ℕ) → starts_with q p ≡ false → starts_with q (p ++ (x ∷ [])) ≡ false
unfolding starts_with
starts_with_child q [] x h = ground (arith, h)
starts_with_child [] (y ∷ p) x h = refl
starts_with_child (z ∷ q) (y ∷ p) x h = ground (arith, h, starts_with_child q p x)

module _ {T : Type 0} (m m1 : FsMap T) (p : IsPart m m1) (path : SymPath) where
  -- The removal of a path alone.
  one-Removes :
      ((id : ℕ) (e : FsEntry)
        → id_of m path ≡ some id
        → entry_of m id ≡ some e
        → AllGone m1 path (listed_children e))
      → Removes m m1 path (some (remove_path path m1).1)
  one-Removes below = record {
    left = (remove_path path m1).1;
    ends = refl;
    part = remove_path-IsPart m m1 p path below;
    self = remove_path_self m1 path;
    gone = λ q n. (remove_path_frame m1 path).0 q ∙ ground (arith, n);
    outside = λ q h.
        (remove_path_frame m1 path).0 q
        ∙ rw (starts_with_differ path q path (starts_with_self path) h) refl;
  }

  -- Where the entry of a path is not there any more, or is no directory, nothing is below the path.
  nothing_below :
      (id : ℕ)
      → id_of m path ≡ some id
      → ((e : FsEntry) → entry_of m1 id ≡ some e → listed_children e ≡ [])
      → (j : ℕ) (e : FsEntry) → id_of m path ≡ some j
      → entry_of m j ≡ some e
      → AllGone m1 path (listed_children e)
  nothing_below id u none_listed j e v w = elim (p.only path) [
    | inl n ↦ p.closed path j e v w n
    | inr same ↦
        let (e1, k, x, y) = path_cases m1 p.agrees path id (same ∙ u) in
        let (e0, z, listed, dir) = p.shrinks id e1 x in
        let here : id ≡ j = cc (u, v) in
        let there : entry_of m id ≡ some e = subst (λ i. entry_of m i ≡ some e) (sym here) w in
        let entry : e0 ≡ e = cc (z, there) in
        subst (λ cs. AllGone m1 path cs)
          (sym (none_listed e1 x) ∙ listed ∙ ap listed_children entry) tt
  ]

listed_of_file : (e : FsEntry) → is_directory e ≡ false → listed_children e ≡ []
unfolding listed_children
listed_of_file e f = rw f refl

-- What the removal of all that a directory lists leaves.
record Clears {T : Type 0} (m m1 : FsMap T) (path : SymPath) (cs : Children) (o : Option (FsMap T))
    : Type 0 where
  left : FsMap T
  ends : o ≡ some left
  part : IsPart m left
  cleared : AllGone left path cs
  gone : (q : SymPath) → id_of m1 q ≡ none → id_of left q ≡ none
  outside : (q : SymPath) → starts_with q path ≡ false → id_of left q ≡ id_of m1 q

-- The recursive call, on a directory nested less deep.
abbrev RemovesBelow :
    {T : Type 0} → FsMap T → ℕ → (SymPath → ℕ → FsMap T → Option (FsMap T)) → Type 0
RemovesBelow {T} m n rec =
    (path : SymPath) (id : ℕ) (m1 : FsMap T) (e : FsEntry)
    → IsPart m m1
    → id_of m path ≡ some id
    → IsShallow n m id
    → entry_of m1 id ≡ some e
    → is_directory e ≡ true
    → Removes m m1 path (rec path id m1)

module _ {T : Type 0} (m : FsMap T) (n : ℕ) (rec : SymPath → ℕ → FsMap T → Option (FsMap T))
    (ih : RemovesBelow m n rec) where
  child-Removes :
      (path : SymPath) (id : ℕ) (m1 : FsMap T)
      → IsPart m m1
      → id_of m path ≡ some id
      → IsShallow n m id
      → Removes m m1 path (remove_child_tree rec path id m1)
  unfolding remove_child_tree
  child-Removes path id m1 p u shallow = elim (Option-cases (entry_of m1 id)) [
    | inl nothing ↦
        rw (remove_child_tree, nothing)
          (one-Removes m m1 p path (nothing_below m m1 p path id u λ e v. absurd (cc (nothing, v))))
    | inr (e, v) ↦ elim (Bool-cases (is_directory e)) [
      | inl t ↦ rw (remove_child_tree, v, t) (ih path id m1 e p u shallow v t)
      | inr f ↦
          rw (remove_child_tree, v, f)
            (one-Removes m m1 p path (
              nothing_below m m1 p path id u λ e' v'.
                let same : e ≡ e' = cc (v, v') in
                subst (λ x. listed_children x ≡ []) same (listed_of_file e f)))
    ]
  ]

  children-Clears :
      (path : SymPath) (cs : Children) (m1 : FsMap T)
      → IsPart m m1
      → AllKnown m path cs
      → All (λ c. IsShallow n m c.1) cs
      → Clears m m1 path cs (remove_children rec path cs m1)
  unfolding remove_children
  children-Clears path [] m1 p u shallow = record {
    left = m1;
    ends = refl;
    part = p;
    cleared = tt;
    gone = λ q h. h;
    outside = λ q h. refl;
  }
  children-Clears path ((name, id) ∷ cs) m1 p (u, us) (shallow, rest) =
      let first = child-Removes (path ++ (name ∷ [])) id m1 p u shallow in
      let others = children-Clears path cs first.left first.part us rest in
      record {
        left = others.left;
        ends = rw (remove_children, first.ends) others.ends;
        part = others.part;
        cleared = (others.gone (path ++ (name ∷ [])) first.self, others.cleared);
        gone = λ q h. others.gone q (first.gone q h);
        outside = λ q h. others.outside q h ∙ first.outside q (starts_with_child q path name h);
      }

module _ {T : Type 0} (m : FsMap T) (known : ListsItsPaths m) where
  tree_step :
      (n : ℕ) (path : SymPath) (id : ℕ) (m1 : FsMap T)
      → RemovesBelow m n (remove_path_tree n)
      → IsPart m m1
      → id_of m path ≡ some id
      → IsShallow (suc n) m id
      → Removes m m1 path (remove_path_tree (suc n) path id m1)
  unfolding remove_path_tree
  tree_step n path id m1 ih p u shallow = elim (Option-cases (entry_of m1 id)) [
    | inl nothing ↦ record {
      left = m1;
      ends = rw (remove_path_tree, nothing) refl;
      part = p;
      self = elim (p.only path) [
        | inl h ↦ h
        | inr same ↦
            let (e, k, x, y) = path_cases m1 p.agrees path id (same ∙ u) in absurd (cc (nothing, x))
      ];
      gone = λ q h. h;
      outside = λ q h. refl;
    }
    | inr (e, v) ↦
        let (e0, w, listed, dir) = p.shrinks id e v in
        let below : Clears m m1 path (listed_children e0)
            (remove_children (remove_path_tree n) path (listed_children e) m1) =
          subst
            (λ cs.
              Clears m m1 path (listed_children e0)
                (remove_children (remove_path_tree n) path cs m1))
            (sym listed)
            (children-Clears m n (remove_path_tree n) ih path (listed_children e0) m1 p
              (known.known path id e0 u w) (shallow e0 w)) in
        let last = one-Removes m below.left below.part path λ j e' x y.
          let here : id ≡ j = cc (u, x) in
          let there : entry_of m id ≡ some e' = subst (λ i. entry_of m i ≡ some e') (sym here) y in
          let entry : e0 ≡ e' = cc (w, there) in
          subst (λ z. AllGone below.left path (listed_children z)) entry below.cleared in
        record {
          left = last.left;
          ends = rw (remove_path_tree, v, below.ends) last.ends;
          part = last.part;
          self = last.self;
          gone = λ q h. last.gone q (below.gone q h);
          outside = λ q h. last.outside q h ∙ below.outside q h;
        }
  ]

  tree-Removes :
      (n : ℕ) (path : SymPath) (id : ℕ) (m1 : FsMap T)
      → IsPart m m1
      → id_of m path ≡ some id
      → IsShallow (suc n) m id
      → Removes m m1 path (remove_path_tree (suc n) path id m1)
  tree-Removes zero path id m1 p u shallow = tree_step zero path id m1 no_room p u shallow
    where
      no_room : RemovesBelow m zero (remove_path_tree zero)
      no_room path id m1 e p u shallow v t =
          let (e0, w, listed, dir) = p.shrinks id e v in absurd (cc (shallow e0 w, dir, t))
  tree-Removes (suc n) path id m1 p u shallow =
      tree_step (suc n) path id m1
        (λ path id m1 e p u shallow v t. tree-Removes n path id m1 p u shallow) p u shallow

whole-IsPart : {T : Type 0} (m : FsMap T) → IsConsistent m → ListsItsPaths m → IsPart m m
whole-IsPart m c known = record {
  agrees = c;
  shrinks = λ id e u. (e, u, refl, refl);
  only = λ q. inr refl;
  closed = λ q id e u v n. absurd (cc (u, n));
}

-- The paths of a tree: its top, and what is listed at a path of it.
pub data InTree {T : Type 0} (m : FsMap T) (top : SymPath) : SymPath → Type 0 where
  at_top : InTree m top top
  listed :
      {q : SymPath} {id : ℕ} {e : FsEntry} (name : ℕ)
      → InTree m top q
      → id_of m q ≡ some id
      → entry_of m id ≡ some e
      → Lists name (listed_children e)
      → InTree m top (q ++ (name ∷ []))

gone_if_listed :
    {T : Type 0} (m : FsMap T) (q : SymPath) (name : ℕ) (cs : Children)
    → Lists name cs
    → AllGone m q cs
    → id_of m (q ++ (name ∷ [])) ≡ none
gone_if_listed m q name [] nowhere u = absurd nowhere
gone_if_listed m q name ((x, id) ∷ cs) (inl same) (u, us) =
    subst (λ y. id_of m (q ++ (y ∷ [])) ≡ none) (sym same) u
gone_if_listed m q name ((x, id) ∷ cs) (inr later) (u, us) = gone_if_listed m q name cs later us

tree_gone :
    {T : Type 0} (m m' : FsMap T) (top q : SymPath)
    → IsPart m m'
    → id_of m' top ≡ none
    → InTree m top q
    → id_of m' q ≡ none
tree_gone m m' top q p h at_top = h
tree_gone m m' top q p h (listed {q = r} {id = j} {e = x} name t u v l) =
    gone_if_listed m' r name (listed_children x) l (p.closed r j x u v (tree_gone m m' top r p h t))

-- The removal of an entry, and of all that the map lists below it, to any depth: it ends, if the stack
-- holds the nested directories; the four maps agree afterwards; no path of the tree has an identifier
-- any more; and no path that does not start with the entry's name has lost or changed its own. The map
-- agrees before, and knows the paths of what its directories list.
pub delete_entry-Removes :
    {T : Type 0} (stack id : ℕ) (m : FsMap T) (e : FsEntry)
    → IsConsistent m
    → ListsItsPaths m
    → entry_of m id ≡ some e
    → IsShallow (suc stack) m id
    → (m' : FsMap T) × (delete_entry (suc stack) id m ≡ some m')
      × IsConsistent m'
      × ((q : SymPath) → InTree m e.name q → id_of m' q ≡ none)
      × ((q : SymPath) → starts_with q e.name ≡ false → id_of m' q ≡ id_of m q)
unfolding delete_entry
delete_entry-Removes stack id m e c known u shallow =
    let path = e.name in
    let named : id_of m path ≡ some id = (c.paths path id).1 (rw u (c.named id e u)) in
    let done = tree-Removes m known stack path id m (whole-IsPart m c known) named shallow in
    let part = done.part in
    (
      done.left,
      rw (delete_entry, u) done.ends,
      part.agrees,
      λ q t. tree_gone m done.left path q part done.self t,
      done.outside,
    )
