-- ===== src/Mirror/Tree/Rename.antt =====
-- bin/fernfs/fs_map.rs: what a rename of a path does to the paths below it.
use mathlib.Core.Path.{subst}
use fernfs.Prelude.{
  ℕ, ◌≡◌, refl, ap, sym, ◌∙◌, true, false, Bool-cases, inl, inr, Option, none, some, [], ◌∷◌, ◌++◌,
  arith, length, drop, nat_eq, list_eq, equal_lists, equal_lists_iff, if◌then◌else◌,
}
use fernfs.Prelude.HashMap.{HashMap, get, remove, get-insert, get-remove, Absent, HasUniqueKeys}
use fernfs.Mirror.Entry.{SymPath}
use fernfs.Mirror.Map.{FsMap, modify_entry}
use fernfs.Mirror.Map.Observe.{id_of, is_some}
use fernfs.Mirror.Tree.{starts_with, updates_of, move_path, move_paths, rename_path_prefix}
use fernfs.Mirror.Tree.Prefixes.{
  starts_with-append, append-drop, starts_with_differ, starts_with_apart, starts_with_self,
  drop_prefix,
}

get-Absent : (ps : HashMap SymPath ℕ) (p : SymPath) → Absent p ps → get ps p ≡ none
unfolding get
get-Absent [] p h = refl
get-Absent ((q, id) ∷ ps) p (h, k) = rw (get, h) (get-Absent ps p k)

module _ {T : Type 0} where
  -- One path moved.
  id_of-move_path :
      (old new : SymPath) (id : ℕ) (m : FsMap T) (q : SymPath)
      → id_of (move_path (old, new, id) m) q
        ≡ (if equal_lists new q then some id else if equal_lists old q then none else id_of m q)
  unfolding move_path modify_entry
  id_of-move_path old new id m q =
      ground (arith, get-insert (remove m.path_to_id old) new q id, get-remove m.path_to_id old q)

-- What a path stands for after the move of the paths of a table, by the table and what it stood for
-- before.
abbrev moved : SymPath → SymPath → HashMap SymPath ℕ → Option ℕ → SymPath → Option ℕ
moved from to ps before q =
    if starts_with q to
    then elim (get ps (from ++ drop (length to) q)) [ none ↦ before | some id ↦ some id ]
    else if starts_with q from
    then (if is_some (get ps q) then none else before)
    else before

abbrev moved_one : SymPath → SymPath → ℕ → Option ℕ → SymPath → Option ℕ
moved_one old new id before q =
    if equal_lists new q then some id else if equal_lists old q then none else before

module _ (from to : SymPath) (apart : starts_with from to ≡ false)
    (apart' : starts_with to from ≡ false) (path : SymPath) (id : ℕ) (ps : HashMap SymPath ℕ)
    (before : Option ℕ) (q : SymPath) where
  moved_below :
      Absent path ps
      → starts_with path from ≡ true
      → starts_with q to ≡ true
      → moved from to ps (moved_one path (to ++ drop (length from) path) id before q) q
        ≡ moved from to ((path, id) ∷ ps) before q
  unfolding get
  moved_below u t h =
      let new = to ++ drop (length from) path in
      let back = from ++ drop (length to) q in
      let there : to ++ drop (length to) q ≡ q = append-drop to q h in
      let other : equal_lists path q ≡ false =
        starts_with_differ path q from t (starts_with_apart q to from apart' apart h) in
      elim (Bool-cases (equal_lists path back)) [
        | inl x ↦
            let e : path ≡ back = (equal_lists_iff path back).0 x in
            let gone : get ps back ≡ none = subst (λ p. get ps p ≡ none) e (get-Absent ps path u) in
            let same : new ≡ q =
              ap (λ p. to ++ drop (length from) p) e
              ∙ ap (λ r. to ++ r) (drop_prefix from (drop (length to) q))
              ∙ there in
            rw (h, x, gone, (equal_lists_iff new q).1 same) refl
        | inr y ↦ elim (Bool-cases (equal_lists new q)) [
          | inl x ↦
              let e : new ≡ q = (equal_lists_iff new q).0 x in
              let back_is : back ≡ path =
                ap (λ p. from ++ drop (length to) p) (sym e)
                ∙ ap (λ r. from ++ r) (drop_prefix to (drop (length from) path))
                ∙ append-drop from path t in
              absurd (ground (arith, (equal_lists_iff path back).1 (sym back_is)))
          | inr z ↦
              let unchanged : moved_one path new id before q ≡ before = rw (z, other) refl in
              rw (h, y) (ap (λ o. elim (get ps back) [ none ↦ o | some i ↦ some i ]) unchanged)
        ]
      ]

  moved_elsewhere :
      Absent path ps
      → starts_with path from ≡ true
      → starts_with q to ≡ false
      → moved from to ps (moved_one path (to ++ drop (length from) path) id before q) q
        ≡ moved from to ((path, id) ∷ ps) before q
  unfolding get
  moved_elsewhere u t h =
      let new = to ++ drop (length from) path in
      let other : equal_lists new q ≡ false =
        starts_with_differ new q to (starts_with-append to (drop (length from) path)) h in
      elim (Bool-cases (starts_with q from)) [
        | inl x ↦ rw (h, x, other) (ground (arith, equal_lists_iff path q, get-Absent ps path u))
        | inr y ↦ rw (h, y, other, starts_with_differ path q from t y) refl
      ]

  -- A path of the table that does not move.
  moved_past :
      starts_with path from ≡ false
      → moved from to ps before q ≡ moved from to ((path, id) ∷ ps) before q
  unfolding get
  moved_past f =
      let back = from ++ drop (length to) q in
      let other : equal_lists back path ≡ false =
        starts_with_differ back path from (starts_with-append from (drop (length to) q)) f in
      let other' : equal_lists path back ≡ false =
        ground (arith, equal_lists_iff path back, equal_lists_iff back path) in
      elim (Bool-cases (starts_with q from)) [
        | inl x ↦
            let third : equal_lists q path ≡ false = starts_with_differ q path from x f in
            let third' : equal_lists path q ≡ false =
              ground (arith, equal_lists_iff path q, equal_lists_iff q path) in
            rw (other', x, third') refl
        | inr y ↦ rw (other', y) refl
      ]

module _ {T : Type 0} (from to : SymPath) (apart : starts_with from to ≡ false)
    (apart' : starts_with to from ≡ false) where
  id_of-move_paths :
      (ps : HashMap SymPath ℕ) (m : FsMap T) (q : SymPath)
      → HasUniqueKeys ps
      → id_of (move_paths (updates_of from to ps) m) q ≡ moved from to ps (id_of m q) q
  unfolding move_paths updates_of
  id_of-move_paths [] m q u = unfold get in ground arith
  id_of-move_paths ((path, id) ∷ ps) m q (u, v) = elim (Bool-cases (starts_with path from)) [
    | inl t ↦
        let new = to ++ drop (length from) path in
        let m' = move_path (path, new, id) m in
        let one : id_of m' q ≡ moved_one path new id (id_of m q) q =
          id_of-move_path path new id m q in
        let step : moved from to ps (moved_one path new id (id_of m q) q) q
            ≡ moved from to ((path, id) ∷ ps) (id_of m q) q =
          elim (Bool-cases (starts_with q to)) [
            | inl h ↦ moved_below from to apart apart' path id ps (id_of m q) q u t h
            | inr h ↦ moved_elsewhere from to apart apart' path id ps (id_of m q) q u t h
          ] in
        rw t (id_of-move_paths ps m' q v ∙ ap (λ o. moved from to ps o q) one ∙ step)
    | inr f ↦
        rw f
          (id_of-move_paths ps m q v ∙ moved_past from to apart apart' path id ps (id_of m q) q f)
  ]

  -- A rename of one path to another, neither of which lies below the other, takes each path below the
  -- old name to its place below the new name, with its identifier; a path below the new name that
  -- gets no identifier so keeps its own, nothing is left below the old name, and no other path
  -- changes. The table stores a path once.
  pub id_of-rename_path_prefix :
      (m : FsMap T) (q : SymPath)
      → HasUniqueKeys m.path_to_id
      → id_of (rename_path_prefix from to m) q ≡ (
          if starts_with q to
          then elim (id_of m (from ++ drop (length to) q)) [ none ↦ id_of m q | some id ↦ some id ]
          else if starts_with q from
          then none
          else id_of m q)
  unfolding rename_path_prefix
  id_of-rename_path_prefix m q u =
      let other : equal_lists from to ≡ false = elim (Bool-cases (equal_lists from to)) [
        | inl x ↦ absurd (
            ground (
              arith,
              subst (λ p. starts_with p to ≡ false) ((equal_lists_iff from to).0 x) apart,
              starts_with_self to,
            ))
        | inr y ↦ y
      ] in
      rw other (id_of-move_paths m.path_to_id m q u ∙ ground arith)
