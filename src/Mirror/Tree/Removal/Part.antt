-- ===== src/Mirror/Tree/Removal/Part.antt =====
-- bin/fernfs/fs_map.rs: what a removal that is under way has left of a map, and one step of it.
use fernfs.Prelude.{
  ℕ, ◌≡◌, ◌⊎◌, inl, inr, refl, sym, ap, ◌∙◌, Bool-cases, Option-cases, none, some, List, [], ◌∷◌,
  ◌++◌, arith, nat_eq, ==_iff, ◌==◌, list_eq, equal_lists, equal_lists_iff, if◌then◌else◌, All,
}
use mathlib.Core.Path.{subst}
use fernfs.Prelude.HashMap.{get, insert, remove, get-insert, get-remove}
use fernfs.Mirror.Entry.{SymPath, Children, FsEntry, is_directory}
use fernfs.Mirror.Map.{FsMap, without_alias, forget_inode, settle, drop_alias, remove_path}
use fernfs.Mirror.Map.Observe.{id_of, entry_of}
use fernfs.Mirror.Map.Consistent.{IsConsistent}
use fernfs.Mirror.Map.Consistent.Removal.{remove_path_frame, remove_path-IsConsistent}
use fernfs.Mirror.Tree.{listed_children}

-- The children of a path have no identifier; and each has the identifier with which it is listed.
abbrev pub AllGone : {T : Type 0} → FsMap T → SymPath → Children → Type 0
AllGone m q cs = All (λ c. id_of m (q ++ (c.0 ∷ [])) ≡ none) cs

abbrev pub AllKnown : {T : Type 0} → FsMap T → SymPath → Children → Type 0
AllKnown m q cs = All (λ c. id_of m (q ++ (c.0 ∷ [])) ≡ some c.1) cs

-- What each directory lists has, below each of the directory's paths, the identifier that is listed.
pub record ListsItsPaths {T : Type 0} (m : FsMap T) : Type 0 where
  pub known :
      (q : SymPath) (id : ℕ) (e : FsEntry)
      → id_of m q ≡ some id
      → entry_of m id ≡ some e
      → AllKnown m q (listed_children e)

-- Entries that are left list what they listed.
abbrev pub Shrinks : {T : Type 0} → FsMap T → FsMap T → Type 0
Shrinks m m' =
    (id : ℕ) (e : FsEntry)
    → entry_of m' id ≡ some e
    → (e0 : FsEntry) × (entry_of m id ≡ some e0)
      × (listed_children e ≡ listed_children e0)
      × (is_directory e ≡ is_directory e0)

-- A map of which a removal has left a part: the maps agree, paths have the identifiers that they had or
-- none, and where the path of a directory is gone, so is what it listed.
pub record IsPart {T : Type 0} (m m' : FsMap T) : Type 0 where
  pub agrees : IsConsistent m'
  pub shrinks : Shrinks m m'
  pub only : (q : SymPath) → (id_of m' q ≡ none) ⊎ (id_of m' q ≡ id_of m q)
  pub closed :
      (q : SymPath) (id : ℕ) (e : FsEntry)
      → id_of m q ≡ some id
      → entry_of m id ≡ some e
      → id_of m' q ≡ none
      → AllGone m' q (listed_children e)

pub All-map :
    {A : Type 0} (P Q : A → Type 0) (xs : List A) → ((x : A) → P x → Q x) → All P xs → All Q xs
All-map P Q [] f u = tt
All-map P Q (x ∷ xs) f (u, v) = (f x u, All-map P Q xs f v)

module _ {T : Type 0} (m : FsMap T) where
  same_entry :
      (id : ℕ) (e : FsEntry)
      → entry_of m id ≡ some e
      → (e0 : FsEntry) × (entry_of m id ≡ some e0)
        × (listed_children e ≡ listed_children e0)
        × (is_directory e ≡ is_directory e0)
  same_entry id e u = (e, u, refl, refl)

  forget_inode_entries : (id : ℕ) → (forget_inode id m).id_to_path ≡ m.id_to_path
  unfolding forget_inode
  forget_inode_entries id = ground arith

aliases_cases :
    (l : List SymPath) → (l ≡ []) ⊎ ((a : SymPath) × (rest : List SymPath) × (l ≡ a ∷ rest))
aliases_cases [] = inl refl
aliases_cases (a ∷ rest) = inr (a, rest, refl)

without_alias_same :
    (path : SymPath) (e : FsEntry)
    → (listed_children (without_alias path e) ≡ listed_children e)
      × (is_directory (without_alias path e) ≡ is_directory e)
unfolding without_alias listed_children is_directory
without_alias_same path e = (refl, refl)

module _ {T : Type 0} (m : FsMap T) where
  -- What an entry that is put in, or taken out, leaves of the others.
  put-Shrinks :
      (path : SymPath) (id : ℕ) (e0 : FsEntry) (m' : FsMap T)
      → entry_of m id ≡ some e0
      → ((j : ℕ)
          → (entry_of m' j ≡ (if id == j then some (without_alias path e0) else entry_of m j))
            ⊎ (entry_of m' j ≡ (if id == j then none else entry_of m j)))
      → Shrinks m m'
  put-Shrinks path id e0 m' u put j e v = elim (Bool-cases (id == j)) [
    | inr f ↦
        same_entry m j e
          (elim (put j) [ inl h ↦ sym (rw f at h) ∙ v | inr h ↦ sym (rw f at h) ∙ v ])
    | inl t ↦ elim (put j) [
      | inr h ↦ absurd (cc (rw t at h, v))
      | inl h ↦
          let same : without_alias path e0 ≡ e = cc (rw t at h, v) in
          let (a, b) = without_alias_same path e0 in
          let here : id ≡ j = (==_iff id j).0 t in
          (
            e0,
            subst (λ i. entry_of m i ≡ some e0) here u,
            ap listed_children (sym same) ∙ a,
            ap is_directory (sym same) ∙ b,
          )
    ]
  ]

  settle_kept :
      (id : ℕ) (e : FsEntry) (a : SymPath) (rest : List SymPath)
      → e.aliases ≡ a ∷ rest
      → (settle id e m).id_to_path ≡ insert m.id_to_path id e
  unfolding settle
  settle_kept id e a rest x = ground (arith, x)

  settle-Shrinks :
      (path : SymPath) (id : ℕ) (e0 : FsEntry)
      → entry_of m id ≡ some e0
      → Shrinks m (settle id (without_alias path e0) m)
  unfolding settle
  settle-Shrinks path id e0 u = elim (aliases_cases (without_alias path e0).aliases) [
    | inl x ↦
        let out = forget_inode_entries (record m { id_to_path = remove m.id_to_path id }) id in
        put-Shrinks path id e0 (settle id (without_alias path e0) m) u
          λ j. inr (rw (settle, x, out) (get-remove m.id_to_path id j))
    | inr (a, rest, x) ↦ put-Shrinks path id e0 (settle id (without_alias path e0) m) u λ j. inl (
        ap (λ es. get es j) (settle_kept id (without_alias path e0) a rest x)
        ∙ get-insert m.id_to_path id j (without_alias path e0))
  ]

  drop_alias-Shrinks : (path : SymPath) (id : ℕ) → Shrinks m (drop_alias path id m)
  unfolding drop_alias
  drop_alias-Shrinks path id j e v = elim (Option-cases (entry_of m id)) [
    | inl n ↦ same_entry m j e (rw (drop_alias, n) at v)
    | inr (e0, u) ↦ settle-Shrinks path id e0 u j e (rw (drop_alias, u) at v)
  ]

module _ {T : Type 0} (m : FsMap T) (path : SymPath) where
  remove_path-Shrinks : Shrinks m (remove_path path m).1
  unfolding remove_path
  remove_path-Shrinks j e v = elim (Option-cases (id_of m path)) [
    | inl n ↦ same_entry m j e (rw (remove_path, n) at v)
    | inr (id, w) ↦
        drop_alias-Shrinks (record m { path_to_id = remove m.path_to_id path }) path id j e
          (rw (remove_path, w) at v)
  ]

  remove_path_gone : (q : SymPath) → id_of m q ≡ none → id_of (remove_path path m).1 q ≡ none
  remove_path_gone q n = (remove_path_frame m path).0 q ∙ ground (arith, n)

  pub remove_path_self : id_of (remove_path path m).1 path ≡ none
  remove_path_self = (remove_path_frame m path).0 path ∙ ground (arith, equal_lists_iff path path)

module _ {T : Type 0} (m m1 : FsMap T) (p : IsPart m m1) (path : SymPath) where
  -- A path may be removed whose children are gone.
  pub remove_path-IsPart :
      ((id : ℕ) (e : FsEntry)
        → id_of m path ≡ some id
        → entry_of m id ≡ some e
        → AllGone m1 path (listed_children e))
      → IsPart m (remove_path path m1).1
  remove_path-IsPart gone =
      let m2 = (remove_path path m1).1 in
      record {
        agrees = remove_path-IsConsistent m1 p.agrees path;
        shrinks = λ id e u.
            let (e1, v, a, b) = remove_path-Shrinks m1 path id e u in
            let (e0, w, c, d) = p.shrinks id e1 v in (e0, w, a ∙ c, b ∙ d);
        only = λ q. elim (Bool-cases (equal_lists path q)) [
          | inl t ↦ inl ((remove_path_frame m1 path).0 q ∙ rw t refl)
          | inr f ↦ elim (p.only q) [
            | inl n ↦ inl (remove_path_gone m1 path q n)
            | inr same ↦ inr ((remove_path_frame m1 path).0 q ∙ rw f same)
          ]
        ];
        closed = λ q id e u v n.
            All-map (λ c. id_of m1 (q ++ (c.0 ∷ [])) ≡ none)
              (λ c. id_of m2 (q ++ (c.0 ∷ [])) ≡ none) (listed_children e)
              (λ c. remove_path_gone m1 path (q ++ (c.0 ∷ [])))
              (elim (Bool-cases (equal_lists path q)) [
                | inl t ↦
                    let same : path ≡ q = (equal_lists_iff path q).0 t in
                    subst (λ r. AllGone m1 r (listed_children e)) same
                      (gone id e (subst (λ r. id_of m r ≡ some id) (sym same) u) v)
                | inr f ↦ p.closed q id e u v (sym (rw f at ((remove_path_frame m1 path).0 q)) ∙ n)
              ]);
      }
