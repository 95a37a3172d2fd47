-- ===== src/Mirror/Entry.antt =====
-- bin/fernfs/fs_entry.rs: an entry of the map, and the ordered sets and maps that it holds. A symbol,
-- which stands for a name, is a number; a path is the list of its symbols.
use fernfs.Prelude.{
  ℕ, ◌≡◌, Bool, true, false, ◌&&◌, ◌||◌, Option, none, List, [], ◌∷◌, arith, ltb, ◌==◌,
  if◌then◌else◌, equal_lists, equal_lists_iff,
}
use fernfs.Io.{Bytes}
use fernfs.Xdr.Nfs3.{Ftype, nf3reg, nf3dir, nf3blk, nf3chr, nf3lnk, nf3sock, nf3fifo, Fattr}

abbrev pub Symbol : Type 0
Symbol = ℕ

abbrev pub SymPath : Type 0
SymPath = List Symbol

-- `Ord` of a vector
unfoldable pub path_ltb : SymPath → SymPath → Bool
path_ltb [] [] = false
path_ltb [] (y ∷ ys) = true
path_ltb (x ∷ xs) [] = false
path_ltb (x ∷ xs) (y ∷ ys) = ltb x y || (x == y && path_ltb xs ys)

-- `BTreeSet<Vec<Symbol>>`: in ascending order
unfoldable pub set_insert : SymPath → List SymPath → List SymPath
set_insert p [] = p ∷ []
set_insert p (q ∷ qs) =
    let rest = set_insert p qs in
    if equal_lists p q then q ∷ qs else if path_ltb p q then p ∷ q ∷ qs else q ∷ rest

unfoldable pub set_remove : SymPath → List SymPath → List SymPath
set_remove p [] = []
set_remove p (q ∷ qs) = let rest = set_remove p qs in if equal_lists p q then rest else q ∷ rest

unfoldable pub set_contains : SymPath → List SymPath → Bool
set_contains p [] = false
set_contains p (q ∷ qs) = equal_lists p q || set_contains p qs

-- `BTreeMap<Symbol, fileid3>`
abbrev pub Children : Type 0
Children = List (Symbol × ℕ)

unfoldable pub child_insert : Symbol → ℕ → Children → Children
child_insert k v [] = (k, v) ∷ []
child_insert k v ((j, w) ∷ m) =
    let rest = child_insert k v m in
    if k == j then (k, v) ∷ m else if ltb k j then (k, v) ∷ (j, w) ∷ m else (j, w) ∷ rest

unfoldable pub child_remove : Symbol → Children → Children
child_remove k [] = []
child_remove k ((j, w) ∷ m) = let rest = child_remove k m in if k == j then rest else (j, w) ∷ rest

unfoldable pub has_child : Symbol → Children → Bool
has_child k [] = false
has_child k ((j, w) ∷ m) = k == j || has_child k m

pub record FsEntry : Type 0 where
  pub name : SymPath
  pub aliases : List SymPath
  pub fsmeta : Fattr
  pub children_meta : Fattr
  pub children : Option Children
  pub exclusive_verifier : Option Bytes

-- `FSEntry::new`
unfoldable pub new_entry : SymPath → Fattr → FsEntry
new_entry name fsmeta = record {
  name = name;
  aliases = name ∷ [];
  fsmeta = fsmeta;
  children_meta = fsmeta;
  children = none;
  exclusive_verifier = none;
}

abbrev pub is_dir_type : Ftype → Bool
is_dir_type nf3dir = true
is_dir_type nf3reg = false
is_dir_type nf3blk = false
is_dir_type nf3chr = false
is_dir_type nf3lnk = false
is_dir_type nf3sock = false
is_dir_type nf3fifo = false

unfoldable pub is_directory : FsEntry → Bool
is_directory e = let attr = e.fsmeta in is_dir_type attr.ftype

pub set_contains-insert :
    (p q : SymPath) (s : List SymPath)
    → set_contains q (set_insert p s) ≡ (equal_lists p q || set_contains q s)
unfolding set_contains set_insert
set_contains-insert p q [] = ground (arith, equal_lists_iff q p, equal_lists_iff p q)
set_contains-insert p q (r ∷ s) = ground (
  arith,
  set_contains-insert p q s,
  equal_lists_iff q p,
  equal_lists_iff p q,
  equal_lists_iff p r,
  equal_lists_iff q r,
)

pub set_contains-remove :
    (p q : SymPath) (s : List SymPath)
    → set_contains q (set_remove p s) ≡ (if equal_lists p q then false else set_contains q s)
unfolding set_contains set_remove
set_contains-remove p q [] = ground arith
set_contains-remove p q (r ∷ s) = ground (
  arith,
  set_contains-remove p q s,
  equal_lists_iff p q,
  equal_lists_iff p r,
  equal_lists_iff q r,
)
