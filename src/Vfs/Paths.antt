-- ===== src/Vfs/Paths.antt =====
-- vfs.rs: the resolution of a path, component by component from the root.
pub mod Laws
use fernfs.Prelude.{
  ℕ, ◌≡◌, refl, ap, Bool, true, false, List, [], ◌∷◌, ◌++◌, arith, ◌==◌, if◌then◌else◌, All,
}
use fernfs.Io.{Bytes}
use fernfs.Vfs.{FileSystem}
use fernfs.Xdr.Nfs3.{NfsResult}

abbrev pub slash : ℕ
slash = 47

-- the first piece goes on
abbrev extend : ℕ → List Bytes → List Bytes
extend b [] = (b ∷ []) ∷ []
extend b (p ∷ ps) = (b ∷ p) ∷ ps

-- `path.split(|&r| r == b'/')`
unfoldable pub split : Bytes → List Bytes
split [] = [] ∷ []
split (b ∷ bs) = let rest = split bs in if b == slash then [] ∷ rest else extend b rest

module _ {S : Type 0} (vfs : FileSystem S) where
  abbrev pub and_then : NfsResult ℕ × S → (ℕ → S → NfsResult ℕ × S) → NfsResult ℕ × S
  and_then (NfsResult.ok fid, s) next = next fid s
  and_then (NfsResult.err e, s) next = (NfsResult.err e, s)

  -- The loop of `path_to_id`, which stops at the first component that is not found.
  unfoldable pub resolve : List Bytes → ℕ → S → NfsResult ℕ × S
  resolve [] fid s = (NfsResult.ok fid, s)
  resolve ([] ∷ cs) fid s = resolve cs fid s
  resolve ((b ∷ c) ∷ cs) fid s = and_then (vfs.lookup fid (b ∷ c) s) (resolve cs)

  unfoldable pub path_to_id : Bytes → S → NfsResult ℕ × S
  path_to_id path s = resolve (split path) vfs.root_dir s
