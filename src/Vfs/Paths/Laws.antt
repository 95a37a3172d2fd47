-- ===== src/Vfs/Paths/Laws.antt =====
-- vfs.rs: how the resolution of a path follows from that of its parts.
use fernfs.Prelude.{◌≡◌, refl, ◌∙◌, Bool-cases, inl, inr, List, [], ◌∷◌, ◌++◌, arith, ◌==◌, ℕ}
use fernfs.Io.{Bytes}
use fernfs.Vfs.{FileSystem}
use fernfs.Vfs.Paths.{slash, extend, split, and_then, resolve, path_to_id}
use fernfs.Xdr.Nfs3.{NfsResult}

extend-append :
    (b : ℕ) (ps qs : List Bytes) {p : Bytes} {rest : List Bytes}
    → ps ≡ p ∷ rest
    → extend b (ps ++ qs) ≡ extend b ps ++ qs
extend-append b [] qs e = cc
extend-append b (p ∷ ps) qs e = refl

-- There is always a first piece.
split-cons : (bs : Bytes) → (p : Bytes) × (ps : List Bytes) × (split bs ≡ p ∷ ps)
unfolding split
split-cons [] = ([], [], refl)
split-cons (b ∷ bs) = elim (Bool-cases (b == slash)) [
  | inl e ↦ ([], split bs, rw (e, split))
  | inr e ↦ let (p, ps, q) = split-cons bs in (b ∷ p, ps, rw (e, split) (rw q))
]

split-slash : (p q : Bytes) → split (p ++ slash ∷ q) ≡ split p ++ split q
unfolding split
split-slash [] q = refl
split-slash (b ∷ p) q =
    let (first, rest, e) = split-cons p in
    ground (arith, split-slash p q, extend-append b (split p) (split q) e)

module _ {S : Type 0} (vfs : FileSystem S) where
  then_resolve :
      (r : NfsResult ℕ × S) (cs ds : List Bytes)
      → ((fid : ℕ) (s : S)
          → resolve vfs (cs ++ ds) fid s ≡ and_then vfs (resolve vfs cs fid s) (resolve vfs ds))
      → and_then vfs r (resolve vfs (cs ++ ds))
        ≡ and_then vfs (and_then vfs r (resolve vfs cs)) (resolve vfs ds)
  then_resolve (NfsResult.ok fid, s) cs ds h = h fid s
  then_resolve (NfsResult.err e, s) cs ds h = refl

  resolve-append :
      (cs ds : List Bytes) (fid : ℕ) (s : S)
      → resolve vfs (cs ++ ds) fid s ≡ and_then vfs (resolve vfs cs fid s) (resolve vfs ds)
  unfolding resolve
  resolve-append [] ds fid s = refl
  resolve-append ([] ∷ cs) ds fid s = resolve-append cs ds fid s
  resolve-append ((b ∷ c) ∷ cs) ds fid s =
      then_resolve (vfs.lookup fid (b ∷ c) s) cs ds (resolve-append cs ds)

  -- A path `p/q` is resolved by resolving `p` and, if that is found, `q` from there.
  pub path_to_id-slash :
      (p q : Bytes) (s : S)
      → path_to_id vfs (p ++ slash ∷ q) s
        ≡ and_then vfs (path_to_id vfs p s) (resolve vfs (split q))
  unfolding path_to_id
  path_to_id-slash p q s = rw (split-slash p q) (resolve-append (split p) (split q) vfs.root_dir s)

  then_done : (r : NfsResult ℕ × S) → and_then vfs r (λ fid s. (NfsResult.ok fid, s)) ≡ r
  then_done (NfsResult.ok fid, s) = refl
  then_done (NfsResult.err e, s) = refl

  -- A slash in front or behind makes no difference.
  pub path_to_id_trim :
      (p : Bytes) (s : S)
      → (path_to_id vfs (slash ∷ p) s ≡ path_to_id vfs p s)
        × (path_to_id vfs (p ++ slash ∷ []) s ≡ path_to_id vfs p s)
  unfolding path_to_id split resolve
  path_to_id_trim p s = (refl, path_to_id-slash p [] s ∙ then_done (path_to_id vfs p s))
