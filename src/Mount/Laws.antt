-- ===== src/Mount/Laws.antt =====
-- protocol/nfs/mount/mnt.rs: which paths are within an export, and what a mount resolves.
use mathlib.Core.List.{reverse, reverse-cons, reverse-reverse}
use fernfs.Prelude.{
  ℕ, ◌≡◌, ◌⊎◌, ◌↔◌, inl, inr, refl, sym, ◌∙◌, ap, false, Bool-cases, Option, none, some, [], ◌∷◌,
  ◌++◌, append-nil, ◌==◌, ==_iff,
}
use fernfs.Io.{ok, Bytes}
use fernfs.Xdr.Opaque.{read_opaque}
use fernfs.Vfs.{FileSystem}
use fernfs.Vfs.Paths.{slash, path_to_id}
use fernfs.Vfs.Paths.Laws.{path_to_id_trim}
use fernfs.Mount.{
  trim_start_slashes, trim_end_slashes, trim_slashes, strip_prefix, below, below_export, is_root,
  export_subpath, Exports, no_entry, mount_path, found, mountproc3_mnt,
}

strip_prefix-append : (export rest : Bytes) → strip_prefix export (export ++ rest) ≡ some rest
unfolding strip_prefix
strip_prefix-append [] rest = refl
strip_prefix-append (b ∷ export) rest = rw ((==_iff b b).1 refl) (strip_prefix-append export rest)

strip_prefix_sound :
    (export requested : Bytes) {rest : Bytes}
    → strip_prefix export requested ≡ some rest
    → requested ≡ export ++ rest
unfolding strip_prefix
strip_prefix_sound [] requested e = cc
strip_prefix_sound (p ∷ export) [] e = cc
strip_prefix_sound (p ∷ export) (b ∷ requested) e = elim (Bool-cases (p == b)) [
  | inl same ↦
      let r = strip_prefix_sound export requested (rw same at e) in cc (r, (==_iff p b).0 same)
  | inr other ↦ cc (rw other at e)
]

below_sound :
    (rest : Bytes) {sub : Bytes}
    → below rest ≡ some sub
    → ((rest ≡ []) × (sub ≡ [])) ⊎ (rest ≡ slash ∷ sub)
unfolding below
below_sound [] e = inl (refl, cc)
below_sound (b ∷ rest) e = elim (Bool-cases (b == slash)) [
  | inl same ↦ let h = rw same at e in inr (cc (h, (==_iff b slash).0 same))
  | inr other ↦ cc (rw other at e)
]

below_export_sound :
    (export requested : Bytes) (left : Option Bytes) {sub : Bytes}
    → strip_prefix export requested ≡ left
    → below_export left ≡ some sub
    → ((requested ≡ export) × (sub ≡ [])) ⊎ (requested ≡ export ++ slash ∷ sub)
unfolding below_export
below_export_sound export requested none s e = cc
below_export_sound export requested (some rest) s e =
    let whole = strip_prefix_sound export requested s in
    elim (below_sound rest e) [
      | inl h ↦ inl (rw (whole, h.0) (append-nil export), h.1)
      | inr h ↦ inr (rw (whole, h) refl)
    ]

below_export_complete :
    (export requested sub : Bytes)
    → ((requested ≡ export) × (sub ≡ [])) ⊎ (requested ≡ export ++ slash ∷ sub)
    → below_export (strip_prefix export requested) ≡ some sub
unfolding below_export below
below_export_complete export requested sub (inl (e, none_left)) =
    rw (e, none_left) (rw (rw (append-nil export) at (strip_prefix-append export [])) refl)
below_export_complete export requested sub (inr e) =
    rw e (rw (strip_prefix-append export (slash ∷ sub)) refl)

-- Below an export that is not the root, a request is accepted exactly if it is the export's name,
-- or that name, a slash and a path, which is then the path that is mounted: no other name that
-- only begins like the export gets in.
pub export_subpath_exact :
    (requested export sub : Bytes)
    → is_root export ≡ false
    → (export_subpath requested export ≡ some sub)
      ↔ (((requested ≡ export) × (sub ≡ [])) ⊎ (requested ≡ export ++ slash ∷ sub))
unfolding export_subpath
export_subpath_exact requested export sub h = rw h (
  below_export_sound export requested (strip_prefix export requested) refl,
  below_export_complete export requested sub,
)

module _ {S : Type 0} (vfs : FileSystem S) where
  trim_start_same :
      (p : Bytes) (s : S) → path_to_id vfs (trim_start_slashes p) s ≡ path_to_id vfs p s
  unfolding trim_start_slashes
  trim_start_same [] s = refl
  trim_start_same (b ∷ p) s = elim (Bool-cases (b == slash)) [
    | inl e ↦
        rw (e, trim_start_slashes)
          (trim_start_same p s
            ∙ sym (path_to_id_trim vfs p s).0
            ∙ ap (λ c. path_to_id vfs (c ∷ p) s) (sym ((==_iff b slash).0 e)))
    | inr e ↦ rw (e, trim_start_slashes)
  ]

  trim_reversed_same :
      (q : Bytes) (s : S)
      → path_to_id vfs (reverse (trim_start_slashes q)) s ≡ path_to_id vfs (reverse q) s
  unfolding trim_start_slashes
  trim_reversed_same [] s = refl
  trim_reversed_same (b ∷ q) s = elim (Bool-cases (b == slash)) [
    | inl e ↦
        rw (e, trim_start_slashes)
          (trim_reversed_same q s
            ∙ sym (path_to_id_trim vfs (reverse q) s).1
            ∙ ap (λ c. path_to_id vfs (reverse q ++ (c ∷ [])) s) (sym ((==_iff b slash).0 e))
            ∙ ap (λ p. path_to_id vfs p s) (sym (reverse-cons b q)))
    | inr e ↦ rw (e, trim_start_slashes)
  ]

  -- Trimming slashes at both ends does not change what a path resolves to.
  path_to_id-trim_slashes :
      (p : Bytes) (s : S) → path_to_id vfs (slash ∷ trim_slashes p) s ≡ path_to_id vfs p s
  unfolding trim_slashes trim_end_slashes
  path_to_id-trim_slashes p s =
      let q = trim_start_slashes p in
      (path_to_id_trim vfs (trim_slashes p) s).0
      ∙ trim_reversed_same (reverse q) s
      ∙ ap (λ r. path_to_id vfs r s) (reverse-reverse q)
      ∙ trim_start_same p s

  -- The mount looks up just the path below the export, as it stands, and nothing outside.
  pub mount_resolves :
      (context : Exports) (xid : ℕ) (input path rest : Bytes) (s : S)
      → read_opaque input ≡ ok (path, rest)
      → mountproc3_mnt vfs context xid input s ≡ elim (export_subpath path context.export_name) [
        | none ↦ (no_entry vfs context xid, [], s)
        | some sub ↦ found vfs context xid (path_to_id vfs sub s)
      ]
  unfolding mountproc3_mnt mount_path
  mount_resolves context xid input path rest s e =
      rw (e, mountproc3_mnt)
        (elim (export_subpath path context.export_name)
          as (λ p. mount_path vfs context xid p s ≡ elim p [
            | none ↦ (no_entry vfs context xid, [], s)
            | some sub ↦ found vfs context xid (path_to_id vfs sub s)
          ]) [ none ↦ refl | some sub ↦ rw (path_to_id-trim_slashes sub s) ])
