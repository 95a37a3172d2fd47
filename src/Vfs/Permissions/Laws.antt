-- ===== src/Vfs/Permissions/Laws.antt =====
-- vfs/permissions.rs: which access is granted, bit by bit.
use fernfs.Prelude.{
  ltb, ◌==◌, ◌/◌, ◌*◌, ℕ, ◌%◌, ◌<◌, ◌≡◌, refl, sym, Bool, true, false, ◌&&◌, arith, ==_iff, ap, ◌∙◌,
}
use mathlib.Core.Path.{subst}
use fernfs.Vfs.{Capabilities, read_only, read_write}
use fernfs.Vfs.Permissions.{UnixPerms, bit, unix_mode_perms, access_mask, grant, supports_write}
use fernfs.Vfs.Permissions.Mask.{
  mask, bit_read, bit_lookup, bit_execute, bit_modify, bit_extend, bit_delete, mask-lt,
}
use fernfs.Xdr.Nfs3.{Ftype, nf3reg, nf3dir, nf3blk, nf3chr, nf3lnk, nf3sock, nf3fifo, Fattr}
use fernfs.Xdr.Rpc.{AuthUnix}

-- What each type of object allows.
abbrev pub may_lookup : Ftype → UnixPerms → Bool
may_lookup nf3dir p = p.exec
may_lookup _ p = false

abbrev pub may_modify : Ftype → UnixPerms → Bool → Bool
may_modify nf3reg p w = w
may_modify nf3dir p w = w && p.exec
may_modify _ p w = false

abbrev pub may_delete : Ftype → UnixPerms → Bool → Bool
may_delete nf3dir p w = w && p.exec
may_delete _ p w = false

-- Of the requested access, exactly what is allowed is granted, bit by bit.
pub record IsExact (read lookup modify delete execute : Bool) (requested granted : ℕ) : Type 0 where
  pub on_read : bit granted 0 ≡ (bit requested 0 && read)
  pub on_lookup : bit granted 1 ≡ (bit requested 1 && lookup)
  pub on_modify : bit granted 2 ≡ (bit requested 2 && modify)
  pub on_extend : bit granted 3 ≡ (bit requested 3 && modify)
  pub on_delete : bit granted 4 ≡ (bit requested 4 && delete)
  pub on_execute : bit granted 5 ≡ (bit requested 5 && execute)
  pub nothing_else : granted < 64

abbrev Exact : Ftype → UnixPerms → Bool → ℕ → Type 0
Exact t p w r =
    IsExact p.read (may_lookup t p) (may_modify t p w) (may_delete t p w) p.exec r (grant t p w r)

-- What was requested of the run of write bits, if any of it was and writing is allowed.
bit_run_0 : (run : ℕ) (w : Bool) → ((ltb 0 (run * 4) && w) && bit run 0) ≡ (bit run 0 && w)
bit_run_0 run w = ground arith

bit_run_1 : (run : ℕ) (w : Bool) → ((ltb 0 (run * 4) && w) && bit run 1) ≡ (bit run 1 && w)
bit_run_1 run w = ground arith

bit_run_2 : (run : ℕ) (w : Bool) → ((ltb 0 (run * 4) && w) && bit run 2) ≡ (bit run 2 && w)
bit_run_2 run w = ground arith

-- The mask of the run of the requested bits 2 to 4, or 2 to 3 where DELETE has no meaning.
module _ (read lookup execute w : Bool) (r : ℕ) where
  mask-IsExact :
      (x y z : Bool) (run : ℕ) (delete : Bool)
      → x ≡ (bit r 0 && read)
      → y ≡ (bit r 1 && lookup)
      → z ≡ (bit r 5 && execute)
      → run < 8
      → bit run 0 ≡ bit r 2
      → bit run 1 ≡ bit r 3
      → (bit run 2 && w) ≡ (bit r 4 && delete)
      → IsExact read lookup w delete execute r (mask x y z (ltb 0 (run * 4) && w) run)
  mask-IsExact x y z run delete ex ey ez h e0 e1 e2 =
      let q = ltb 0 (run * 4) && w in
      record {
        on_read = bit_read x y z q run h ∙ ex;
        on_lookup = bit_lookup x y z q run h ∙ ey;
        on_modify = bit_modify x y z q run h ∙ bit_run_0 run w ∙ ap (λ b. b && w) e0;
        on_extend = bit_extend x y z q run h ∙ bit_run_1 run w ∙ ap (λ b. b && w) e1;
        on_delete = bit_delete x y z q run h ∙ bit_run_2 run w ∙ e2;
        on_execute = bit_execute x y z q run h ∙ ez;
        nothing_else = mask-lt x y z q run h;
      }

no_bit : (b : Bool) → false ≡ (b && false)
no_bit true = refl
no_bit false = refl

same_bit : (m n : ℕ) → m % 2 ≡ n % 2 → (m % 2 == 1) ≡ (n % 2 == 1)
same_bit m n e = ap (λ t. t == 1) e

grant_file : (p : UnixPerms) (w : Bool) (r : ℕ) → Exact nf3reg p w r
unfolding grant mask
grant_file p w r =
    let run = r / 4 % 4 in
    let q = ltb 0 (run * 4) && w in
    let exact =
      mask-IsExact p.read false p.exec w r (bit r 0 && p.read) false (bit r 5 && p.exec) run false
        refl (no_bit (bit r 1)) refl (omega arith) (same_bit (run / 1) (r / 4) (omega arith))
        (same_bit (run / 2) (r / 8) (omega arith)) (ground arith) in
    let e : mask (bit r 0 && p.read) false (bit r 5 && p.exec) q run ≡ grant nf3reg p w r =
      omega arith in
    subst (λ g. IsExact p.read false w false p.exec r g) e exact

grant_dir : (p : UnixPerms) (w : Bool) (r : ℕ) → Exact nf3dir p w r
unfolding grant mask
grant_dir p w r =
    mask-IsExact p.read p.exec p.exec (w && p.exec) r (bit r 0 && p.read) (bit r 1 && p.exec)
      (bit r 5 && p.exec) (r / 4 % 8) (w && p.exec) refl refl refl (omega arith)
      (same_bit (r / 4 % 8 / 1) (r / 4) (omega arith))
      (same_bit (r / 4 % 8 / 2) (r / 8) (omega arith))
      (ap (λ b. b && (w && p.exec)) (same_bit (r / 4 % 8 / 4) (r / 16) (omega arith)))

grant_other : (p : UnixPerms) (w : Bool) (r : ℕ) → Exact nf3lnk p w r
unfolding grant mask
grant_other p w r =
    let run = r / 4 % 8 in
    let q = ltb 0 (run * 4) && false in
    let exact =
      mask-IsExact p.read false p.exec false r (bit r 0 && p.read) false (bit r 5 && p.exec) run
        false refl (no_bit (bit r 1)) refl (omega arith) (same_bit (run / 1) (r / 4) (omega arith))
        (same_bit (run / 2) (r / 8) (omega arith))
        (ap (λ b. b && false) (same_bit (run / 4) (r / 16) (omega arith))) in
    let off : mask (bit r 0 && p.read) false (bit r 5 && p.exec) false run ≡ grant nf3lnk p w r =
      omega arith in
    let e =
      ap (λ m. mask (bit r 0 && p.read) false (bit r 5 && p.exec) m run)
        (sym (no_bit (ltb 0 (run * 4))))
      ∙ off in
    subst (λ g. IsExact p.read false false false p.exec r g) e exact

grant-IsExact : (t : Ftype) (p : UnixPerms) (w : Bool) (r : ℕ) → Exact t p w r
unfolding grant
grant-IsExact nf3reg p w r = grant_file p w r
grant-IsExact nf3dir p w r = grant_dir p w r
grant-IsExact nf3lnk p w r = grant_other p w r
grant-IsExact nf3blk p w r = grant_other p w r
grant-IsExact nf3chr p w r = grant_other p w r
grant-IsExact nf3sock p w r = grant_other p w r
grant-IsExact nf3fifo p w r = grant_other p w r

-- `access_mask` grants exactly what was requested and is allowed: READ and EXECUTE by the mode
-- bits, LOOKUP on directories by the execute bit, MODIFY and EXTEND on files and directories and
-- DELETE on directories by the write bit of a writable export, on directories with the execute bit.
pub access_mask-IsExact :
    (attr : Fattr) (auth : AuthUnix) (capabilities : Capabilities) (requested : ℕ)
    → (let p = unix_mode_perms attr auth in
        let w = supports_write capabilities && p.write in
        IsExact p.read
          (may_lookup attr.ftype p)
          (may_modify attr.ftype p w)
          (may_delete attr.ftype p w)
          p.exec
          requested
          (access_mask attr auth capabilities requested))
unfolding access_mask
access_mask-IsExact attr auth capabilities requested =
    let p = unix_mode_perms attr auth in
    grant-IsExact attr.ftype p (supports_write capabilities && p.write) requested

no_write :
    (t : Ftype) (p : UnixPerms) → (may_modify t p false ≡ false) × (may_delete t p false ≡ false)
no_write nf3dir p = (refl, refl)
no_write nf3reg p = (refl, refl)
no_write _ p = (refl, refl)

-- On a read-only export no one, root included, is granted MODIFY, EXTEND or DELETE.
pub access_mask_read_only :
    (attr : Fattr) (auth : AuthUnix) (requested : ℕ)
    → (let granted = access_mask attr auth read_only requested in
        (bit granted 2 ≡ false) × (bit granted 3 ≡ false) × (bit granted 4 ≡ false))
access_mask_read_only attr auth requested =
    let exact = access_mask-IsExact attr auth read_only requested in
    let (modify, delete) = no_write attr.ftype (unix_mode_perms attr auth) in
    (
      ground (arith, exact.on_modify, modify),
      ground (arith, exact.on_extend, modify),
      ground (arith, exact.on_delete, delete),
    )

abbrev all_perms : UnixPerms
all_perms = record { read = true; write = true; exec = true }

root_perms : (attr : Fattr) (auth : AuthUnix) → auth.uid ≡ 0 → unix_mode_perms attr auth ≡ all_perms
unfolding unix_mode_perms
root_perms attr auth u = rw ((==_iff auth.uid 0).1 u)

grant_root : (r : ℕ) → grant nf3dir all_perms true r ≡ r % 64
unfolding grant
grant_root r = ground arith

-- Root is granted on a directory of a writable export all that it requests.
pub access_mask_root :
    (attr : Fattr) (auth : AuthUnix) (requested : ℕ)
    → auth.uid ≡ 0
    → attr.ftype ≡ nf3dir
    → access_mask attr auth read_write requested ≡ requested % 64
unfolding access_mask
access_mask_root attr auth requested u t =
    rw (root_perms attr auth u)
      (ap (λ k. grant k all_perms true requested) t ∙ grant_root requested)
