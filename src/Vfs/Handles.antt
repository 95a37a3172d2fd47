-- ===== src/Vfs/Handles.antt =====
-- vfs.rs: file handles, which carry the generation of the server that made them.
use fernfs.Prelude.{
  ℕ, zero, suc, ◌+◌, ◌*◌, ◌/◌, ◌%◌, ◌<◌, ◌≡◌, refl, ap, [], ◌∷◌, ◌++◌, arith, ltb, ◌==◌,
  if◌then◌else◌, length, take, drop, length-append, All, ◌∙◌, take-append, drop-append, take_all,
  length-take, length-drop, take-append-drop, All-take, All-drop,
}
use mathlib.Core.Path.{ap₂}
use fernfs.Io.{Bytes}
use fernfs.Xdr.Word.{IsU64}
use fernfs.Xdr.Nfs3.{NfsResult, nfs3err_stale, nfs3err_badhandle}

-- `to_le_bytes` and `from_le_bytes`
unfoldable pub le_bytes : ℕ → ℕ → Bytes
le_bytes zero v = []
le_bytes (suc n) v = v % 256 ∷ le_bytes n (v / 256)

unfoldable pub from_le_bytes : Bytes → ℕ
from_le_bytes [] = 0
from_le_bytes (b ∷ bs) = b + 256 * from_le_bytes bs

unfoldable pub id_to_fh : ℕ → ℕ → Bytes
id_to_fh gennum id = le_bytes 8 gennum ++ le_bytes 8 id

unfoldable pub fh_to_id : ℕ → Bytes → NfsResult ℕ
fh_to_id gennum fh =
    if length fh == 16
    then (let gen = from_le_bytes (take 8 fh) in
        let id = from_le_bytes (take 8 (drop 8 fh)) in
        if ltb gen gennum
        then NfsResult.err nfs3err_stale
        else if ltb gennum gen
        then NfsResult.err nfs3err_badhandle
        else NfsResult.ok id)
    else NfsResult.err nfs3err_badhandle

-- `server_id`: the cookie verifier and the write verifier
unfoldable pub server_id : ℕ → Bytes
server_id gennum = le_bytes 8 gennum

length-le_bytes : (n v : ℕ) → length (le_bytes n v) ≡ n
unfolding le_bytes
length-le_bytes zero v = refl
length-le_bytes (suc n) v = ap suc (length-le_bytes n (v / 256))

pub length-id_to_fh : (gennum id : ℕ) → length (id_to_fh gennum id) ≡ 16
unfolding id_to_fh
length-id_to_fh gennum id =
    rw
      (
        length-append (le_bytes 8 gennum) (le_bytes 8 id),
        length-le_bytes 8 gennum,
        length-le_bytes 8 id,
      )
      refl

from_le_bytes-le_bytes_8 : (v : ℕ) → IsU64 v → from_le_bytes (le_bytes 8 v) ≡ v
unfolding le_bytes from_le_bytes
from_le_bytes-le_bytes_8 v h = omega arith

le_bytes-from_le_bytes :
    (bs : Bytes) → All (λ b. b < 256) bs → le_bytes (length bs) (from_le_bytes bs) ≡ bs
unfolding le_bytes from_le_bytes
le_bytes-from_le_bytes [] h = refl
le_bytes-from_le_bytes (b ∷ bs) (h, hs) =
    let low : (b + 256 * from_le_bytes bs) % 256 ≡ b = omega arith in
    let high : (b + 256 * from_le_bytes bs) / 256 ≡ from_le_bytes bs = omega arith in
    rw (low, high) (ap (λ t. b ∷ t) (le_bytes-from_le_bytes bs hs))

-- What a server of the generation `now` makes of a handle that one of the generation `made`
-- handed out: the file it stood for, if it is the same generation; a stale handle, if `made` is
-- older; a bad handle otherwise.
pub fh_to_id-id_to_fh :
    (made now id : ℕ)
    → IsU64 made
    → IsU64 id
    → fh_to_id now (id_to_fh made id) ≡ (
        if ltb made now
        then NfsResult.err nfs3err_stale
        else if ltb now made
        then NfsResult.err nfs3err_badhandle
        else NfsResult.ok id)
unfolding fh_to_id id_to_fh
fh_to_id-id_to_fh made now id h k =
    let front = le_bytes 8 made in
    let back = le_bytes 8 id in
    ground (
      arith,
      length-append front back,
      length-le_bytes 8 made,
      length-le_bytes 8 id,
      take-append 8 front back (length-le_bytes 8 made),
      drop-append 8 front back (length-le_bytes 8 made),
      take_all 8 back,
      from_le_bytes-le_bytes_8 made h,
      from_le_bytes-le_bytes_8 id k,
    )

halves :
    (n : ℕ) (fh : Bytes)
    → length fh ≡ n + n
    → All (λ b. b < 256) fh
    → le_bytes n (from_le_bytes (take n fh)) ++ le_bytes n (from_le_bytes (take n (drop n fh))) ≡ fh
halves n fh h bytes =
    let front = take n fh in
    let back = drop n fh in
    let size : length front ≡ n = omega (arith, length-take n fh) in
    let rest : length back ≡ n = omega (arith, length-drop n fh) in
    rw (take_all n back (omega arith)) (
      ap₂ ◌++◌ (rw size at (le_bytes-from_le_bytes front (All-take _ n fh bytes)))
        (rw rest at (le_bytes-from_le_bytes back (All-drop _ n fh bytes)))
      ∙ take-append-drop n fh)

-- A handle is accepted only if it is, byte for byte, the one that this server hands out for the
-- file it names.
pub id_to_fh-fh_to_id :
    (now id : ℕ) (fh : Bytes)
    → All (λ b. b < 256) fh
    → fh_to_id now fh ≡ NfsResult.ok id
    → fh ≡ id_to_fh now id
unfolding fh_to_id id_to_fh
id_to_fh-fh_to_id now id fh bytes e = ground (arith, halves 8 fh)
