-- ===== src/Vfs/Permissions.antt =====
-- vfs/permissions.rs: the access that the mode bits grant. A mask that is a run of bits is written
-- with `/` and `%`, and `|=` on bits that are not set yet as a sum.
pub mod Mask
pub mod Laws
use fernfs.Prelude.{
  ℕ, ◌+◌, ◌*◌, ◌/◌, ◌%◌, ◌^◌, Bool, true, false, ◌&&◌, ◌||◌, List, [], ◌∷◌, ltb, ◌==◌,
  if◌then◌else◌,
}
use fernfs.Vfs.{Capabilities, read_only, read_write}
use fernfs.Xdr.Nfs3.{Ftype, nf3reg, nf3dir, Fattr}
use fernfs.Xdr.Rpc.{AuthUnix}

pub record UnixPerms : Type 0 where
  pub read : Bool
  pub write : Bool
  pub exec : Bool

-- `v & 2^k != 0`
abbrev pub bit : ℕ → ℕ → Bool
bit v k = v / 2 ^ k % 2 == 1

contains : List ℕ → ℕ → Bool
contains [] g = false
contains (x ∷ xs) g = x == g || contains xs g

unfoldable pub auth_matches_gid : AuthUnix → ℕ → Bool
unfolding contains
auth_matches_gid auth gid = auth.gid == gid || contains auth.gids gid

abbrev perm_bits : ℕ → ℕ → UnixPerms
perm_bits mode low = record {
  read = bit mode (low + 2);
  write = bit mode (low + 1);
  exec = bit mode low;
}

unfoldable pub unix_mode_perms : Fattr → AuthUnix → UnixPerms
unix_mode_perms attr auth =
    if auth.uid == 0
    then record { read = true; write = true; exec = true }
    else if auth.uid == attr.uid
    then perm_bits (attr.mode % 512) 6
    else if auth_matches_gid auth attr.gid
    then perm_bits (attr.mode % 512) 3
    else perm_bits (attr.mode % 512) 0

-- The bits of ACCESS3: READ 1, LOOKUP 2, MODIFY 4, EXTEND 8, DELETE 16, EXECUTE 32.
abbrev pub access3_read : ℕ
access3_read = 1

abbrev pub access3_lookup : ℕ
access3_lookup = 2

abbrev pub access3_execute : ℕ
access3_execute = 32

-- `requested & write_mask`, the bits 2 and 3; `requested & (write_mask | delete_mask)`, the bits 2
-- to 4
abbrev pub modify_extend : ℕ → ℕ
modify_extend requested = requested / 4 % 4 * 4

abbrev pub modify_extend_delete : ℕ → ℕ
modify_extend_delete requested = requested / 4 % 8 * 4

abbrev pub supports_write : Capabilities → Bool
supports_write read_write = true
supports_write read_only = false

abbrev pub when : Bool → ℕ → ℕ
when b v = if b then v else 0

grant : Ftype → UnixPerms → Bool → ℕ → ℕ
grant nf3reg p allow_write requested =
    when (bit requested 0 && p.read) access3_read
    + when (bit requested 5 && p.exec) access3_execute
    + when (ltb 0 (modify_extend requested) && allow_write) (modify_extend requested)
grant nf3dir p allow_write requested =
    when (bit requested 0 && p.read) access3_read
    + when (bit requested 1 && p.exec) access3_lookup
    + when (bit requested 5 && p.exec) access3_execute
    + when (ltb 0 (modify_extend_delete requested) && (allow_write && p.exec))
        (modify_extend_delete requested)
grant _ p allow_write requested =
    when (bit requested 0 && p.read) access3_read + when (bit requested 5 && p.exec) access3_execute

unfoldable pub access_mask : Fattr → AuthUnix → Capabilities → ℕ → ℕ
unfolding grant
access_mask attr auth capabilities requested =
    let perms = unix_mode_perms attr auth in
    grant attr.ftype perms (supports_write capabilities && perms.write) requested
