-- ===== src/Vfs/Permissions/Mask.antt =====
-- vfs/permissions.rs: the bits of a mask that is put together from single bits and a run of three.
use fernfs.Prelude.{ℕ, ◌+◌, ◌*◌, ◌<◌, ◌≡◌, Bool, ◌&&◌, arith}
use fernfs.Vfs.Permissions.{bit, when}

-- READ, LOOKUP and EXECUTE, and the run MODIFY, EXTEND, DELETE.
unfoldable pub mask : Bool → Bool → Bool → Bool → ℕ → ℕ
mask read lookup execute modify run =
    when read 1 + when lookup 2 + when execute 32 + when modify (run * 4)

module _ (read lookup execute modify : Bool) (run : ℕ) (h : run < 8) where
  pub bit_read : bit (mask read lookup execute modify run) 0 ≡ read
  unfolding mask
  bit_read = ground arith

  pub bit_lookup : bit (mask read lookup execute modify run) 1 ≡ lookup
  unfolding mask
  bit_lookup = ground arith

  pub bit_execute : bit (mask read lookup execute modify run) 5 ≡ execute
  unfolding mask
  bit_execute = ground arith

  pub bit_modify : bit (mask read lookup execute modify run) 2 ≡ (modify && bit run 0)
  unfolding mask
  bit_modify = ground arith

  pub bit_extend : bit (mask read lookup execute modify run) 3 ≡ (modify && bit run 1)
  unfolding mask
  bit_extend = ground arith

  pub bit_delete : bit (mask read lookup execute modify run) 4 ≡ (modify && bit run 2)
  unfolding mask
  bit_delete = ground arith

  pub mask-lt : mask read lookup execute modify run < 64
  unfolding mask
  mask-lt = ground arith
