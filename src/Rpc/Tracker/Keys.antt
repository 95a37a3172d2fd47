-- ===== src/Rpc/Tracker/Keys.antt =====
-- The key of a transaction: the transaction identifier and the client's address.
use text.Mathlib.TextEquality.{eq_iff}
use fernfs.Prelude.{ℕ, ◌≡◌, ◌↔◌, Bool, true, ◌&&◌, arith, ◌==◌, Eq, string_eq}
use Prim.Native.String.{String}

pub record Key : Type 0 where
  pub xid : ℕ
  pub client_addr : String

unfoldable pub key_beq : Key → Key → Bool
key_beq a b = a.xid == b.xid && string_eq.beq a.client_addr b.client_addr

pub key_beq_iff : (a b : Key) → (key_beq a b ≡ true) ↔ (a ≡ b)
unfolding key_beq
key_beq_iff a b = (
  λ h. ground (arith, eq_iff a.client_addr b.client_addr),
  λ h. ground (arith, eq_iff a.client_addr b.client_addr),
)

instance abbrev pub key_eq : Eq Key
key_eq = record { beq = key_beq; beq_iff = key_beq_iff }
