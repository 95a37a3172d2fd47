-- ===== src/Portmap/Keys.antt =====
-- protocol/nfs/portmap/mod.rs: the key of the table.
use fernfs.Prelude.{ℕ, ◌≡◌, ◌↔◌, Bool, true, ◌&&◌, arith, ◌==◌, Eq}

pub record PortmapKey : Type 0 where
  pub prog : ℕ
  pub vers : ℕ
  pub prot : ℕ

unfoldable pub key_beq : PortmapKey → PortmapKey → Bool
key_beq a b = a.prog == b.prog && (a.vers == b.vers && a.prot == b.prot)

pub key_beq_iff : (a b : PortmapKey) → (key_beq a b ≡ true) ↔ (a ≡ b)
unfolding key_beq
key_beq_iff a b = (λ h. ground arith, λ h. ground arith)

instance abbrev pub key_eq : Eq PortmapKey
key_eq = record { beq = key_beq; beq_iff = key_beq_iff }
