-- ===== src/Mirror/Quiet.antt =====
-- bin/fernfs: which methods of the mirror change nothing on the host.
pub mod Methods
use mathlib.Core.Path.{subst}
use fernfs.Prelude.{ℕ, ◌≡◌, refl, Bool, true, false, Option, none, some, if◌then◌else◌}
use fernfs.Xdr.Nfs3.{NfsResult, NfsStat}
use fernfs.Mirror.Map.{FsMap}
use fernfs.Mirror.Host.{
  IoError, IoResult, Mirror, M, pure, throw, ◌>>=◌, attempt, fsmap_now, change_map, on_map,
  may_overflow, look, peek, act,
}
use fernfs.Mirror.Refresh.{find}

-- What a method leaves of the host, unless it panics or overflows the stack.
abbrev pub Leaves : {T H A : Type 0} → H → Option (NfsResult A × Mirror T H) → Type 0
Leaves h none = Unit {0}
Leaves h (some (r, s)) = s.host ≡ h

pub record KeepsHost {T H A : Type 0} (m : M T H A) : Type 0 where
  pub leaves : (s : Mirror T H) → Leaves s.host (m s)

module _ {T H A B : Type 0} where
  bind-Leaves :
      (o : Option (NfsResult A × Mirror T H)) (f : A → M T H B) (h : H) (s : Mirror T H)
      → Leaves h o
      → ((a : A) → KeepsHost (f a))
      → Leaves h (((λ x. o) >>= f) s)
  unfolding ◌>>=◌
  bind-Leaves none f h s u k = tt
  bind-Leaves (some (NfsResult.ok a, s')) f h s u k =
      subst (λ x. Leaves x (f a s')) u ((k a).leaves s')
  bind-Leaves (some (NfsResult.err e, s')) f h s u k = u

  pub bind-KeepsHost :
      {m : M T H A} {f : A → M T H B}
      → KeepsHost m
      → ((a : A) → KeepsHost (f a))
      → KeepsHost (m >>= f)
  unfolding ◌>>=◌
  bind-KeepsHost {m} {f} u k = record { leaves = λ s. bind-Leaves (m s) f s.host s (u.leaves s) k }

  -- One call that may change the host, and then none.
  pub act-Leaves :
      (f : H → IoResult A × H) (g : IoError → NfsStat) (k : A → M T H B) (s : Mirror T H)
      → ((a : A) → KeepsHost (k a))
      → Leaves (f s.host).1 ((act f g >>= k) s)
  unfolding ◌>>=◌
  act-Leaves f g k s u = bind-Leaves (act f g s) k (f s.host).1 s refl u

module _ {T H A : Type 0} where
  pub if-KeepsHost :
      (b : Bool) {m n : M T H A} → KeepsHost m → KeepsHost n → KeepsHost (if b then m else n)
  if-KeepsHost true u v = u
  if-KeepsHost false u v = v

  pub pure-KeepsHost : (a : A) → KeepsHost (pure {T = T} {H = H} a)
  pure-KeepsHost a = record { leaves = λ s. refl }

  pub throw-KeepsHost : (e : NfsStat) → KeepsHost (throw {T = T} {H = H} {A = A} e)
  throw-KeepsHost e = record { leaves = λ s. refl }

  pub look-KeepsHost : (f : H → IoResult A) (g : IoError → NfsStat) → KeepsHost (look {T = T} f g)
  look-KeepsHost f g = record { leaves = λ s. refl }

  pub peek-KeepsHost : (f : H → IoResult A) → KeepsHost (peek {T = T} f)
  peek-KeepsHost f = record { leaves = λ s. refl }

  pub on_map-KeepsHost : (f : FsMap T → A × FsMap T) → KeepsHost (on_map {H = H} f)
  on_map-KeepsHost f = record { leaves = λ s. refl }

  pub attempt-KeepsHost : {m : M T H A} → KeepsHost m → KeepsHost (attempt m)
  attempt-KeepsHost {m} u = record { leaves = λ s. attempt-Leaves (m s) s (u.leaves s) }
    where
      attempt-Leaves :
          (o : Option (NfsResult A × Mirror T H)) (s : Mirror T H)
          → Leaves s.host o
          → Leaves s.host (attempt (λ x. o) s)
      attempt-Leaves none s u = tt
      attempt-Leaves (some (r, s')) s u = u

module _ {T H : Type 0} where
  pub fsmap_now-KeepsHost : KeepsHost (fsmap_now {T = T} {H = H})
  fsmap_now-KeepsHost = record { leaves = λ s. refl }

  pub change_map-KeepsHost : (f : FsMap T → FsMap T) → KeepsHost (change_map {H = H} f)
  change_map-KeepsHost f = record { leaves = λ s. refl }

  pub may_overflow-KeepsHost : (f : FsMap T → Option (FsMap T)) → KeepsHost (may_overflow {H = H} f)
  may_overflow-KeepsHost f = record { leaves = λ s. may_overflow-Leaves (f s.fsmap) s }
    where
      may_overflow-Leaves :
          (o : Option (FsMap T)) (s : Mirror T H) → Leaves s.host (may_overflow (λ m. o) s)
      may_overflow-Leaves none s = tt
      may_overflow-Leaves (some m) s = refl

  pub find-KeepsHost : (id : ℕ) → KeepsHost (find {T = T} {H = H} id)
  unfolding find
  find-KeepsHost id = record { leaves = λ s. refl }
