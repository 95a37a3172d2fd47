-- ===== src/Mirror/Host.antt =====
-- bin/fernfs: what the mirror asks of the host's file system and of its symbol table, and its own
-- state; bin/fernfs/error_handling.rs.
use fernfs.Prelude.{
  ℕ, Bool, true, false, Option, none, some, List, [], ◌∷◌, ◌++◌, ◌==◌, ◌≡◌, refl, if◌then◌else◌,
}
use fernfs.Io.{Bytes}
use fernfs.Xdr.Nfs3.{NfsResult, NfsStat, nfs3err_io, NfsTime}
use fernfs.Mirror.Attributes.{Metadata}
use fernfs.Mirror.Map.{FsMap}

-- `std::io::ErrorKind`, as far as the mirror tells the kinds apart; `symlink_loop` is ELOOP
pub data IoError : Type 0 where
  not_found permission_denied not_a_directory already_exists invalid_input symlink_loop other :
      IoError

pub data IoResult (A : Type 0) : Type 0 where
  done : A → IoResult A
  failed : IoError → IoResult A

abbrev pub is_done : {A : Type 0} → IoResult A → Bool
is_done (IoResult.done a) = true
is_done (IoResult.failed e) = false

-- `libc::statvfs`
pub record StatVfs : Type 0 where
  pub f_frsize : ℕ
  pub f_bsize : ℕ
  pub f_blocks : ℕ
  pub f_bfree : ℕ
  pub f_bavail : ℕ
  pub f_files : ℕ
  pub f_ffree : ℕ
  pub f_favail : ℕ

-- The calls of the operating system, over its state. A call that looks changes nothing.
pub record Host (H : Type 0) : Type 0 where
  pub symlink_metadata : Bytes → H → IoResult Metadata
  -- opened for reading, without following a symbolic link
  pub open_nofollow : Bytes → H → IoResult Metadata
  -- opened, and the length of the file
  pub file_len : Bytes → H → IoResult ℕ
  -- from an offset on, exactly so many bytes
  pub read_exact : Bytes → ℕ → ℕ → H → IoResult Bytes
  pub read_dir : Bytes → H → IoResult (List (IoResult Bytes))
  pub read_link : Bytes → H → IoResult Bytes
  pub statvfs : Bytes → H → IoResult StatVfs
  -- the clock
  pub now : H → NfsTime
  pub create_dir : Bytes → H → IoResult (Unit {0}) × H
  pub create_file : Bytes → H → IoResult (Unit {0}) × H
  pub create_new : Bytes → H → IoResult (Unit {0}) × H
  pub symlink : Bytes → Bytes → H → IoResult (Unit {0}) × H
  pub remove_dir : Bytes → H → IoResult (Unit {0}) × H
  pub remove_file : Bytes → H → IoResult (Unit {0}) × H
  pub rename : Bytes → Bytes → H → IoResult (Unit {0}) × H
  pub hard_link : Bytes → Bytes → H → IoResult (Unit {0}) × H
  -- opened without truncation, written from the offset on, and synchronised
  pub write_file : Bytes → ℕ → Bytes → H → IoResult Metadata × H
  -- of the file at a path, which for an open file is the path it was opened by
  pub set_len : Bytes → ℕ → H → IoResult (Unit {0}) × H
  pub set_permissions : Bytes → ℕ → H → IoResult (Unit {0}) × H
  pub chown : Bytes → ℕ → ℕ → H → IoResult (Unit {0}) × H
  pub set_file_atime : Bytes → NfsTime → H → IoResult (Unit {0}) × H
  pub set_file_mtime : Bytes → NfsTime → H → IoResult (Unit {0}) × H

-- The symbol table: `get` is asked for symbols that the table has given out, and never fails.
pub record Interner (T : Type 0) : Type 0 where
  pub intern : Bytes → T → ℕ × T
  pub get : T → ℕ → Bytes
  pub check_interned : T → Bytes → Option ℕ

-- The map, behind its lock, and the host.
pub record Mirror (T H : Type 0) : Type 0 where
  pub fsmap : FsMap T
  pub host : H

abbrev pub slash : ℕ
slash = 47

abbrev pub is_absolute : Bytes → Bool
is_absolute [] = false
is_absolute (b ∷ path) = b == slash

abbrev pub needs_separator : Bytes → Bool
needs_separator [] = false
needs_separator (b ∷ []) = if b == slash then false else true
needs_separator (b ∷ c ∷ path) = needs_separator (c ∷ path)

-- `PathBuf::push`: a path that is absolute takes the place of the whole.
unfoldable pub push_path : Bytes → Bytes → Bytes
push_path base name =
    if is_absolute name
    then name
    else if needs_separator base
    then base ++ (slash ∷ name)
    else base ++ name

-- A method of the mirror; `none` is a panic or a stack overflow.
abbrev pub M : Type 0 → Type 0 → Type 0 → Type 0
M T H A = Mirror T H → Option (NfsResult A × Mirror T H)

-- `map_err`
abbrev pub map_err : {A : Type 0} → (IoError → NfsStat) → IoResult A → NfsResult A
map_err f (IoResult.done a) = NfsResult.ok a
map_err f (IoResult.failed e) = NfsResult.err (f e)

module _ {T H : Type 0} where
  abbrev pub pure : {A : Type 0} → A → M T H A
  pure a s = some (NfsResult.ok a, s)

  abbrev pub throw : {A : Type 0} → NfsStat → M T H A
  throw e s = some (NfsResult.err e, s)

  infixl 5 ◌>>=◌ ◌>>◌
  unfoldable pub ◌>>=◌ : {A B : Type 0} → M T H A → (A → M T H B) → M T H B
  ◌>>=◌ m f s = elim (m s) [
    | none ↦ none
    | some (r, s') ↦ elim r [
      | NfsResult.ok a ↦ f a s'
      | NfsResult.err e ↦ some (NfsResult.err e, s')
    ]
  ]

  -- What a step that succeeds leaves to be done.
  pub bind_ok :
      {A B : Type 0} (m : M T H A) (f : A → M T H B) (s : Mirror T H) (a : A) (s' : Mirror T H)
      → m s ≡ some (NfsResult.ok a, s')
      → (m >>= f) s ≡ f a s'
  unfolding ◌>>=◌
  bind_ok m f s a s' h = rw (◌>>=◌, h) refl

  abbrev pub ◌>>◌ : {B : Type 0} → M T H (Unit {0}) → M T H B → M T H B
  m >> k = m >>= λ _. k

  -- `let _ = …` and `.ok()`
  abbrev pub attempt : {A : Type 0} → M T H A → M T H (NfsResult A)
  attempt m s = elim (m s) [ none ↦ none | some (r, s') ↦ some (NfsResult.ok r, s') ]

  abbrev pub when : Bool → M T H (Unit {0}) → M T H (Unit {0})
  when true m = m
  when false m = pure tt

  abbrev pub fsmap_now : M T H (FsMap T)
  fsmap_now s = some (NfsResult.ok s.fsmap, s)

  abbrev pub change_map : (FsMap T → FsMap T) → M T H (Unit {0})
  change_map f s = some (NfsResult.ok tt, record s { fsmap = f s.fsmap })

  -- A value that the change of the map answers.
  abbrev pub on_map : {A : Type 0} → (FsMap T → A × FsMap T) → M T H A
  on_map f s = let (a, m) = f s.fsmap in some (NfsResult.ok a, record s { fsmap = m })

  -- A change that may overflow the stack.
  abbrev pub may_overflow : (FsMap T → Option (FsMap T)) → M T H (Unit {0})
  may_overflow f s = elim (f s.fsmap) [
    | none ↦ none
    | some m ↦ some (NfsResult.ok tt, record s { fsmap = m })
  ]

  abbrev pub look : {A : Type 0} → (H → IoResult A) → (IoError → NfsStat) → M T H A
  look f g s = some (map_err g (f s.host), s)

  -- `.is_ok()`, and `if let Ok`
  abbrev pub peek : {A : Type 0} → (H → IoResult A) → M T H (IoResult A)
  peek f s = some (NfsResult.ok (f s.host), s)

  abbrev pub act : {A : Type 0} → (H → IoResult A × H) → (IoError → NfsStat) → M T H A
  act f g s = let (r, h) = f s.host in some (map_err g r, record s { host = h })

  -- where the kind of the failure matters
  abbrev pub act_kind : {A : Type 0} → (H → IoResult A × H) → M T H (IoResult A)
  act_kind f s = let (r, h) = f s.host in some (NfsResult.ok r, record s { host = h })

  abbrev pub try_act : {A : Type 0} → (H → IoResult A × H) → M T H (Unit {0})
  try_act f s = let (r, h) = f s.host in some (NfsResult.ok tt, record s { host = h })

abbrev pub as_io : IoError → NfsStat
as_io e = nfs3err_io
