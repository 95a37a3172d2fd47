-- ===== src/Mirror/PathBuf.antt =====
-- The equality of `std::path::PathBuf`, as bin/fernfs/fs.rs uses it: by components.
use fernfs.Prelude.{
  ℕ, Bool, true, false, ◌&&◌, ◌||◌, not, List, [], ◌∷◌, ◌==◌, nat_eq, list_eq, equal_lists,
  if◌then◌else◌,
}
use fernfs.Io.{Bytes}
use fernfs.Mirror.Host.{slash, is_absolute}

unfoldable pub push_byte : ℕ → List Bytes → List Bytes
push_byte b [] = (b ∷ []) ∷ []
push_byte b (part ∷ parts) = if b == slash then [] ∷ part ∷ parts else (b ∷ part) ∷ parts

-- The parts between the slashes.
unfoldable pub split_path : Bytes → List Bytes
split_path [] = [] ∷ []
split_path (b ∷ path) = push_byte b (split_path path)

abbrev pub is_empty : Bytes → Bool
is_empty [] = true
is_empty (b ∷ bs) = false

abbrev pub current_dir : Bytes
current_dir = 46 ∷ []

-- Empty parts and `.` do not count,
unfoldable pub kept_parts : List Bytes → List Bytes
kept_parts [] = []
kept_parts (part ∷ parts) =
    let rest = kept_parts parts in
    if is_empty part || equal_lists part current_dir then rest else part ∷ rest

-- but for a `.` in front.
unfoldable pub components : List Bytes → List Bytes
components [] = []
components (part ∷ parts) =
    let rest = kept_parts parts in if is_empty part then rest else part ∷ rest

unfoldable pub equal_parts : List Bytes → List Bytes → Bool
equal_parts [] [] = true
equal_parts [] (q ∷ qs) = false
equal_parts (p ∷ ps) [] = false
equal_parts (p ∷ ps) (q ∷ qs) = equal_lists p q && equal_parts ps qs

unfoldable pub same_path : Bytes → Bytes → Bool
same_path a b =
    (if is_absolute a then is_absolute b else not (is_absolute b))
    && equal_parts (components (split_path a)) (components (split_path b))
