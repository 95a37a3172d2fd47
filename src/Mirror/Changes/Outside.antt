-- ===== src/Mirror/Changes/Outside.antt =====
-- bin/fernfs/fs.rs: what `remove` does to the host.
use fernfs.Prelude.{ℕ, ◌≡◌, refl, true, false, if◌then◌else◌}
use fernfs.Io.{Bytes}
use fernfs.Xdr.Nfs3.{NfsResult}
use fernfs.Mirror.Attributes.{Metadata, is_dir}
use fernfs.Mirror.Entry.{FsEntry}
use fernfs.Mirror.Map.{find_entry}
use fernfs.Mirror.Host.{IoResult, Host, Interner, Mirror, ◌>>=◌, is_absolute, push_path}
use fernfs.Mirror.Refresh.{find, sym_to_path}
use fernfs.Mirror.Files.{place_of}
use fernfs.Mirror.Quiet.{
  Leaves, act-Leaves, bind-KeepsHost, on_map-KeepsHost, change_map-KeepsHost, attempt-KeepsHost,
  pure-KeepsHost,
}
use fernfs.Mirror.Quiet.Methods.{refresh_entry-KeepsHost}
use fernfs.Mirror.Changes.{remove_found, remove}

module _ {T H : Type 0} (interner : Interner T) (host : Host H) (stack dirid : ℕ) (name : Bytes)
    (s : Mirror T H) (e : FsEntry) (meta : Metadata) where
  remove_found-Leaves :
      (path : Bytes)
      → Leaves
          ((if is_dir meta.kind then host.remove_dir path else host.remove_file path) s.host).1
          (remove_found interner host stack dirid name e path meta s)
  unfolding remove_found
  remove_found-Leaves path =
      act-Leaves (if is_dir meta.kind then host.remove_dir path else host.remove_file path) _ _ s
        λ u. bind-KeepsHost (on_map-KeepsHost _) λ sym. bind-KeepsHost (change_map-KeepsHost _) λ v.
          bind-KeepsHost (change_map-KeepsHost _) λ w.
            bind-KeepsHost (attempt-KeepsHost (refresh_entry-KeepsHost interner host stack dirid))
              λ x. pure-KeepsHost _

  -- `remove` removes on the host what the directory's path and the name lead to, a directory or
  -- another object as the host says, and changes nothing else there, unless the stack overflows.
  pub remove-Leaves :
      let path = push_path (sym_to_path interner host e.name s.fsmap) name in
      find_entry dirid s.fsmap ≡ NfsResult.ok e
      → host.symlink_metadata path s.host ≡ IoResult.done meta
      → Leaves
          ((if is_dir meta.kind then host.remove_dir path else host.remove_file path) s.host).1
          (remove interner host stack dirid name s)
  unfolding remove place_of find ◌>>=◌
  remove-Leaves found there =
      rw (remove, ◌>>=◌, place_of, ◌>>=◌, find, found, there) (remove_found-Leaves _)

  -- A name that is an absolute path leads out of the mirrored directory: `remove` of such a name in
  -- any directory removes the file of that path on the host.
  pub remove_absolute :
      find_entry dirid s.fsmap ≡ NfsResult.ok e
      → is_absolute name ≡ true
      → host.symlink_metadata name s.host ≡ IoResult.done meta
      → is_dir meta.kind ≡ false
      → Leaves (host.remove_file name s.host).1 (remove interner host stack dirid name s)
  unfolding push_path
  remove_absolute found absolute there file =
      let base = sym_to_path interner host e.name s.fsmap in
      let pushed : push_path base name ≡ name = rw (push_path, absolute) refl in
      let removed = remove-Leaves found (rw pushed there) in rw (pushed, file) at removed
