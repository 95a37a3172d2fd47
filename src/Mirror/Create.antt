-- ===== src/Mirror/Create.antt =====
-- bin/fernfs/fs.rs: the methods of MirrorFS that create an object.
use fernfs.Prelude.{ℕ, none, some, list_eq}
use fernfs.Io.{Bytes}
use fernfs.Xdr.Nfs3.{nfs3err_notsupp, Fattr, Sattr}
use fernfs.Mirror.Attributes.{metadata_to_fattr3}
use fernfs.Mirror.Entry.{FsEntry}
use fernfs.Mirror.Host.{Host, Interner, M, pure, throw, ◌>>=◌, ◌>>◌}
use fernfs.Mirror.Refresh.{refresh_entry}
use fernfs.Mirror.Files.{place_of}
use fernfs.Mirror.Objects.{CreateFsObject, make_object, enter_child, keep_verifier}

module _ {T H : Type 0} (interner : Interner T) (host : Host H) (stack : ℕ) where
  unfoldable pub finish_object : ℕ → Bytes → FsEntry → Bytes → CreateFsObject → M T H (ℕ × Fattr)
  finish_object dirid name e path object = do
    r ← refresh_entry interner host stack dirid
    (id, meta) ← enter_child interner host dirid name e path
    keep_verifier id object
    pure (id, metadata_to_fattr3 id meta)

  unfoldable pub create_fs_object : ℕ → Bytes → CreateFsObject → M T H (ℕ × Fattr)
  create_fs_object dirid name object = do
    (e, path) ← place_of interner host dirid name
    made ← make_object interner host dirid name path object
    elim made [ some existing ↦ pure existing | none ↦ finish_object dirid name e path object ]

  unfoldable pub create : ℕ → Bytes → Sattr → M T H (ℕ × Fattr)
  create dirid name attrs = create_fs_object dirid name (CreateFsObject.file attrs)

  -- The verifier could not be kept in stable storage.
  unfoldable pub create_exclusive : ℕ → Bytes → Bytes → M T H ℕ
  create_exclusive dirid name verifier = throw nfs3err_notsupp

  unfoldable pub mkdir : ℕ → Bytes → M T H (ℕ × Fattr)
  mkdir dirid name = create_fs_object dirid name CreateFsObject.directory

  unfoldable pub symlink : ℕ → Bytes → Bytes → Sattr → M T H (ℕ × Fattr)
  symlink dirid name target attrs =
      create_fs_object dirid name (CreateFsObject.symlink attrs target)
