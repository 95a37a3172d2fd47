-- ===== src/Tests/Programs.antt =====
-- The portmapper and the mount program.
use fernfs.Prelude.{ℕ, ◌≡◌, ◌⊎◌, ◌↔◌, refl, some, List, [], ◌∷◌, ◌++◌}
use fernfs.Prelude.{arith}
use fernfs.Io.{ok, ◌>>=◌, pure}
use fernfs.Xdr.Word.{read_u32}
use fernfs.Xdr.Opaque.{read_opaque, read_usize, read_exact, read_padding, padding_len}
use fernfs.Xdr.Portmap.{Mapping}
use fernfs.Xdr.Rpc.{CallBody}
use fernfs.Portmap.Keys.{key_eq}
use fernfs.Portmap.{PortmapTable, key_of}
use fernfs.Vfs.Paths.{slash}
use fernfs.Mount.{export_subpath, mountproc3_mnt}
use fernfs.Mount.Laws.{export_subpath_exact}
use fernfs.Mount.Replies.{Mounts, mountproc3_mnt_lem}
use fernfs.Tests.Demo.{demo_fs, client, body_of}

abbrev nfs_tcp : Mapping
nfs_tcp = record { prog = 100003; vers = 3; prot = 6; port = 2049 }

abbrev mapping_bytes : List ℕ
mapping_bytes = 0 ∷ 1 ∷ 134 ∷ 163 ∷ 0 ∷ 0 ∷ 0 ∷ 3 ∷ 0 ∷ 0 ∷ 0 ∷ 6 ∷ 0 ∷ 0 ∷ 8 ∷ 1 ∷ []

abbrev table : PortmapTable
table = (key_of nfs_tcp, 111) ∷ []

abbrev getport : CallBody
getport = record (body_of 2 100000 3) { vers = 2 }

-- `/e` is exported, and `/e/a` is asked for.
abbrev asked : List ℕ
asked = 47 ∷ 101 ∷ 47 ∷ 97 ∷ []

abbrev exported : List ℕ
exported = 47 ∷ 101 ∷ []

abbrev below_it : List ℕ
below_it = 97 ∷ []

export_subpath_exact_example :
    (export_subpath asked exported ≡ some below_it)
    ↔ (((asked ≡ exported) × (below_it ≡ [])) ⊎ (asked ≡ exported ++ slash ∷ below_it))
export_subpath_exact_example = export_subpath_exact asked exported below_it refl

abbrev mount_input : List ℕ
mount_input = 0 ∷ 0 ∷ 0 ∷ 4 ∷ 47 ∷ 101 ∷ 47 ∷ 97 ∷ []

reads_path : read_opaque mount_input ≡ ok (47 ∷ 101 ∷ 47 ∷ 97 ∷ [], [])
unfolding read_opaque read_usize read_u32 read_exact read_padding padding_len ◌>>=◌ pure
reads_path = refl

mountproc3_mnt_lem_example :
    Mounts demo_fs client.exports 7
      (47 ∷ 101 ∷ 47 ∷ 97 ∷ [])
      0
      (mountproc3_mnt demo_fs client.exports 7 mount_input 0)
mountproc3_mnt_lem_example =
    mountproc3_mnt_lem demo_fs client.exports 7 mount_input (47 ∷ 101 ∷ 47 ∷ 97 ∷ []) [] 0
      (omega arith) reads_path
