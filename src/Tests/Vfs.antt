-- ===== src/Tests/Vfs.antt =====
-- Handles, permissions and paths.
use fernfs.Prelude.{◌≡◌, refl, [], ◌∷◌, arith}
use fernfs.Xdr.Nfs3.{NfsResult}
use fernfs.Xdr.Rpc.{AuthUnix}
use fernfs.Vfs.Handles.{id_to_fh, fh_to_id, from_le_bytes, id_to_fh-fh_to_id}

accepted :
    fh_to_id 5 (5 ∷ 0 ∷ 0 ∷ 0 ∷ 0 ∷ 0 ∷ 0 ∷ 0 ∷ 44 ∷ 1 ∷ 0 ∷ 0 ∷ 0 ∷ 0 ∷ 0 ∷ 0 ∷ [])
    ≡ NfsResult.ok 300
unfolding fh_to_id from_le_bytes
accepted = refl

id_to_fh-fh_to_id_example :
    5 ∷ 0 ∷ 0 ∷ 0 ∷ 0 ∷ 0 ∷ 0 ∷ 0 ∷ 44 ∷ 1 ∷ 0 ∷ 0 ∷ 0 ∷ 0 ∷ 0 ∷ 0 ∷ [] ≡ id_to_fh 5 300
id_to_fh-fh_to_id_example =
    id_to_fh-fh_to_id 5 300 (5 ∷ 0 ∷ 0 ∷ 0 ∷ 0 ∷ 0 ∷ 0 ∷ 0 ∷ 44 ∷ 1 ∷ 0 ∷ 0 ∷ 0 ∷ 0 ∷ 0 ∷ 0 ∷ [])
      (omega arith) accepted

abbrev owner : AuthUnix
owner = record { stamp = 0; machinename = []; uid = 1000; gid = 7; gids = [] }

abbrev root : AuthUnix
root = record { stamp = 0; machinename = []; uid = 0; gid = 0; gids = [] }
