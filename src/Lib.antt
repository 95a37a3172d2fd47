-- ===== src/Lib.antt =====
-- fernfs, an NFSv3 server in Rust: its wire formats, its RPC layer, the portmap and mount programs,
-- and the procedures of NFS version 3, modelled from src/.
--
-- A connection's bytes are cut into records (Rpc.Wire), which a queue runs one after the other
-- (Rpc.Queue). For each record the dispatch (Rpc.Dispatch) reads the call, asks the transaction
-- tracker (Rpc.Tracker) whether it is new, runs the handler of its program (Portmap, Mount, or Nfs,
-- of which the dispatch has an interface only) over the state that all connections share, and records the reply,
-- which goes back through the record marking. All messages are XDR (Xdr), over the fallible reads
-- and writes of Io. The procedures of NFS (Nfs) call the methods of a file system, a record of
-- functions over a state of its own (Vfs), which also has the handles, permissions and paths. The
-- program mirrors a directory of the host (Mirror): it implements that interface over a map between
-- identifiers, paths and inodes, which it brings up to date with the host as it goes. A demo
-- implements it in memory (Demo).
--
--   Io, Xdr          src/protocol/xdr/mod.rs and utils.rs: readers over the bytes left, writers that
--                    answer what they write. `deserialize` of a type T is read_T, `serialize` write_T.
--   Xdr.Rpc          src/protocol/xdr/rpc.rs
--   Xdr.Nfs3         src/protocol/xdr/nfs3/mod.rs: status codes and attributes; Args has the arguments
--                    of the procedures, with those of file.rs and dir.rs; Dir readdir and
--                    readdirplus; Fs src/protocol/xdr/nfs3/fs.rs
--   Xdr.Portmap      src/protocol/xdr/portmap.rs
--   Rpc.Tracker      src/protocol/rpc/transaction_tracker.rs, a method of the same name for each
--   Rpc.Wire         src/protocol/rpc/wire.rs: read_fragment, write_fragment, SocketMessageHandler,
--                    and the loop around its `read` in src/tcp.rs
--   Rpc.Queue        src/protocol/rpc/command_queue.rs, and the task in wire.rs that takes its results
--   Rpc.Dispatch     src/protocol/rpc/wire.rs: handle_rpc and process_rpc_command; context.rs
--   Vfs.Handles      src/vfs.rs: id_to_fh, fh_to_id, server_id
--   Vfs.Paths        src/vfs.rs: path_to_id
--   Vfs.Listing      src/vfs.rs: readdir_index, readdir_simple_index
--   Vfs.Defaults     src/vfs.rs: the other default methods, check_access, readdir_simple, fsinfo and
--                    fsstat, and the values of FSINFO and PATHCONF
--   Vfs.Permissions  src/vfs/permissions.rs
--   Portmap          src/protocol/nfs/portmap/
--   Mount            src/protocol/nfs/mount/ and src/protocol/xdr/mount.rs
--   Nfs              src/protocol/nfs/v3/: Steps what the procedures share, which the source repeats in
--                    each; Look null, getattr, lookup, access, readlink and read; Change setattr,
--                    write and commit; Create create, mkdir, symlink and mknod; Remove remove,
--                    rmdir, rename and link; Listing readdir and readdirplus; Stat fsinfo, fsstat
--                    and pathconf; Program handle_nfs
--   Mirror           src/bin/fernfs/: Entry fs_entry.rs; Map and Tree the changes of fs_map.rs to its
--                    maps, Refresh its comparison with the host; Files, Lookup, Setattr, Objects,
--                    Create, Special and Changes the methods of MirrorFS in fs.rs; PathBuf the
--                    equality of paths there; Attributes, and Setattr, src/fs_util.rs; Host what the
--                    mirror asks of the operating system; Quiet which methods leave the host alone
--   Demo             examples/demo_fs/: Entry fs_entry.rs, fs_contents.rs and the state; Look the methods
--                    of fs.rs that only look; Change those that write, set attributes, remove and
--                    rename; Create those that make entries; Sound what its state always satisfies
--   Tests            the theorems at concrete inputs
--
-- A `Vec<u8>` is a list of numbers below 256; words are natural numbers with their range as a
-- hypothesis, and casts that cut are written out. Times are nanoseconds and arguments. A HashMap
-- is an association list with unique keys. The two loops over bytes run on fuel: the length of the
-- message for write_fragment, one more than the length of the stream for the reading loop; each
-- round takes a byte at least.
--
-- A lock makes each method of the tracker and each portmap procedure one step, and the tracker is
-- proved for every interleaving of its methods. A call's handler is one step of the shared
-- services: what other connections do to them between two awaits of one handler is not modelled.
-- The dispatch takes the handler of the NFS program as an argument, so what is shown of it holds for
-- any, handle_nfs among them. Not modelled: sockets and tasks of tokio, logging, f32, f64 and [T; N]
-- of XDR. A default method may be replaced, so the procedures call what the file system has.
--
-- The mirror's methods run over its map and the host. The calls of the operating system and the
-- table that numbers names are parameters, records of functions. A method answers `none` where the
-- code panics, and where the recursion of remove_path_tree overflows the stack, whose depth is an
-- argument: the source has no bound. A method is one step, though check_access, read, readlink and
-- write let go of the lock around their I/O. What nothing calls, and the code for hosts other than
-- Unix, is left out.
--
-- The demo keeps the bytes of a file behind a pointer that hard links share: here a cell, whose number
-- an entry has. A method answers `none` where the code panics, and then the lock is poisoned. The
-- clock is an argument. Sums of offsets wrap, as in a release build.
pub mod Prelude
pub mod Io
pub mod Xdr
pub mod Rpc
pub mod Vfs
pub mod Portmap
pub mod Mount
pub mod Nfs
pub mod Mirror
pub mod Demo
pub mod Tests
