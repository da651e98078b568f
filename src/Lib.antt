-- ===== src/Lib.antt =====
-- arcticwolf is an NFSv3 server in user space. It listens on one TCP port for three RPC programs:
-- the portmapper (100000), MOUNT (100005) and NFS (100003). This library models what the server
-- does with the bytes of a connection, down to the calls that it makes of the operating system.
--
-- A connection is read as record-marked fragments (Rpc/Server, src/rpc/server.rs). The fragments
-- up to the last one make a message. Its header is unpacked (Rpc/Message,
-- src/protocol/v3/rpc.rs), its arguments are found behind the credential and the verifier, and
-- the program number chooses the handler: Portmap/Handlers (src/portmap,
-- src/protocol/v3/portmap.rs), Mount (src/mount, src/protocol/v3/mount.rs) or Nfs/Dispatch
-- (src/nfs/dispatcher.rs). The response goes out under a record mark. An error is answered as an
-- unavailable program. The accept loop and the tasks that it spawns are a step relation
-- (Rpc/Server/Accept), started by Main (`main` of src/main.rs).
--
-- The portmapper's state is Portmap/Registry (src/portmap/registry.rs and `register_services` of
-- src/main.rs), an association list from services to ports. The NFS procedures are Nfs/Query
-- (GETATTR, LOOKUP, ACCESS, READLINK, READ, FSSTAT, FSINFO, PATHCONF), Nfs/Change (SETATTR,
-- WRITE, CREATE, COMMIT), Nfs/Names (MKDIR, SYMLINK, MKNOD, REMOVE, RMDIR, RENAME, LINK) and
-- Nfs/Listing (READDIR, READDIRPLUS), each a function `handle_*` as in src/nfs. Nfs/Status holds
-- the choice of a status from an error, and Nfs/Wire and Nfs/Codec the parts of replies and
-- `NfsMessage` (src/protocol/v3/nfs.rs). The procedures ask a backend, the record Fsal/Filesystem
-- (`trait Filesystem` of src/fsal/mod.rs, with its data in Fsal/Types).
--
-- The backend is Fsal/Local with Fsal/Local/Attributes, Operations and Backend
-- (src/fsal/local/mod.rs): each method is a function of a state that holds the export root, the
-- handle table and the disk. The handle table is Fsal/Handle (src/fsal/handle.rs): two
-- association lists, compared by components of paths (Fsal/FilePath, for `std::path`), and the
-- counter. `create_handle` is put together from its critical sections `find_handle`, `take_id`
-- and `store_mappings`; the tasks that run them interleaved are the step relation of
-- Fsal/Handle/Threads.
--
-- A method of an object is a function from its state to a new state and a `Result` (Base/Errors);
-- `?` is the bind of that monad. An error keeps what the program reads of it: the outermost
-- message, the whole chain, and the kind of an `io::Error`. Numbers are natural numbers, with the
-- casts and the wrap-around of the machine's integers written out.
--
-- The build script is Build (build.rs): it runs xdrgen on each specification and rewrites the
-- code that it makes of nfs.x.
--
-- Parameters stand for the code that is not in the repository. `Xdr` (Protocol/Xdr) has the
-- functions of xdr-codec and of the code that xdrgen makes from xdr/v3, whose types are
-- Protocol/Rpc, Protocol/Services and Protocol/Nfs; its laws are `IsXdr`, the layout that RFC
-- 4506 and RFC 5531 give to words, Booleans and a reply header, and `IsSized` (Nfs/Layout/Parts),
-- the sizes that RFC 4506 and RFC 1813 give to what is packed. `Os` (Fsal/Os) has the calls of
-- `std::fs` and libc; its law `IsDisk` (Fsal/Local/Contents), for READ after WRITE and after
-- SYMLINK alone (Fsal/Local/Contents and Escape, Nfs/Contents), is what POSIX says of the
-- contents of a regular file and the position in an open file; its law `IsFrugal`
-- (Fsal/Local/Bounds) is that a read gives no more than it was asked for, and that the target of
-- a link has fewer than 2 ^ 32 bytes; its law `FollowsLinks` (Fsal/Local/Escape), beside
-- `IsDisk`, is that a read at a new symbolic link is one at its target. `Tools` (Build) has
-- xdrgen and the output directory, with no law. `path_hash` is the value of `DefaultHasher`, with
-- no law.
--
-- The loop of a connection runs on fuel, one more than the number of bytes that arrive; each
-- round reads at least the four bytes of a header. The client of Fsal/Local/Paging, who reads a
-- directory page by page, runs on fuel too, one more than the number of entries. All other
-- recursion is structural.
--
-- Not modelled: two messages handled at the same time, so the tasks of the server take turns
-- message by message, and only the handle table is taken apart at its locks; a failing write to
-- the socket; logging and what `main` prints; the generated code; what build.rs prints; the
-- functions of `NfsMessage` that no handler calls; the settings of S3 and Ceph. An addition that
-- overflows stops a debug build of the program; here it wraps around, as in a release build.
--
-- The theorems stand beside what they are about: Fsal/Handle/Invariant, Laws, Removal, History,
-- Growth and Threads, Fsal/Local/Containment, Paging, Unchecked, Escape, Start, Contents, Naming,
-- Bounds and Kept, Build/Replace and Enums, Portmap/Registry/Laws, Portmap/Handlers/Replies,
-- Nfs/Rules, Stale, Modes, Access, Contents, Replies, Layout and Kept, and Rpc/Server/Record,
-- Header, Stream, Termination, Leftover, Answers, Kept, Lasting, Reuse and Results. Base/Kept and
-- Base/Returns have the rules by which what a method keeps, and what it returns, is read off its
-- code. Nfs/Layout is the reader of the results of RFC 1813, which shares nothing with the code
-- that packs them but the decoding of a word. Tests holds the theorems at concrete data.
pub mod Base
pub mod Fsal
pub mod Protocol
pub mod Portmap
pub mod Mount
pub mod Nfs
pub mod Rpc
pub mod Main
pub mod Build
mod Tests
