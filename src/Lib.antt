-- ===== src/Lib.antt =====
-- UNFS2GO: a user-mode server of NFS version 3, in C, that hands the work on files to a backend in Go.
--
-- A call arrives from the RPC runtime at `nfs3_program_3` (unfs3/daemon.c). That decodes the arguments
-- with a routine of unfs3/xdr.c, runs a procedure of unfs3/nfs.c, and encodes its result. A procedure
-- resolves handles with unfs3/fh.c, joins names with `cat_name`, calls the functions that
-- unfs2go_exports.go exports, and fills in attributes with unfs3/attr.c. The types are those of
-- unfs3/nfs.h and gosupport.h.
--
-- Common: names of the libraries, lists, integers, tests and bits.
-- Types: the structs and the constants of unfs3/nfs.h and gosupport.h, a record for each struct, with
--   the members in the order of the header. The name of a routine or a constant is that of the source in
--   lower case. In a result the success arm of the union is the record `resok`; the failure arm lies over
--   it, since the source writes failure results through the success arm, and is read and written through a lens.
-- Wire: the format of each type, from RFC 1813 and RFC 4506, independent of the routines: which values
--   have a format, its bytes, and what decoding stores.
-- Xdr: the routines of unfs3/xdr.c over a stream that encodes or decodes (Xdr/Stream), on top of the
--   primitives of the RPC library, which are the record `Rpc` with the laws `IsRpc` (Xdr/Rpc); Xdr/Memory is
--   an instance. Xdr/Codes says what it is to write and read a format, and Xdr/Laws proves it of each.
--   Chains of entries are lists: the recursion of the C routine runs on a fuel `depth`, which is the
--   longest chain that is handled; READDIR makes chains of at most MAX_ENTRIES, and `depth` is at least that.
-- Backend: the functions of unfs2go_exports.go as a record over a type of states, what lies in memory that the
--   C code reads without having written it, READ's static buffer included, and (Backend/Contract) what the
--   C code relies on.
-- Request: what the procedures see of a call, `get_remote` and `get_socket_type` of unfs3/daemon.c.
-- Handle: unfs3/fh.c, with the bytes of the packed struct on a little-endian host.
-- Attributes: unfs3/attr.c.
-- Nfs: the procedures of unfs3/nfs.c. A procedure takes its arguments, the call, the value that its static
--   result holds and the state of the backend, and returns the result and the state.
-- Daemon: the dispatch of `nfs3_program_3`, the static results as a record, and sequences of calls. The
--   runtime (`svc_getargs`, `svc_sendreply`) is the record `Svc` with the laws `IsSvc`; which replies the
--   transport takes is a part of it.
-- Mount: unfs3/mount.h (Types), the list of mounts of unfs3/mount.c (Mounts), the loop of `remove_mount` over
--   the nodes in memory, for a number of rounds of which the length of the list is enough (Loop), its
--   procedures (Procs), their routines of unfs3/xdr.c (Xdr), and `mountprog_3` of unfs3/daemon.c (Program). `inet_ntoa`, the success of
--   each allocation and `go_accept_mount` are parameters. DUMP and EXPORT send chains of at most `depth`.
-- Tests: a backend in memory, a runtime over streams in memory, and the theorems at concrete calls.
--
-- Numbers are natural numbers with the width of their C type written out where a value can leave it; a
-- `char *` is `none` or the bytes before the final zero. Failures of a routine are `none`.
--
-- Not modelled: freeing of arguments (`svc_freeargs` and XDR_FREE), messages to stderr, the registration
-- of the services, the transports and the select loop of unfs3/daemon.c, all of which are calls of the
-- system; the body of the Go side, which is a parameter here.
pub mod Common
pub mod Types
pub mod Wire
pub mod Xdr
pub mod Backend
pub mod Request
pub mod Handle
pub mod Attributes
pub mod Nfs
pub mod Mount
pub mod Daemon
pub mod Tests
