-- ===== src/Xdr.antt =====
-- unfs3/xdr.c: the XDR routines. A routine is a filter: it takes the stream and the object, and
-- returns both, or `none` where the C routine returns FALSE.
pub mod Stream
pub mod Codes
pub mod Rpc
pub mod Chain
pub mod Basic
pub mod Attr
pub mod Sattr
pub mod Args
pub mod DirArgs
pub mod Res
pub mod FileRes
pub mod LinkRes
pub mod FsRes
pub mod Entries
pub mod DirRes
pub mod Laws
pub mod Memory
