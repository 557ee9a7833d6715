-- ===== src/Xdr/Laws.antt =====
-- The routines of unfs3/xdr.c against the wire format of their types.
pub mod Basic
pub mod Chain
pub mod Attr
pub mod Sattr
pub mod Args
pub mod DirArgs
pub mod Res
pub mod FileRes
pub mod LinkRes
pub mod FsRes
pub mod Entries
pub mod DirRes
