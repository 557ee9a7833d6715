-- ===== src/Wire.antt =====
-- The wire format of the protocol: an independent description, from RFC 4506 and RFC 1813.
pub mod Basic
pub mod Chain
pub mod Attr
pub mod Sattr
pub mod Args
pub mod DirArgs
pub mod Res
pub mod FileRes
pub mod LinkRes
pub mod FsRes
pub mod Entries
pub mod DirRes
