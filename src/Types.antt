-- ===== src/Types.antt =====
-- unfs3/nfs.h: the constants and the structs of the NFS version 3 protocol.
pub mod Names
pub mod Constants
pub mod Stat
pub mod Zero
pub mod Attr
pub mod Sattr
pub mod Args
pub mod DirArgs
pub mod Res
pub mod FileRes
pub mod LinkRes
pub mod FsRes
pub mod Entries
pub mod DirRes
pub mod ZeroRes
