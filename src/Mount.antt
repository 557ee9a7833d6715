-- ===== src/Mount.antt =====
-- unfs3/mount.c and unfs3/mount.h: the mount protocol.
pub mod Types
pub mod Wire
pub mod Xdr
pub mod Mounts
pub mod Loop
pub mod Procs
pub mod Program
pub mod Laws
