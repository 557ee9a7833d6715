-- ===== src/Nfs.antt =====
-- unfs3/nfs.c: the NFS procedures.
pub mod Laws
pub mod Name
pub mod Inode
pub mod Data
pub mod Tree
pub mod Info
pub mod Readdir
