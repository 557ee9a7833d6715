-- ===== src/Nfs/Laws.antt =====
-- What the NFS procedures guarantee.
pub mod Valid
pub mod ValidTree
pub mod ValidData
pub mod ValidFs
pub mod ValidNames
pub mod Name
pub mod Outcome
pub mod Looked
pub mod Lookup
pub mod Dir
pub mod Inode
pub mod Rejected
pub mod Transfer
