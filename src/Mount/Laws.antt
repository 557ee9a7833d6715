-- ===== src/Mount/Laws.antt =====
-- What the mount protocol guarantees.
pub mod Mounts
pub mod Without
pub mod Linked
pub mod Loop
pub mod Nodes
pub mod Mnt
pub mod Runs
pub mod Program
pub mod Reachable
pub mod Xdr
