-- ===== src/Daemon.antt =====
-- unfs3/daemon.c: the dispatch of calls.
pub mod Proc
pub mod Routines
pub mod Local
pub mod Statics
pub mod Format
pub mod Program
pub mod Laws
