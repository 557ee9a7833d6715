-- ===== src/Daemon/Laws.antt =====
-- What the dispatch of unfs3/daemon.c guarantees.
pub mod Routines
pub mod Valid
pub mod History
pub mod Program
pub mod RoundTrip
