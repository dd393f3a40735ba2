-- ===== src/Analyzer.antt =====
-- src/core/rma_analyzer.c: the analyzer's routines in one process.
pub mod State
pub mod Monad
pub mod Save
pub mod Thread
pub mod Epoch
pub mod Window
pub mod Bindings
pub mod Invariant
pub mod Run
pub mod Protocol
pub mod Frame
pub mod Barrier
pub mod Tags
pub mod Lifetime
pub mod Notified
pub mod Forgotten
pub mod Sending
pub mod Restart
pub mod Broadcast
pub mod Account
