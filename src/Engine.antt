-- ===== src/Engine.antt =====
-- pkg/server/engine.go: the floor, the sessions and the transactions of the reflector.
pub mod Types
pub mod Ops
pub mod Release
pub mod Transactions
pub mod Invariant
pub mod Media
pub mod Fanouts
pub mod Gaps
pub mod Trace
pub mod FloorMachine
pub mod FloorView
pub mod Timers
pub mod Ends
pub mod Retention
mod Examples
