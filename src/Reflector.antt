-- ===== src/Reflector.antt =====
-- pkg/server/reflector.go: the reflector, in the order of its parts: state, packets, notifications,
-- answers, admission, control, ticker and the handler. The other modules are about these.
pub mod State
pub mod Packets
pub mod Notify
pub mod Answers
pub mod Admission
pub mod Control
pub mod Ticker
pub mod Handle
pub mod Options
pub mod Invariant
pub mod Runs
pub mod Fuel
pub mod Dropped
pub mod Retries
pub mod Kept
pub mod Duplicates
pub mod Delivered
pub mod InVain
pub mod Unanswered
mod Examples
mod RunExamples
mod ReplayExamples
mod GrantExamples
