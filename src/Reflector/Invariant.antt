-- ===== src/Reflector/Invariant.antt =====
-- pkg/server/reflector.go: what holds of the reflector's state between two calls, and that every
-- call keeps it. Tables and Replies say what it is; the other modules go through the methods.
pub mod Tables
pub mod Notified
pub mod Sessions
pub mod Requests
pub mod Admitted
pub mod Replies
pub mod Transact
pub mod Handled
pub mod Ticked
