-- ===== src/Client.antt =====
-- pkg/client/client.go: the queue client.
pub mod Types
pub mod Queue
pub mod Sending
pub mod Numbering
pub mod Trace
pub mod Order
pub mod Receiving
pub mod Processing
pub mod Requests
pub mod Replies
pub mod Asking
pub mod Connecting
pub mod Sender
pub mod Granted
pub mod Once
pub mod Packets
pub mod Handshake
mod Examples
mod UdpExamples
mod RequestExamples
