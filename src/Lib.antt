-- ===== src/Lib.antt =====
-- OpusRef: a UDP reflector for half-duplex voice. Clients are admitted to sessions, ask for the
-- floor, and what the owner of the floor sends is fanned out to the other ready sessions.
--
-- The program's parts, in the order in which a datagram meets them, and their models:
--   Transport   internal/transport/udp.go: the bounded queues between the socket and the reflector,
--               their drop counters, DisableMedia (`disable_media`), the steps of Write.
--   Wire        pkg/wire: constants and types (wire.go: Wire/PacketType, TlvType, Types), the checks
--               on values (Wire/Tlv, Utf8), Encode and Decode (codec.go: Wire/Codec), the packet
--               matrix and Validate (validate.go: Wire/Rules, Validate), Find, Callsign and their
--               kin (helpers.go: Wire/Helpers).
--   Engine      pkg/server/engine.go: sessions, floor, media fan-out, timers and retained results.
--               Engine/Ops, Release and Transactions have a function for each method, named as it
--               is (End is `end_floor`, releaseLocked `release_locked`); each takes the reading of
--               the clock that the method makes and returns the engine that it leaves.
--   Reflector   pkg/server/reflector.go: its state (Reflector/State), options and NewReflector
--               (Options), the packets that it makes (Packets), notifications and slow clients
--               (Notify), transact (Answers), hello and authenticate (Admission), control, ack and
--               media (Control), tick (Ticker), handle, handleDrain and drain, cut at its waits
--               (Handle). A method is a function of its own name in snake case. Reflector/Runs is
--               Run: the rounds of its loop and of drain in any order, between which the writer
--               takes from the queues. Reflector/Invariant goes through the methods for what every
--               one of them keeps; the other modules are named for what they prove.
--   Client      pkg/client/client.go: the QueueClient. Client/Queue and Sending have its methods,
--               cut where they call the sender or wait; Client/Trace runs the pieces in any order.
--               pkg/client/udp.go: what the client receives (Client/Receiving: the state, its queue,
--               the ring of ended streams, `ack`; Client/Processing: a round of processLoop and
--               expireRemote), request (Client/Requests), exchange and handshake (Client/Connecting),
--               the packets that it makes (Client/Packets), and Send, RequestFloor, EndFloor and
--               Disconnect (Client/Sender: `sender_send` and so on).
--   Config      internal/config/config.go: the shared key, from the environment or a file.
--   Record      internal/record/record.go: diagnostic records, Read and Write.
--   Base        what the other modules share: tests on numbers, lists and slices, big-endian words,
--               Go's (value, error) pairs, maps as association lists, ints of either sign.
--
-- How they interact: the reflector decodes and validates what the transport has received (Wire),
-- calls the engine, and puts its encoded answers and notifications into the transport's queues;
-- Reflector/Delivered sets its packets against the checks at the other end. Client/Handshake sets
-- the packets of the client's handshake against hello and authenticate of the reflector,
-- Client/Numbering the client's numbering of frames against the engine's test of sequence numbers.
--
-- Conventions. A byte is a number below 256, a string or a slice of bytes a list of them. An
-- integer of w bits is a number below 2 ^ w: additions wrap with % 2 ^ w where the code's do,
-- and the ranges are hypotheses (`PacketFits`, `RecordFits`). A time is a number of nanoseconds
-- and the zero time 0. A mutex makes the calls under it atomic, so that an interleaving of
-- goroutines is a sequence of calls. The order of a Go map is the order of its association list:
-- statements about every list cover every order. Errors are data; their texts are left out.
--
-- Fuel: Decode's loop over the extensions has the number of the datagram's bytes; each round takes
-- four of them at least, so that they are enough. The loops that draw a transaction or a session ID
-- have the number of random bytes that are left, and each round takes eight. controlOverload and
-- notifyEnd call each other; the fuel is how often the floor may be released meanwhile, and once is
-- enough, since nobody holds it then. Every other loop is structural.
--
-- Parameters: strings.ToUpper on strings that are not ASCII is `unicode_upper`, a function that
-- the callsign lemmas take whatever it is; the environment and the file system of SharedKey are
-- functions, and so is what happens in each attempt of the client's request and exchange. What a
-- call of the client's sender returns is an argument of the step behind it. The reflector's
-- `Library` is strings.ToUpper and HMAC-SHA-256, which the client's packets take too; its
-- reader of random bytes is the list of those that are left, and each call of a handler makes one
-- reading of the clock. A transaction key is a record in place of the string that the code formats.
--
-- Not modelled: sockets, goroutine scheduling, files and environment, YAML, JSON and HTTP (I/O and
-- libraries); the metric sinks, the events and the snapshots of the reflector, which feed nothing
-- back; NewUDP and the goroutines readLoop and keepalive of pkg/client/udp.go, and how long its
-- waits are; config.Load; pkg/monitor; cmd.
mod Base
pub mod Wire
pub mod Engine
pub mod Record
pub mod Client
pub mod Transport
pub mod Reflector
pub mod Config
