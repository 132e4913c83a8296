-- ===== src/Wire/PacketType.antt =====
-- pkg/wire/wire.go, the packet type constants. A PacketType is a uint8, so it is a number here: a
-- datagram may carry any byte in this place.
use opusref.Base.{ℕ}

abbrev pub hello : ℕ
hello = 0x01

abbrev pub challenge : ℕ
challenge = 0x02

abbrev pub authenticate : ℕ
authenticate = 0x03

abbrev pub welcome : ℕ
welcome = 0x04

abbrev pub keepalive : ℕ
keepalive = 0x05

abbrev pub disconnect : ℕ
disconnect = 0x06

abbrev pub error : ℕ
error = 0x07

abbrev pub stream_request : ℕ
stream_request = 0x20

abbrev pub stream_grant : ℕ
stream_grant = 0x21

abbrev pub stream_busy : ℕ
stream_busy = 0x22

abbrev pub stream_start : ℕ
stream_start = 0x23

abbrev pub stream_end : ℕ
stream_end = 0x24

abbrev pub stream_revoke : ℕ
stream_revoke = 0x25

abbrev pub audio : ℕ
audio = 0x40

abbrev pub media_data : ℕ
media_data = 0x41
