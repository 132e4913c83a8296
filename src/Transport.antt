-- ===== src/Transport.antt =====
-- internal/transport/udp.go: the queues between the socket and the reflector. An address is its
-- string. A channel is the list of what stands in it, the oldest first. The socket's own errors are
-- left out.
pub mod Accounts
pub mod Draining
mod Examples
use opusref.Base.{
  ℕ, ◌+◌, ◌%◌, List, [], ◌∷◌, ◌++◌, Bool, true, false, not, ◌||◌, ltb, if◌then◌else◌, length,
  Option, none, some, lookup, insert, ℕ-Key, ℤ, is_positive, capacity, u64_mod,
}

pub record Datagram : Type 0 where
  pub address : List ℕ
  pub contents : List ℕ

-- A MediaKind is a uint8.
abbrev pub media_audio : ℕ
media_audio = 0

abbrev pub media_data : ℕ
media_data = 1

pub record MediaBatch : Type 0 where
  pub contents : List ℕ
  pub recipients : List (List ℕ)
  pub kind : ℕ

pub record MediaDrops : Type 0 where
  pub frames : ℕ
  pub recipients : ℕ

pub record Udp : Type 0 where
  pub inbound : List Datagram
  pub control : List Datagram
  pub media : List MediaBatch
  pub inbound_capacity : ℕ
  pub control_capacity : ℕ
  pub media_capacity : ℕ
  pub inbound_drops : ℕ
  pub media_drops : ℕ
  pub media_drop_recipients : ℕ
  pub control_failures : ℕ
  pub media_enabled : Bool

-- NewUDP; `none` is its error.
unfoldable pub new_udp : ℤ → ℤ → ℤ → Option Udp
new_udp inbound control media =
    if not (is_positive inbound) || not (is_positive control) || not (is_positive media)
    then none
    else some (record {
      inbound = [];
      control = [];
      media = [];
      inbound_capacity = capacity inbound;
      control_capacity = capacity control;
      media_capacity = capacity media;
      inbound_drops = 0;
      media_drops = 0;
      media_drop_recipients = 0;
      control_failures = 0;
      media_enabled = true;
    })

unfoldable pub enqueue_control : Udp → Datagram → Udp × Bool
enqueue_control u d =
    if ltb (length u.control) u.control_capacity
    then (record u { control = u.control ++ (d ∷ []) }, true)
    else (record u { control_failures = (u.control_failures + 1) % u64_mod }, false)

-- A batch that EnqueueMedia counts as dropped.
abbrev pub count_drop : Udp → MediaBatch → Udp
count_drop u b = record u {
  media_drops = (u.media_drops + 1) % u64_mod;
  media_drop_recipients = (u.media_drop_recipients + length b.recipients) % u64_mod;
}

unfoldable pub enqueue_media : Udp → MediaBatch → Udp × Bool
enqueue_media u b =
    if not u.media_enabled
    then (count_drop u b, false)
    else if ltb (length u.media) u.media_capacity
    then (record u { media = u.media ++ (b ∷ []) }, true)
    else (count_drop u b, false)

-- `drops[kind]`, with the zero value of a kind that has no entry.
unfoldable pub drops_of : ℕ → List (ℕ × MediaDrops) → MediaDrops
drops_of kind drops = elim (lookup kind drops) [
  | none ↦ record { frames = 0; recipients = 0 }
  | some count ↦ count
]

-- The loop of DisableMedia over what stands in the queue.
unfoldable pub count_batches : List MediaBatch → List (ℕ × MediaDrops) → List (ℕ × MediaDrops)
count_batches [] drops = drops
count_batches (batch ∷ rest) drops =
    let count = drops_of batch.kind drops in
    count_batches rest (
      insert batch.kind
        (record {
          frames = (count.frames + 1) % u64_mod;
          recipients = (count.recipients + length batch.recipients) % u64_mod;
        })
        drops)

-- DisableMedia, in one step: a batch that Write takes after the Store and before the loop comes to the
-- same as one that it has taken before, and EnqueueMedia waits for the mutex.
unfoldable pub disable_media : Udp → Udp × List (ℕ × MediaDrops)
disable_media u = (record u { media_enabled = false; media = [] }, count_batches u.media [])

-- Read: a datagram that has come in.
unfoldable pub receive : Udp → Datagram → Udp
receive u d =
    if ltb (length u.inbound) u.inbound_capacity
    then record u { inbound = u.inbound ++ (d ∷ []) }
    else record u { inbound_drops = (u.inbound_drops + 1) % u64_mod }

-- Write: takes a datagram off the control queue, where one stands in it.
unfoldable pub take_control : Udp → Udp × Option Datagram
take_control u = elim u.control [
  | [] ↦ (u, none)
  | d ∷ rest ↦ (record u { control = rest }, some d)
]

unfoldable pub take_media : Udp → Udp × Option MediaBatch
take_media u = elim u.media [ [] ↦ (u, none) | b ∷ rest ↦ (record u { media = rest }, some b) ]

-- What Write has written to the socket: a control datagram, or a copy of a media batch.
pub data Written : Type 0 where
  control_written copy_written : Datagram → Written

-- Where Write stands: before its first select, before its second, before the test of mediaEnabled
-- for the next recipient of a batch, behind that test, and behind the select that follows it.
pub data Writer : Type 0 where
  polls chooses : Writer
  sends : (contents : List ℕ) → (recipients : List (List ℕ)) → Writer
  cleared copies : (contents address : List ℕ) → (recipients : List (List ℕ)) → Writer

-- A step of Write, between two of which other goroutines may run. It takes a control datagram and
-- writes it in one step. Where both queues have something in the second select, `prefers_control`
-- says which Go takes; where neither has, Write waits.
unfoldable pub write_step : Bool → Udp → Writer → Udp × Writer × List Written
write_step prefers_control u polls = elim (take_control u).1 [
  | none ↦ (u, chooses, [])
  | some d ↦ ((take_control u).0, polls, control_written d ∷ [])
]
write_step prefers_control u chooses = elim (take_control u).1 [
  | none ↦ elim (take_media u).1 [
    | none ↦ (u, chooses, [])
    | some b ↦ ((take_media u).0, sends b.contents b.recipients, [])
  ]
  | some d ↦ elim (take_media u).1 [
    | none ↦ ((take_control u).0, polls, control_written d ∷ [])
    | some b ↦
        if prefers_control
        then ((take_control u).0, polls, control_written d ∷ [])
        else ((take_media u).0, sends b.contents b.recipients, [])
  ]
]
write_step prefers_control u (sends contents []) = (u, polls, [])
write_step prefers_control u (sends contents (address ∷ rest)) =
    if not u.media_enabled then (u, polls, []) else (u, cleared contents address rest, [])
write_step prefers_control u (cleared contents address rest) = elim (take_control u).1 [
  | none ↦ (u, copies contents address rest, [])
  | some d ↦ ((take_control u).0, copies contents address rest, control_written d ∷ [])
]
write_step prefers_control u (copies contents address rest) =
    (u, sends contents rest, copy_written (record { address = address; contents = contents }) ∷ [])
