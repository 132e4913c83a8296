-- ===== src/Transport/Examples.antt =====
-- The transport's theorems on a queue with two batches and a control datagram.
use opusref.Base.{false, ◌≤◌, refl, length, ℕ, ◌≡◌, List, [], ◌∷◌, ◌++◌, ◌%◌, true, u64_mod}
use opusref.Transport.{
  Datagram, media_audio, media_data, MediaBatch, Udp, drops_of, disable_media, Writer, cleared,
  write_step, take_control, take_media, enqueue_control, enqueue_media,
}
use opusref.Transport.Accounts.{frames_of, recipients_of, disable_media-drops_of}
use opusref.Transport.Draining.{
  Call, control_offered, media_offered, writes, Running, step, run, written, all_accepted,
  all_controls, all_copies, copies_in, promised, run-disable_media,
}

abbrev batch : ℕ → MediaBatch
batch kind = record { contents = 7 ∷ []; recipients = (1 ∷ []) ∷ (2 ∷ []) ∷ []; kind = kind }

abbrev answer : Datagram
answer = record { address = 3 ∷ []; contents = 9 ∷ [] }

abbrev busy : Udp
busy = record {
  inbound = [];
  control = answer ∷ [];
  media = batch media_audio ∷ batch media_data ∷ [];
  inbound_capacity = 4;
  control_capacity = 2;
  media_capacity = 2;
  inbound_drops = 0;
  media_drops = 0;
  media_drop_recipients = 0;
  control_failures = 0;
  media_enabled = true;
}

disable_media-drops_of_example :
    ((drops_of media_audio (disable_media busy).1).frames % u64_mod
      ≡ frames_of media_audio busy.media % u64_mod)
    × ((drops_of media_audio (disable_media busy).1).recipients % u64_mod
        ≡ recipients_of media_audio busy.media % u64_mod)
    × ((disable_media busy).0.media ≡ [])
disable_media-drops_of_example = disable_media-drops_of busy media_audio

-- Write has passed its test for the address 1 of a batch when DisableMedia is called.
abbrev in_flight : Writer
in_flight = cleared (7 ∷ []) (1 ∷ []) ((2 ∷ []) ∷ [])

abbrev calls : List Call
calls =
    writes true
    ∷ control_offered answer
    ∷ media_offered (batch media_audio)
    ∷ writes true
    ∷ writes true
    ∷ writes false
    ∷ []

abbrev disabled : Running
disabled = record { udp = (disable_media busy).0; writer = in_flight }

written_after : all_copies disabled calls ≡ record { address = 1 ∷ []; contents = 7 ∷ [] } ∷ []
unfolding all_copies step written copies_in disable_media write_step take_control take_media
    enqueue_control enqueue_media
written_after = refl

run-disable_media_example :
    (busy.control ++ all_accepted disabled calls
      ≡ all_controls disabled calls ++ (run disabled calls).udp.control)
    × (promised in_flight ≡ all_copies disabled calls ++ promised (run disabled calls).writer)
    × (length (all_copies disabled calls) ≤ 1)
run-disable_media_example = run-disable_media busy in_flight calls
