-- ===== src/Engine/Examples.antt =====
-- The engine's theorems on short histories: two ready sessions, of which one holds the floor.
use opusref.Base.{
  ℕ-Key, ℕ, ◌+◌, ◌%◌, ◌≤◌, ◌-◌, ◌≡◌, ◌≢◌, ◌↔◌, ◌⊎◌, refl, List, [], ◌∷◌, true, false, none, some,
  ok, err, arith, lookup, insert, bytes_equal, subst, u32_mod,
}
use opusref.Engine.Types.{
  Limits, defaults, Session, Floor, Engine, StreamEnd, end_normal, floor_granted, invalid_stream,
  TransactionKey, TransactionKey-Key, duplicate,
}
use opusref.Engine.Ops.{
  new_engine, add_session, set_ready, new_floor, record_media, request_floor, held_floor, media,
  fanout, sequence_gap, sequence_delta,
}
use opusref.Engine.Release.{end_floor, expire_sessions, expire_floor, tick}
use opusref.Engine.Transactions.{transaction}
use opusref.Engine.Invariant.{Inv, is_ready}
use opusref.Engine.Media.{media_refused, media_accepted}
use opusref.Engine.Fanouts.{copies, copies-media}
use opusref.Engine.Gaps.{Arrival, play, due, due-play}
use opusref.Engine.Trace.{
  Call, adds_session, sets_ready, requests_floor, sends_media, ticks, transacts, step, run,
  run-new_engine-Inv,
}
use opusref.Engine.FloorMachine.{view, FloorStep}
use opusref.Engine.FloorView.{step-FloorStep}
use opusref.Engine.Timers.{IsOnTime, tick-IsOnTime, tick-recent}
use opusref.Engine.Ends.{request_floor-granted_iff, IsDue, end_floor_outcome}
use opusref.Engine.Retention.{transaction_again}

abbrev limits : Limits
limits = record {
  max_clients = 2;
  max_completed_transactions = 1;
  session_timeout = 30;
  grant_timeout = 2;
  media_timeout = 4;
  transmit_time_limit = 20;
}

-- Sessions 5 and 6 are ready, and 5 has the floor with stream 9.
abbrev granting : List (ℕ × Call)
granting =
    (1, adds_session 5 (1 ∷ []) (b'A' ∷ []) false)
    ∷ (2, adds_session 6 (2 ∷ []) (b'B' ∷ []) false)
    ∷ (3, sets_ready 5)
    ∷ (4, sets_ready 6)
    ∷ (5, requests_floor 5 9 (b'C' ∷ []))
    ∷ []

abbrev granted_engine : Engine
granted_engine = record {
  limits = limits;
  sessions =
      (5, record { address = 1 ∷ []; callsign = b'A' ∷ []; ready = true; last = 5 })
      ∷ (6, record { address = 2 ∷ []; callsign = b'B' ∷ []; ready = true; last = 4 })
      ∷ [];
  floor = some (record {
    owner = 5;
    stream = 9;
    source = b'C' ∷ [];
    granted = 5;
    first_media = 0;
    last_media = 0;
    prior = 0;
    timestamp = 0;
    has_prior = false;
  });
  tx = [];
  gaps = 0;
  draining = false;
}

granting-run : run (new_engine limits) granting ≡ granted_engine
unfolding run step new_engine defaults add_session set_ready request_floor lookup insert
granting-run = refl

run-new_engine-Inv_example : Inv (run (new_engine limits) granting)
run-new_engine-Inv_example = run-new_engine-Inv limits granting (tt, (tt, (tt, (tt, (tt, tt)))))

granted-Inv : Inv granted_engine
granted-Inv = subst Inv granting-run run-new_engine-Inv_example

abbrev first_packet : ℕ × Call
first_packet = (6, sends_media 5 (1 ∷ []) 9 0 960 (7 ∷ []))

step-FloorStep_example :
    FloorStep first_packet.1
      (view granted_engine.floor)
      (view (step granted_engine first_packet).floor)
step-FloorStep_example = step-FloorStep granted_engine first_packet (omega arith) granted-Inv

-- The first packet, one that skips two, a late one that is refused, and the next.
abbrev arrivals : List Arrival
arrivals =
    record { now = 6; address = 1 ∷ []; sequence = 0; timestamp = 0; payload = 7 ∷ [] }
    ∷ record { now = 7; address = 1 ∷ []; sequence = 3; timestamp = 960; payload = 7 ∷ [] }
    ∷ record { now = 8; address = 1 ∷ []; sequence = 1; timestamp = 960; payload = 7 ∷ [] }
    ∷ record { now = 9; address = 1 ∷ []; sequence = 4; timestamp = 960; payload = 7 ∷ [] }
    ∷ []

play-arrivals :
    ((play 5 9 granted_engine arrivals).0.gaps ≡ 2) × ((play 5 9 granted_engine arrivals).1 ≡ 3)
unfolding play media held_floor sequence_gap sequence_delta fanout lookup insert bytes_equal
play-arrivals = (refl, refl)

abbrev open_floor : Floor
open_floor = new_floor 5 5 9 (b'C' ∷ [])

due-play_example :
    let (e', accepted) = play 5 9 granted_engine arrivals in
    (f' : Floor) × (e'.floor ≡ some f')
    × ((0 + accepted + e'.gaps) % u32_mod ≡ (due f' + 0) % u32_mod)
due-play_example = due-play 5 9 granted_engine open_floor arrivals granted-Inv refl (omega arith)

first_sent :
    (media granted_engine 6 5 (1 ∷ []) 9 0 960 (7 ∷ [])).1
    ≡ ok (
        record { session_id = 6; stream_id = 9; sequence = 0; timestamp = 960; payload = 7 ∷ [] }
        ∷ [])
unfolding media held_floor sequence_gap fanout lookup insert bytes_equal
first_sent = refl

copies-media_example :
    copies 6 (
      record { session_id = 6; stream_id = 9; sequence = 0; timestamp = 960; payload = 7 ∷ [] }
      ∷ [])
    ≡ 1
unfolding lookup
copies-media_example =
    copies-media granted_engine 6 5 (1 ∷ []) 9 0 960 (7 ∷ []) 6 granted-Inv first_sent

media_accepted_example :
    (s : Session) × (f : Floor) × (lookup 5 granted_engine.sessions ≡ some s)
    × (s.address ≡ 1 ∷ [])
    × (granted_engine.floor ≡ some f)
    × (f.owner ≡ 5)
    × (f.stream ≡ 9)
    × (granted_engine.draining ≡ false)
    × ((media granted_engine 6 5 (1 ∷ []) 9 0 960 (7 ∷ [])).0.floor ≡ some (record_media f 6 0 960))
    × (lookup 5 (media granted_engine 6 5 (1 ∷ []) 9 0 960 (7 ∷ [])).0.sessions
        ≡ some (record s { last = 6 }))
media_accepted_example = media_accepted granted_engine 6 5 (1 ∷ []) 9 0 960 (7 ∷ []) first_sent

wrong_start : (media granted_engine 6 5 (1 ∷ []) 9 1 960 (7 ∷ [])).1 ≡ err invalid_stream
unfolding media held_floor sequence_gap lookup bytes_equal
wrong_start = refl

media_refused_example : (media granted_engine 6 5 (1 ∷ []) 9 1 960 (7 ∷ [])).0 ≡ granted_engine
media_refused_example = media_refused granted_engine 6 5 (1 ∷ []) 9 1 960 (7 ∷ []) wrong_start

request_floor-granted_iff_example : ((request_floor granted_engine 7 6 3 []).1 ≡ floor_granted) ↔ (
    (is_ready (lookup 6 granted_engine.sessions) ≡ true)
    × (granted_engine.draining ≡ false)
    × (◌≢◌ {A = ℕ} 3 0)
    × (granted_engine.floor ≡ none))
request_floor-granted_iff_example = request_floor-granted_iff granted_engine 7 6 3 []

end_floor_outcome_example :
    let r = end_floor granted_engine 7 5 9 0 0 end_normal in
    ((f : Floor) × (report : StreamEnd) × (granted_engine.floor ≡ some f)
      × (f.owner ≡ 5)
      × (f.stream ≡ 9)
      × IsDue f 0 0
      × (r ≡ (record granted_engine { floor = none }, ok (some report)))
      × (report.session_id ≡ 5)
      × (report.stream_id ≡ 9)
      × (report.reason ≡ end_normal)
      × (f.first_media ≢ 0
          → (report.sequence ≡ (f.prior + 1) % u32_mod) × (report.timestamp ≡ f.timestamp)))
    ⊎ (((f : Floor) → granted_engine.floor ≡ some f → f.owner ≡ 5 → f.stream ≡ 9 → ¬ IsDue f 0 0)
        × (r ≡ (granted_engine, err invalid_stream)))
end_floor_outcome_example = end_floor_outcome granted_engine 7 5 9 0 0 end_normal

tick_keeps : (tick granted_engine 7).0.floor ≡ some open_floor
unfolding tick expire_sessions expire_floor
tick_keeps = refl

tick-IsOnTime_example : IsOnTime (tick granted_engine 7).0 7 open_floor
tick-IsOnTime_example = tick-IsOnTime granted_engine 7 open_floor tick_keeps

tick-recent_example : 7 - 4 ≤ 30
tick-recent_example =
    tick-recent granted_engine 7 6
      (record { address = 2 ∷ []; callsign = b'B' ∷ []; ready = true; last = 4 })
      (unfold tick expire_sessions expire_floor in refl)
      (unfold tick expire_sessions expire_floor lookup in refl)

abbrev key : TransactionKey
key = record { session_id = 5; typ = 5; id = 77 }

abbrev between : List (ℕ × Call)
between = (10, ticks) ∷ (60, ticks) ∷ (61, transacts key [] []) ∷ []

transaction_again_example :
    let e' = run (transaction granted_engine 7 key (1 ∷ []) (2 ∷ [])).0 between in
    transaction e' 90 key (1 ∷ []) [] ≡ (e', 2 ∷ [], duplicate)
unfolding bytes_equal
transaction_again_example =
    transaction_again granted_engine 7 key (1 ∷ []) (2 ∷ []) between 90 (1 ∷ []) []
      (unfold transaction lookup in refl)
