-- ===== src/Engine/Transactions.antt =====
-- pkg/server/engine.go, Transaction and Snapshot.
use opusref.Base.{
  ℕ, ◌+◌, ◌-◌, List, [], true, false, not, ◌==◌, leb, if◌then◌else◌, length, Option, none, some,
  lookup, insert, bytes_equal, ℕ-Key,
}
use opusref.Engine.Types.{
  Session, Floor, Engine, FloorSnapshot, Snapshot, TransactionKey, TransactionKey-Key,
  TransactionState, stored, duplicate, conflict, overloaded,
}

-- The callsign of the floor owner's session, or "".
unfoldable pub node_callsign : Option Session → List ℕ
node_callsign none = []
node_callsign (some s) = s.callsign

-- `remaining -= now - firstMedia`, and at least 0.
unfoldable pub remaining_time : Engine → ℕ → Floor → ℕ
remaining_time e now f =
    if f.first_media == 0
    then e.limits.transmit_time_limit
    else e.limits.transmit_time_limit + f.first_media - now

unfoldable pub floor_snapshot : Engine → ℕ → FloorSnapshot
floor_snapshot e now = elim e.floor [
  | none ↦ record {
    active = false;
    session_id = 0;
    stream_id = 0;
    source_callsign = [];
    node_callsign = [];
    started_at = 0;
    last_frame_at = 0;
    remaining_transmit_time = 0;
  }
  | some f ↦ record {
    active = true;
    session_id = f.owner;
    stream_id = f.stream;
    source_callsign = f.source;
    node_callsign = node_callsign (lookup f.owner e.sessions);
    started_at = f.first_media;
    last_frame_at = f.last_media;
    remaining_transmit_time = remaining_time e now f;
  }
]

unfoldable pub snapshot : Engine → ℕ → Snapshot
snapshot e now = record {
  ready = not e.draining;
  sessions = length e.sessions;
  sequence_gaps = e.gaps;
  floor = floor_snapshot e now;
}

-- `nil` is [], as Go callers see it.
unfoldable pub transaction :
    Engine → ℕ → TransactionKey → List ℕ → List ℕ → Engine × List ℕ × TransactionState
transaction e now key fingerprint result = elim (lookup key e.tx) [
  | some old ↦
      if not (bytes_equal old.fingerprint fingerprint)
      then (e, [], conflict)
      else (e, old.result, duplicate)
  | none ↦ if leb e.limits.max_completed_transactions (length e.tx) then (e, [], overloaded) else (
    record e {
      tx = insert key (record { fingerprint = fingerprint; result = result; at = now }) e.tx;
    },
    result,
    stored,
  )
]
