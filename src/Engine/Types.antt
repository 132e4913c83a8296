-- ===== src/Engine/Types.antt =====
-- pkg/server/engine.go, the types. A time.Time is a number of nanoseconds, 0 for the zero time
-- that IsZero tells; a time.Duration is one too, and capacities are numbers: NewReflector and
-- config.Load refuse those below 1. Strings are lists of bytes.
use opusref.Base.{ℕ, ◌==◌, ◌*◌, List, Bool, true, Option, if◌then◌else◌, Key, ◌&&◌}
use opusref.Base.{◌≡◌, ◌↔◌, arith}

abbrev pub second : ℕ
second = 1_000_000_000

pub record Limits : Type 0 where
  pub max_clients : ℕ
  pub max_completed_transactions : ℕ
  pub session_timeout : ℕ
  pub grant_timeout : ℕ
  pub media_timeout : ℕ
  pub transmit_time_limit : ℕ

abbrev pub or_default : ℕ → ℕ → ℕ
or_default value default = if value == 0 then default else value

unfoldable pub defaults : Limits → Limits
defaults l = record {
  max_clients = or_default l.max_clients 100;
  max_completed_transactions = or_default l.max_completed_transactions 1024;
  session_timeout = or_default l.session_timeout (30 * second);
  grant_timeout = or_default l.grant_timeout (2 * second);
  media_timeout = or_default l.media_timeout second;
  transmit_time_limit = or_default l.transmit_time_limit (180 * second);
}

pub record Session : Type 0 where
  pub address : List ℕ
  pub callsign : List ℕ
  pub ready : Bool
  pub last : ℕ

pub data FloorResult : Type 0 where
  floor_granted floor_busy floor_rejected : FloorResult

pub data EndReason : Type 0 where
  end_normal end_owner_disconnect end_grant_timeout end_media_inactivity : EndReason
  end_transmit_time_limit end_server_shutdown : EndReason

pub data EngineError : Type 0 where
  invalid_session address_mismatch invalid_stream : EngineError

pub record Fanout : Type 0 where
  pub session_id : ℕ
  pub stream_id : ℕ
  pub sequence : ℕ
  pub timestamp : ℕ
  pub payload : List ℕ

-- A clock that has gone back makes Go's Duration negative; here it is 0 then.
pub record StreamEnd : Type 0 where
  pub session_id : ℕ
  pub stream_id : ℕ
  pub reason : EndReason
  pub sequence : ℕ
  pub timestamp : ℕ
  pub duration : ℕ

pub record Floor : Type 0 where
  pub owner : ℕ
  pub stream : ℕ
  pub source : List ℕ
  pub granted : ℕ
  pub first_media : ℕ
  pub last_media : ℕ
  pub prior : ℕ
  pub timestamp : ℕ
  pub has_prior : Bool

pub record TransactionKey : Type 0 where
  pub session_id : ℕ
  pub typ : ℕ
  pub id : ℕ

abbrev pub key_equal : TransactionKey → TransactionKey → Bool
key_equal a b = a.session_id == b.session_id && a.typ == b.typ && a.id == b.id

pub key_equal_iff : (a b : TransactionKey) → (key_equal a b ≡ true) ↔ (a ≡ b)
key_equal_iff a b = ground arith

instance abbrev pub TransactionKey-Key : Key TransactionKey
TransactionKey-Key = record { same = key_equal; same_iff = key_equal_iff }

pub record Transaction : Type 0 where
  pub fingerprint : List ℕ
  pub result : List ℕ
  pub at : ℕ

pub data TransactionState : Type 0 where
  stored duplicate conflict overloaded : TransactionState

pub record Engine : Type 0 where
  pub limits : Limits
  pub sessions : List (ℕ × Session)
  pub floor : Option Floor
  pub tx : List (TransactionKey × Transaction)
  pub gaps : ℕ
  pub draining : Bool

pub record FloorSnapshot : Type 0 where
  pub active : Bool
  pub session_id : ℕ
  pub stream_id : ℕ
  pub source_callsign : List ℕ
  pub node_callsign : List ℕ
  pub started_at : ℕ
  pub last_frame_at : ℕ
  pub remaining_transmit_time : ℕ

pub record Snapshot : Type 0 where
  pub ready : Bool
  pub sessions : ℕ
  pub sequence_gaps : ℕ
  pub floor : FloorSnapshot
