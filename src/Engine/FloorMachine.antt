-- ===== src/Engine/FloorMachine.antt =====
-- pkg/server/engine.go: the floor as a small state machine: its states, and what each call may do to it.
use opusref.Base.{
  Bool, false, ◌&&◌, ◌∙◌, ℕ, ◌+◌, ◌%◌, ◌^◌, ◌<◌, ◌≢◌, ◌≡◌, ap, List, true, ◌==◌, if◌then◌else◌,
  Option, none, some, inl, inr, ℕ-Key, ◌⊎◌, u32_mod, arith,
}
use opusref.Engine.Types.{Floor}
use opusref.Engine.Trace.{
  Call, requests_floor, sends_media, ends, disconnects, ticks, begins_shutdown,
}

-- A stream is granted to an owner, becomes active with its first packet, and then waits for the
-- packet `next`.
pub data FloorView : Type 0 where
  idle : FloorView
  granted : ℕ → ℕ → FloorView
  active : ℕ → ℕ → ℕ → FloorView

unfoldable pub view : Option Floor → FloorView
view none = idle
view (some f) =
    if f.first_media == 0
    then granted f.owner f.stream
    else active f.owner f.stream ((f.prior + 1) % u32_mod)

-- The session and the stream that have the floor.
unfoldable pub holder : FloorView → Option (ℕ × ℕ)
holder idle = none
holder (granted owner stream) = some (owner, stream)
holder (active owner stream next) = some (owner, stream)

-- The calls that may take the floor from its holder: its own End of this stream, its own
-- disconnection, and the engine's timers and shutdown.
unfoldable pub may_release : Call → ℕ → ℕ → Bool
may_release (ends id stream' sequence timestamp reason) owner stream =
    id == owner && stream' == stream
may_release (disconnects id) owner stream = id == owner
may_release ticks owner stream = true
may_release begins_shutdown owner stream = true
may_release _ owner stream = false

-- What a call does to the floor. A grant, a start and an advance name the session that calls.
pub data FloorStep (c : Call) (v w : FloorView) : Type 0 where
  stay : w ≡ v → FloorStep c v w
  grant :
      (owner stream : ℕ) (source : List ℕ)
      → c ≡ requests_floor owner stream source
      → stream ≢ 0
      → v ≡ idle
      → w ≡ granted owner stream
      → FloorStep c v w
  start :
      (owner stream timestamp : ℕ) (address payload : List ℕ)
      → c ≡ sends_media owner address stream 0 timestamp payload
      → v ≡ granted owner stream
      → w ≡ active owner stream 1
      → FloorStep c v w
  advance :
      (owner stream next missing sequence timestamp : ℕ) (address payload : List ℕ)
      → c ≡ sends_media owner address stream sequence timestamp payload
      → missing < 2 ^ 31
      → sequence ≡ (next + missing) % u32_mod
      → v ≡ active owner stream next
      → w ≡ active owner stream ((next + missing + 1) % u32_mod)
      → FloorStep c v w
  release :
      (owner stream : ℕ)
      → holder v ≡ some (owner, stream)
      → may_release c owner stream ≡ true
      → w ≡ idle
      → FloorStep c v w

pub holder-view : (f : Floor) → holder (view (some f)) ≡ some (f.owner, f.stream)
unfolding holder view
holder-view f = ground arith

-- A floor that is left alone or, where the caller may do that, released.
pub released-FloorStep :
    (c : Call) (before after : Option Floor)
    → (after ≡ before)
      ⊎ ((f : Floor) × (before ≡ some f) × (may_release c f.owner f.stream ≡ true) × (after ≡ none))
    → FloorStep c (view before) (view after)
unfolding view
released-FloorStep c before after (inl same) = stay (ap view same)
released-FloorStep c before after (inr (f, h, may, gone)) =
    release f.owner f.stream (ap (λ x. holder (view x)) h ∙ holder-view f) may (ap view gone)
