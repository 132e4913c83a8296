-- ===== src/Engine/Fanouts.antt =====
-- pkg/server/engine.go, Media: who gets a copy of a packet.
use opusref.Base.{
  ℕ, suc, ◌≡◌, refl, List, [], ◌∷◌, not, ◌&&◌, ◌==◌, if◌then◌else◌, none, inl, inr, lookup, insert,
  lookup-insert, Distinct, Distinct-insert, ℕ-Key, arith, ok,
}
use opusref.Engine.Types.{Session, Engine, Fanout}
use opusref.Engine.Ops.{fanout, media}
use opusref.Engine.Invariant.{Inv, is_ready}
use opusref.Engine.Media.{packet_of, media-cases}

-- How many of the packets are addressed to the session `sid`.
pub copies : ℕ → List Fanout → ℕ
copies sid [] = 0
copies sid (p ∷ ps) = if p.session_id == sid then suc (copies sid ps) else copies sid ps

copies-fanout_absent :
    (sid id : ℕ) (packet : Fanout) (m : List (ℕ × Session))
    → lookup sid m ≡ none
    → copies sid (fanout id packet m) ≡ 0
unfolding copies fanout lookup
copies-fanout_absent sid id packet [] h = refl
copies-fanout_absent sid id packet ((j, s) ∷ m) h =
    ground (arith, copies-fanout_absent sid id packet m)

copies-fanout :
    (sid id : ℕ) (packet : Fanout) (m : List (ℕ × Session))
    → Distinct m
    → copies sid (fanout id packet m)
      ≡ (if not (sid == id) && is_ready (lookup sid m) then 1 else 0)
unfolding copies fanout lookup
copies-fanout sid id packet [] h = ground arith
copies-fanout sid id packet ((j, s) ∷ m) h =
    ground (arith, copies-fanout sid id packet m h.1, copies-fanout_absent sid id packet m)

-- A packet that Media accepts goes once to each ready session but the sender's, and to no other.
pub copies-media :
    (e : Engine) (now id : ℕ) (address : List ℕ) (stream sequence timestamp : ℕ) (payload : List ℕ)
    (sid : ℕ) {packets : List Fanout}
    → Inv e
    → (media e now id address stream sequence timestamp payload).1 ≡ ok packets
    → copies sid packets ≡ (if not (sid == id) && is_ready (lookup sid e.sessions) then 1 else 0)
copies-media e now id address stream sequence timestamp payload sid v h =
    elim (media-cases e now id address stream sequence timestamp payload) [
      | inl (x, k) ↦ cc
      | inr a ↦ ground (
        arith,
        a.sent,
        h,
        copies-fanout sid id (packet_of id stream sequence timestamp payload)
            (insert id (record a.sender { last = now }) e.sessions)
            (Distinct-insert id (record a.sender { last = now }) e.sessions v.distinct),
        lookup-insert id sid (record a.sender { last = now }) e.sessions,
      )
    ]
