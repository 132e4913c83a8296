-- ===== src/Reflector/Invariant/Replies.antt =====
-- pkg/server/reflector.go: what transact keeps of the reflector's tables, whatever the request.
use opusref.Base.{
  if_rule, option_rule, result_rule, ltb, ℕ, ◌≤◌, refl, List, [], ◌∷◌, ◌++◌, not, ◌&&◌, ◌||◌, ◌==◌,
  if◌then◌else◌, length, lookup, has, length-delete-le, ℕ-Key, Bytes-Key, arith, bytes_equal,
  delete,
}
use opusref.Wire.Types.{Packet}
use opusref.Wire.PacketType
use opusref.Wire.Codec.{decode}
use opusref.Engine.Transactions.{floor_snapshot}
use opusref.Reflector.State.{Completed, CompletedKey, CompletedKey-Key, Reflector, Library, keys}
use opusref.Reflector.Notify.{control_overload}
use opusref.Reflector.Answers.{
  error_response, send_error, bytes_of, enqueue_raw, replay_overload, drop_address, delivered,
}
use opusref.Reflector.Invariant.Tables.{
  Known, TablesInv, TablesInv-enqueue_control, disconnect_peer-TablesInv,
}
use opusref.Reflector.Invariant.Notified.{
  send_control-TablesInv, control_overload-TablesInv, notify_start-TablesInv,
}
use opusref.Reflector.Invariant.Requests.{TablesInv-challenges}

-- What holds of a reflector between two calls.
pub record RunInv (K : Known) (r : Reflector) : Type 0 where
  pub tables : TablesInv K r r
  pub transactions_bound : length r.transactions ≤ r.engine.limits.max_completed_transactions

pub TablesInv-self : {K : Known} (base r : Reflector) → TablesInv K base r → TablesInv K r r
TablesInv-self base r v = record {
  options = refl;
  limits = refl;
  challenges_bound = v.challenges_bound;
  transactions = refl;
  engine = v.engine;
  pending_bound = v.pending_bound;
  control_bound = v.control_bound;
  peered = v.peered;
  known = v.known;
}

pub RunInv-carry : {K : Known} (r r' : Reflector) → TablesInv K r r' → RunInv K r → RunInv K r'
RunInv-carry r r' v h = record {
  tables = TablesInv-self r r' v;
  transactions_bound = rw (v.transactions, v.limits) h.transactions_bound;
}

pub RunInv-transactions :
    {K : Known} (r : Reflector) (transactions : List (CompletedKey × Completed))
    → length transactions ≤ r.engine.limits.max_completed_transactions
    → TablesInv K r r
    → RunInv K (record r { transactions = transactions })
RunInv-transactions r transactions bound v = record {
  tables = record {
    options = refl;
    limits = refl;
    challenges_bound = v.challenges_bound;
    transactions = refl;
    engine = v.engine;
    pending_bound = v.pending_bound;
    control_bound = v.control_bound;
    peered = v.peered;
    known = v.known;
  };
  transactions_bound = bound;
}

module _ {K : Known} (base : Reflector) (now : ℕ) where
  pub send_error-TablesInv :
      (r : Reflector) (address : List ℕ) (p : Packet) (code : ℕ)
      → TablesInv K base r
      → TablesInv K base (send_error r now address p code)
  unfolding send_error
  send_error-TablesInv r address p code v =
      if_rule (TablesInv K base)
        (p.header.session_id == 0
          || ltb (length (bytes_of p)) (length (bytes_of (error_response p code))))
        (λ _. v)
        (λ _.
          send_control-TablesInv base (control_overload now) (control_overload-TablesInv base now) r
            address (error_response p code) v)

  pub enqueue_raw-TablesInv :
      (r : Reflector) (address bytes : List ℕ)
      → TablesInv K base r
      → TablesInv K base (enqueue_raw r address bytes).0
  unfolding enqueue_raw
  enqueue_raw-TablesInv r address bytes v =
      TablesInv-enqueue_control base r (record { address = address; contents = bytes }) v

  pub replay_overload-TablesInv :
      (r : Reflector) (address response : List ℕ)
      → TablesInv K base r
      → TablesInv K base (replay_overload r now address response)
  unfolding replay_overload
  replay_overload-TablesInv r address response v =
      result_rule (TablesInv K base) (decode response) (λ _ _. v)
        λ p _.
          if_rule (TablesInv K base) (p.header.session_id == 0) (λ _. v)
            λ _.
              option_rule (TablesInv K base) (lookup p.header.session_id r.peers) (λ _. v)
                λ peer _.
                  if_rule (TablesInv K base) (bytes_equal peer.address address)
                    (λ _. control_overload-TablesInv base now r p.header.session_id v) (λ _. v)

  drop_address-TablesInv :
      (ids : List ℕ) (r : Reflector) (address : List ℕ)
      → TablesInv K base r
      → TablesInv K base (drop_address r now address ids)
  unfolding drop_address
  drop_address-TablesInv [] r address v = v
  drop_address-TablesInv (id ∷ ids) r address v = drop_address-TablesInv ids _ address (
      option_rule (TablesInv K base) (lookup id r.peers) (λ _. v)
        λ peer _.
          if_rule (TablesInv K base) (bytes_equal peer.address address)
            (λ _. disconnect_peer-TablesInv base now r id v) (λ _. v))

  pub delivered-TablesInv :
      (lib : Library) (r : Reflector) (p : Packet)
      → TablesInv K base r
      → TablesInv K base (delivered lib r now p)
  unfolding delivered
  delivered-TablesInv lib r p v =
      if_rule (TablesInv K base)
        (p.header.typ == PacketType.keepalive && not (p.header.session_id == 0))
        (λ _.
          option_rule (TablesInv K base) (lookup p.header.session_id r.peers) (λ _. v)
            λ peer _.
              let floor = floor_snapshot r.engine now in
              if_rule (TablesInv K base)
                (floor.active && not (floor.session_id == peer.id) && not peer.notified)
                (λ _. notify_start-TablesInv base lib r now peer.id floor v) (λ _. v))
        (λ _. v)

  -- What undelivered does to the state once it has dealt with the stored answer.
  pub undelivered_rest-TablesInv :
      (r : Reflector) (address : List ℕ) (p : Packet) (tx : List ℕ)
      → TablesInv K base r
      → TablesInv K base (
          if p.header.session_id == 0
          then if p.header.typ == PacketType.hello
            then record r { challenges = delete (address ++ tx) r.challenges }
            else if p.header.typ == PacketType.authenticate
            then drop_address r now address (keys r.peers)
            else r
          else if has (lookup p.header.session_id r.peers)
          then control_overload now r p.header.session_id
          else r)
  undelivered_rest-TablesInv r address p tx v =
      if_rule (TablesInv K base) (p.header.session_id == 0)
        (λ _.
          if_rule (TablesInv K base) (p.header.typ == PacketType.hello)
            (λ _.
              TablesInv-challenges base r (delete (address ++ tx) r.challenges) r.random
                (ground (arith, v.challenges_bound, length-delete-le (address ++ tx) r.challenges))
                v)
            λ _.
              if_rule (TablesInv K base) (p.header.typ == PacketType.authenticate)
                (λ _. drop_address-TablesInv (keys r.peers) r address v) (λ _. v))
        (λ _.
          if_rule (TablesInv K base) (has (lookup p.header.session_id r.peers))
            (λ _. control_overload-TablesInv base now r p.header.session_id v) (λ _. v))
