-- ===== src/Reflector/Invariant/Transact.antt =====
-- pkg/server/reflector.go: transact keeps what holds of the reflector between two calls.
use opusref.Base.{
  First, if_rule, option_rule, result_rule, ℕ, ◌<◌, List, not, ◌&&◌, ◌==◌, leb, if◌then◌else◌,
  length, Option, lookup, insert, length-insert, length-delete-le, ℕ-Key, Bytes-Key, arith,
  bytes_equal, delete, capacity, be64,
}
use opusref.Wire.Types.{Packet}
use opusref.Wire.PacketType
use opusref.Wire.TlvType
use opusref.Wire.Codec.{encode}
use opusref.Wire.Helpers.{find}
use opusref.Reflector.State.{
  Completed, CompletedKey, CompletedKey-Key, Reflector, Library, count_session,
}
use opusref.Reflector.Answers.{
  error_limit_exceeded, error_malformed_packet, send_error, enqueue_raw, transaction_key, sorted,
  fingerprint_of, undelivered, delivered, transact_new, transact_again, transact,
}
use opusref.Reflector.Invariant.Tables.{Known, TablesInv}
use opusref.Reflector.Invariant.Replies.{
  RunInv, RunInv-carry, RunInv-transactions, send_error-TablesInv, enqueue_raw-TablesInv,
  replay_overload-TablesInv, delivered-TablesInv, undelivered_rest-TablesInv,
}

-- The reflector once undelivered has dealt with the answer that it keeps.
abbrev pub retained : Reflector → Packet → CompletedKey → Reflector
retained r p key =
    if p.header.typ == PacketType.disconnect && not (p.header.session_id == 0)
    then r
    else record r { transactions = delete key r.transactions }

pub retained-RunInv :
    {K : Known} (r : Reflector) (p : Packet) (key : CompletedKey)
    → RunInv K r
    → RunInv K (retained r p key)
retained-RunInv {K = K} r p key h =
    if_rule (RunInv K) (p.header.typ == PacketType.disconnect && not (p.header.session_id == 0))
      (λ _. h)
      (λ _.
        RunInv-transactions r (delete key r.transactions)
          (ground (arith, h.transactions_bound, length-delete-le key r.transactions)) h.tables)

module _ {K : Known} (now : ℕ) where
  transact_again-RunInv :
      (r : Reflector) (address : List ℕ) (p : Packet) (old : Completed) (fingerprint : List ℕ)
      → RunInv K r
      → RunInv K (transact_again r now address p old fingerprint).0
  unfolding transact_again
  transact_again-RunInv r address p old fingerprint h = RunInv-carry r _ kept.held h
    where
      sent : TablesInv K r (enqueue_raw r address old.response).0
      sent = enqueue_raw-TablesInv r now r address old.response h.tables

      kept : First (TablesInv K r) (transact_again r now address p old fingerprint)
      kept =
          if_rule (First (TablesInv K r)) (bytes_equal old.fingerprint fingerprint)
            (λ _.
              if_rule (First (TablesInv K r)) (enqueue_raw r address old.response).1
                (λ _. record { held = sent })
                (λ _. record {
                  held = replay_overload-TablesInv r now _ address old.response sent;
                }))
            (λ _. record {
              held = send_error-TablesInv r now r address p error_malformed_packet h.tables;
            })

  undelivered-RunInv :
      (r : Reflector) (address : List ℕ) (p : Packet) (tx : List ℕ) (key : CompletedKey)
      → RunInv K r
      → RunInv K (undelivered r now address p tx key)
  unfolding undelivered
  undelivered-RunInv r address p tx key h =
      let kept = retained-RunInv r p key h in
      let r' = retained r p key in
      RunInv-carry r' _ (undelivered_rest-TablesInv r' now r' address p tx kept.tables) kept

  -- An answer has been made, and is kept and put into the control queue.
  pub sent-RunInv :
      (r : Reflector) (address : List ℕ) (key : CompletedKey) (entry : Completed) (bytes : List ℕ)
      → length r.transactions < r.engine.limits.max_completed_transactions
      → RunInv K r
      → RunInv K
          (enqueue_raw
            (record r { transactions = insert key entry r.transactions })
            address
            bytes).0
  sent-RunInv r address key entry bytes room h =
      RunInv-carry stored _ (enqueue_raw-TablesInv stored now stored address bytes kept.tables) kept
    where
      stored : Reflector
      stored = record r { transactions = insert key entry r.transactions }

      kept : RunInv K stored
      kept =
          RunInv-transactions r (insert key entry r.transactions)
            (ground (arith, room, length-insert key entry r.transactions)) h.tables

  delivered-RunInv :
      (lib : Library) (r : Reflector) (p : Packet) → RunInv K r → RunInv K (delivered lib r now p)
  delivered-RunInv lib r p h = RunInv-carry r _ (delivered-TablesInv r now lib r p h.tables) h

-- The same of the whole request, if the way it is answered keeps it.
module _ {K : Known} (now : ℕ) (apply : Reflector → Packet → Reflector × Option Packet)
    (r : Reflector) where
  transact_new-RunInv :
      (lib : Library) (address : List ℕ) (p : Packet) (tx : List ℕ) (key : CompletedKey)
      (fingerprint : List ℕ)
      → (TablesInv K r r → TablesInv K r (apply r p).0)
      → RunInv K r
      → RunInv K (transact_new lib r now address p tx key fingerprint apply).0
  unfolding transact_new
  transact_new-RunInv lib address p tx key fingerprint keeps h = kept.held
    where
      refused : RunInv K (send_error r now address p error_limit_exceeded)
      refused =
          RunInv-carry r _ (send_error-TablesInv r now r address p error_limit_exceeded h.tables) h

      applied : TablesInv K r (apply r p).0
      applied = keeps h.tables

      answered : RunInv K (apply r p).0
      answered = RunInv-carry r _ applied h

      kept : First (RunInv K) (transact_new lib r now address p tx key fingerprint apply)
      kept =
          if_rule (First (RunInv K))
            (leb r.engine.limits.max_completed_transactions (length r.transactions))
            (λ _. record { held = refused })
            λ room.
              if_rule (First (RunInv K))
                (not (p.header.session_id == 0)
                  && leb (capacity r.options.max_completed_transactions_per_session)
                      (count_session p.header.session_id r.transactions))
                (λ _. record { held = refused })
                λ _.
                  option_rule (First (RunInv K)) (apply r p).1 (λ _. record { held = answered })
                    λ response _.
                      result_rule (First (RunInv K)) (encode response)
                        (λ _ _. record { held = answered })
                        λ bytes _.
                          let entry : Completed = record {
                            fingerprint = fingerprint;
                            response = bytes;
                            address = address;
                            at = now;
                          } in
                          let sent =
                            sent-RunInv now (apply r p).0 address key entry bytes
                              (rw (applied.transactions, applied.limits) (ground (arith, room)))
                              answered in
                          if_rule (First (RunInv K))
                            (enqueue_raw
                              (record (apply r p).0 {
                                transactions = insert key entry (apply r p).0.transactions;
                              })
                              address bytes).1
                            (λ _. record { held = delivered-RunInv now lib _ p sent })
                            (λ _. record { held = undelivered-RunInv now _ address p tx key sent })

  pub transact-RunInv :
      (lib : Library) (address : List ℕ) (request : Packet)
      → (TablesInv K r r → TablesInv K r (apply r (sorted request)).0)
      → RunInv K r
      → RunInv K (transact lib r now address request apply).0
  unfolding transact
  transact-RunInv lib address request keeps h = kept.held
    where
      kept : First (RunInv K) (transact lib r now address request apply)
      kept =
          option_rule (First (RunInv K)) (find request TlvType.transaction_id)
            (λ _. record { held = h })
            λ tx _.
              let p = sorted request in
              let key = transaction_key address p (be64 tx) in
              option_rule (First (RunInv K)) (lookup key r.transactions)
                (λ _. record {
                  held = transact_new-RunInv lib address p tx key (fingerprint_of p) keeps h;
                })
                (λ old _. record {
                  held = transact_again-RunInv now r address p old (fingerprint_of p) h;
                })
