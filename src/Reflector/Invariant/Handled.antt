-- ===== src/Reflector/Invariant/Handled.antt =====
-- pkg/server/reflector.go: handle keeps what holds of the reflector between two calls.
use opusref.Base.{
  First, if_rule, option_rule, result_rule, ltb, ℕ, ◌<◌, ◌≡◌, refl, List, Bool, not, ◌&&◌, ◌||◌,
  ◌==◌, if◌then◌else◌, length, ok, lookup, has, ℕ-Key, Bytes-Key, arith, bytes_equal, capacity,
  be64, IsBytes, u32_mod,
}
use opusref.Wire.Types.{Packet, flag_response}
use opusref.Wire.PacketType
use opusref.Wire.TlvType
use opusref.Wire.Codec.{decode}
use opusref.Wire.Codec.Canonical.{decode-PacketFits}
use opusref.Wire.Rules.{ready, connected, pre_admission}
use opusref.Wire.Helpers.{find}
use opusref.Reflector.State.{
  Challenge, CompletedKey-Key, NotificationKey-Key, Reflector, Library, update_peer,
}
use opusref.Reflector.Answers.{enqueue_raw, transaction_key, sorted, fingerprint_of}
use opusref.Reflector.Admission.{hello, authenticate}
use opusref.Reflector.Control.{control}
use opusref.Reflector.Handle.{
  is_valid, replay_disconnect, dispatch, refresh, handle_admitted, handle_packet, handle,
  handle_drain,
}
use opusref.Reflector.Invariant.Tables.{Known, TablesInv, TablesInv-peers}
use opusref.Reflector.Invariant.Sessions.{TablesInv-EngineStep, touch-EngineStep}
use opusref.Reflector.Invariant.Requests.{Answers, hello-TablesInv, authenticate-TablesInv}
use opusref.Reflector.Invariant.Admitted.{control-TablesInv, ack-TablesInv, media-TablesInv}
use opusref.Reflector.Invariant.Replies.{
  RunInv, RunInv-carry, enqueue_raw-TablesInv, replay_overload-TablesInv,
}
use opusref.Reflector.Invariant.Transact.{transact-RunInv}

module _ {K : Known} (lib : Library) (now : ℕ) where
  replay_disconnect-RunInv :
      (r : Reflector) (address : List ℕ) (p : Packet)
      → RunInv K r
      → RunInv K (replay_disconnect r now address p).0
  unfolding replay_disconnect
  replay_disconnect-RunInv r address p h = RunInv-carry r _ kept.held h
    where
      kept : First (TablesInv K r) (replay_disconnect r now address p)
      kept =
          if_rule (First (TablesInv K r)) (not (is_valid p ready)) (λ _. record { held = h.tables })
            λ _.
              option_rule (First (TablesInv K r)) (find p TlvType.transaction_id)
                (λ _. record { held = h.tables })
                λ tx _.
                  option_rule (First (TablesInv K r))
                    (lookup (transaction_key address p (be64 tx)) r.transactions)
                    (λ _. record { held = h.tables })
                    λ old _.
                      if_rule (First (TablesInv K r))
                        (not (bytes_equal old.address address)
                          || length (fingerprint_of (sorted p)) == 0
                          || not (bytes_equal old.fingerprint (fingerprint_of (sorted p))))
                        (λ _. record { held = h.tables })
                        λ _.
                          let sent = enqueue_raw-TablesInv r now r address old.response h.tables in
                          if_rule (First (TablesInv K r)) (enqueue_raw r address old.response).1
                            (λ _. record { held = sent })
                            (λ _. record {
                              held = replay_overload-TablesInv r now _ address old.response sent;
                            })

  dispatch-RunInv :
      (r : Reflector) (address : List ℕ) (id : ℕ) (p : Packet) (raw : List ℕ)
      → p.header.sequence < u32_mod
      → RunInv K r
      → RunInv K (dispatch lib r now address id p raw).0
  unfolding dispatch
  dispatch-RunInv r address id p raw fits h = kept.held
    where
      kept : First (RunInv K) (dispatch lib r now address id p raw)
      kept =
          if_rule (First (RunInv K))
            (p.header.typ == PacketType.keepalive
              || p.header.typ == PacketType.disconnect
              || p.header.typ == PacketType.stream_request
              || p.header.typ == PacketType.stream_end)
            (λ _. record {
              held =
                  transact-RunInv now (control lib now id) r lib address p
                    (control-TablesInv r lib now id r (sorted p)) h;
            })
            λ _.
              if_rule (First (RunInv K))
                (p.header.typ == PacketType.stream_start
                  || p.header.typ == PacketType.stream_revoke)
                (λ _. record { held = RunInv-carry r _ (ack-TablesInv r now id r p h.tables) h })
                λ _.
                  if_rule (First (RunInv K))
                    (p.header.typ == PacketType.audio || p.header.typ == PacketType.media_data)
                    (λ _. record {
                      held = RunInv-carry r _ (media-TablesInv r now id r p raw fits h.tables) h;
                    })
                    (λ _. record { held = h })

  refresh-RunInv :
      (x : Reflector × Bool) (address : List ℕ) (id : ℕ)
      → RunInv K x.0
      → RunInv K (refresh x now address id)
  unfolding refresh
  refresh-RunInv (r, accepted) address id h =
      RunInv-carry r _
        (if_rule (TablesInv K r) (accepted && has (lookup id r.peers))
          (λ _.
            TablesInv-EngineStep r
              (record r { peers = update_peer id (λ q. record q { last = now }) r.peers }) _
              (touch-EngineStep r.engine now h.tables.engine id address)
              (TablesInv-peers r r id _ (λ p. (refl, refl, refl, refl)) h.tables))
          (λ _. h.tables))
        h

  handle_admitted-RunInv :
      (r : Reflector) (address : List ℕ) (p : Packet) (raw : List ℕ)
      → p.header.sequence < u32_mod
      → RunInv K r
      → RunInv K (handle_admitted lib r now address p raw)
  unfolding handle_admitted
  handle_admitted-RunInv r address p raw fits h =
      option_rule (RunInv K) (lookup p.header.session_id r.peers) (λ _. h)
        λ peer _.
          if_rule (RunInv K) (not (bytes_equal peer.address address)) (λ _. h)
            λ _.
              if_rule (RunInv K) (not (is_valid p (if peer.ready then ready else connected)))
                (λ _. h)
                λ _.
                  refresh-RunInv (dispatch lib r now address peer.id p raw) address peer.id
                    (dispatch-RunInv r address peer.id p raw fits h)

  handle_packet-RunInv :
      (r : Reflector) (address : List ℕ) (p : Packet) (raw : List ℕ)
      → p.header.sequence < u32_mod
      → ((id : ℕ) (c : Challenge)
          → p.header.typ ≡ PacketType.authenticate
          → Answers lib r now address (sorted p) c
          → K id address c.node)
      → RunInv K r
      → RunInv K (handle_packet lib r now address p raw)
  unfolding handle_packet
  handle_packet-RunInv r address p raw fits knows h =
      if_rule (RunInv K) (p.header.typ == PacketType.hello)
        (λ _.
          if_rule (RunInv K) (is_valid p pre_admission)
            (λ _.
              transact-RunInv now (hello lib now address) r lib address p
                (hello-TablesInv r lib now address r (sorted p)) h)
            (λ _. h))
        λ _.
          if_rule (RunInv K) (p.header.typ == PacketType.authenticate)
            (λ test.
              if_rule (RunInv K) (is_valid p pre_admission)
                (λ _.
                  transact-RunInv now (authenticate lib now address) r lib address p
                    (authenticate-TablesInv r lib now address r (sorted p)
                      (λ id c. knows id c (ground (arith, test))))
                    h)
                (λ _. h))
            λ _.
              if_rule (RunInv K) (p.header.typ == PacketType.disconnect)
                (λ _.
                  if_rule (RunInv K) (replay_disconnect r now address p).1
                    (λ _. replay_disconnect-RunInv r address p h)
                    (λ _.
                      handle_admitted-RunInv _ address p raw fits
                        (replay_disconnect-RunInv r address p h)))
                (λ _. handle_admitted-RunInv r address p raw fits h)

  pub handle-RunInv :
      (r : Reflector) (address datagram : List ℕ)
      → IsBytes datagram
      → ((p : Packet) (id : ℕ) (c : Challenge)
          → decode datagram ≡ ok p
          → p.header.typ ≡ PacketType.authenticate
          → Answers lib r now address (sorted p) c
          → K id address c.node)
      → RunInv K r
      → RunInv K (handle lib r now address datagram)
  unfolding handle
  handle-RunInv r address datagram bytes knows h =
      if_rule (RunInv K) (ltb (capacity r.options.max_datagram_bytes) (length datagram)) (λ _. h)
        λ _.
          result_rule (RunInv K) (decode datagram) (λ _ _. h)
            λ p e.
              handle_packet-RunInv r address p datagram
                (decode-PacketFits datagram bytes e).header_fits.sequence_fits
                (λ id c. knows p id c e) h

  pub handle_drain-RunInv :
      (r : Reflector) (address datagram : List ℕ)
      → RunInv K r
      → RunInv K (handle_drain lib r now address datagram)
  unfolding handle_drain
  handle_drain-RunInv r address datagram h =
      if_rule (RunInv K) (ltb (capacity r.options.max_datagram_bytes) (length datagram)) (λ _. h)
        λ _.
          result_rule (RunInv K) (decode datagram) (λ _ _. h)
            λ p e.
              option_rule (RunInv K) (lookup p.header.session_id r.peers) (λ _. h)
                λ peer _.
                  if_rule (RunInv K) (not (bytes_equal peer.address address)) (λ _. h)
                    λ _.
                      if_rule (RunInv K) (not (is_valid p ready)) (λ _. h)
                        λ _.
                          if_rule (RunInv K)
                            ((p.header.typ == PacketType.stream_revoke
                                || p.header.typ == PacketType.disconnect)
                              && p.header.flags == flag_response)
                            (λ _. RunInv-carry r _ (ack-TablesInv r now peer.id r p h.tables) h)
                            λ _.
                              if_rule (RunInv K) (p.header.typ == PacketType.disconnect)
                                (λ _.
                                  transact-RunInv now (control lib now peer.id) r lib address p
                                    (control-TablesInv r lib now peer.id r (sorted p)) h)
                                (λ _. h)
