-- ===== src/Wire/Validate/Matrix.antt =====
-- pkg/wire/validate.go: what holds of every packet that Validate accepts.
use opusref.Base.{ℕ, true, not, ◌==◌, bit_and, some, ok}
use opusref.Wire.Types.{Packet, version1, has_response}
use opusref.Wire.Rules.{
  ValidationContext, malformed, unsupported_version, invalid_session, invalid_stream,
  unsupported_type, version_field, direction_field, phase_field, flags_field, session_id_field,
  stream_id_field, sequence_field, payload_field, invalid, PacketRule, rules,
}
use opusref.Base.{◌≡◌, arith, guard-eq-ok, >>=-eq-ok, ==_iff}
use opusref.Wire.Validate.{
  check_number, check_payload, check_sequence, direction_bit, phase_bit, lookup_rule, check_flags,
  check_extensions, validate,
}

-- What a successful Validate has found.
pub record IsValid (p : Packet) (c : ValidationContext) : Type 0 where
  pub rule : PacketRule
  pub direction : ℕ
  pub phase : ℕ
  pub version : p.header.version ≡ version1
  pub row : rules p.header.typ ≡ some rule
  pub towards : direction_bit c.direction ≡ ok direction
  pub stage : phase_bit c.phase ≡ ok phase
  pub directed : not (bit_and rule.directions direction == 0) ≡ true
  pub staged : not (bit_and rule.phases phase == 0) ≡ true
  pub flags : check_flags rule p.header.typ p.header.flags direction ≡ true
  pub session : check_number rule.session p.header.session_id ≡ true
  pub stream : check_number rule.stream p.header.stream_id ≡ true
  pub sequence : check_sequence rule.sequence p.header.sequence p.header.timestamp ≡ true
  pub payload : check_payload rule.payload p.payload ≡ true
  pub extensions : check_extensions rule (has_response p.header.flags) p.extensions ≡ ok tt

lookup_rule-rules : (typ : ℕ) {r : PacketRule} → lookup_rule typ ≡ ok r → rules typ ≡ some r
unfolding lookup_rule
lookup_rule-rules typ h = ground arith

pub validate-IsValid : (p : Packet) (c : ValidationContext) → validate p c ≡ ok tt → IsValid p c
unfolding validate
validate-IsValid p c h =
    let (version, h1) =
      guard-eq-ok (p.header.version == version1) (invalid unsupported_version version_field) _ h in
    let (r, row, h2) = >>=-eq-ok (lookup_rule p.header.typ) _ h1 in
    let (direction, towards, h3) = >>=-eq-ok (direction_bit c.direction) _ h2 in
    let (phase, stage, h4) = >>=-eq-ok (phase_bit c.phase) _ h3 in
    let (directed, h5) =
      guard-eq-ok (not (bit_and r.directions direction == 0))
        (invalid unsupported_type direction_field) _ h4 in
    let (staged, h6) =
      guard-eq-ok (not (bit_and r.phases phase == 0)) (invalid invalid_session phase_field) _ h5 in
    let (flags, h7) =
      guard-eq-ok (check_flags r p.header.typ p.header.flags direction)
        (invalid malformed flags_field) _ h6 in
    let (session, h8) =
      guard-eq-ok (check_number r.session p.header.session_id)
        (invalid invalid_session session_id_field) _ h7 in
    let (stream, h9) =
      guard-eq-ok (check_number r.stream p.header.stream_id)
        (invalid invalid_stream stream_id_field) _ h8 in
    let (sequence, h10) =
      guard-eq-ok (check_sequence r.sequence p.header.sequence p.header.timestamp)
        (invalid malformed sequence_field) _ h9 in
    let (payload, h11) =
      guard-eq-ok (check_payload r.payload p.payload) (invalid malformed payload_field) _ h10 in
    record {
      rule = r;
      direction = direction;
      phase = phase;
      version = (==_iff _ _).0 version;
      row = lookup_rule-rules _ row;
      towards = towards;
      stage = stage;
      directed = directed;
      staged = staged;
      flags = flags;
      session = session;
      stream = stream;
      sequence = sequence;
      payload = payload;
      extensions = h11;
    }
