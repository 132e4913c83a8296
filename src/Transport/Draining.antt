-- ===== src/Transport/Draining.antt =====
-- internal/transport/udp.go: the transport once DisableMedia has been called, wherever Write stands then.
use opusref.Base.{
  ◌≡◌, ◌≤◌, refl, List, [], ◌∷◌, ◌++◌, Bool, false, if◌then◌else◌, length, length-append, arith, ap,
  ◌∙◌, sym, append_assoc, append-nil,
}
use opusref.Transport.{
  Datagram, MediaBatch, Udp, enqueue_control, enqueue_media, disable_media, receive, take_control,
  take_media, Written, control_written, copy_written, Writer, polls, chooses, sends, cleared,
  copies, write_step,
}

-- What the reflector and the transport's two goroutines do, in any order. A step of Write comes with
-- Go's choice where both queues have something.
pub data Call : Type 0 where
  control_offered datagram_received : Datagram → Call
  media_offered : MediaBatch → Call
  media_disabled : Call
  writes : Bool → Call

-- The queues, and where Write stands.
pub record Running : Type 0 where
  pub udp : Udp
  pub writer : Writer

unfoldable pub step : Running → Call → Running
step t (control_offered d) = record t { udp = (enqueue_control t.udp d).0 }
step t (datagram_received d) = record t { udp = receive t.udp d }
step t (media_offered b) = record t { udp = (enqueue_media t.udp b).0 }
step t media_disabled = record t { udp = (disable_media t.udp).0 }
step t (writes prefers_control) =
    let (udp, writer, _) = write_step prefers_control t.udp t.writer in
    record { udp = udp; writer = writer }

unfoldable pub run : Running → List Call → Running
run t [] = t
run t (call ∷ calls) = run (step t call) calls

-- The control datagrams that EnqueueControl accepts in a step, and what the step writes.
unfoldable pub accepted : Running → Call → List Datagram
accepted t (control_offered d) = if (enqueue_control t.udp d).1 then d ∷ [] else []
accepted t _ = []

unfoldable pub written : Running → Call → List Written
written t (writes prefers_control) = (write_step prefers_control t.udp t.writer).2
written t _ = []

unfoldable pub all_accepted : Running → List Call → List Datagram
all_accepted t [] = []
all_accepted t (call ∷ calls) = accepted t call ++ all_accepted (step t call) calls

unfoldable pub controls_in : List Written → List Datagram
controls_in [] = []
controls_in (control_written d ∷ rest) = d ∷ controls_in rest
controls_in (copy_written d ∷ rest) = controls_in rest

unfoldable pub copies_in : List Written → List Datagram
copies_in [] = []
copies_in (control_written d ∷ rest) = copies_in rest
copies_in (copy_written d ∷ rest) = d ∷ copies_in rest

-- All control datagrams that a run writes, and all copies of media.
unfoldable pub all_controls : Running → List Call → List Datagram
all_controls t [] = []
all_controls t (call ∷ calls) = controls_in (written t call) ++ all_controls (step t call) calls

unfoldable pub all_copies : Running → List Call → List Datagram
all_copies t [] = []
all_copies t (call ∷ calls) = copies_in (written t call) ++ all_copies (step t call) calls

-- The copy that Write sends whatever happens: the one behind whose test it stands.
unfoldable pub promised : Writer → List Datagram
promised polls = []
promised chooses = []
promised (sends contents recipients) = []
promised (cleared contents address rest) = record { address = address; contents = contents } ∷ []
promised (copies contents address rest) = record { address = address; contents = contents } ∷ []

record Silent (t : Running) : Type 0 where
  disabled : t.udp.media_enabled ≡ false
  empty : t.udp.media ≡ []

-- What a step does while media is disabled.
record Drains (t : Running) (call : Call) : Type 0 where
  still : Silent (step t call)
  control :
      t.udp.control ++ accepted t call ≡ controls_in (written t call) ++ (step t call).udp.control
  media : promised t.writer ≡ copies_in (written t call) ++ promised (step t call).writer

write_step-Drains :
    (prefers_control : Bool) (u : Udp) (w : Writer)
    → Silent (record { udp = u; writer = w })
    → Drains (record { udp = u; writer = w }) (writes prefers_control)
unfolding step accepted written write_step take_control take_media controls_in copies_in promised
write_step-Drains prefers_control u polls v = record {
  still = record {
    disabled = ground (arith, v.disabled, v.empty);
    empty = ground (arith, v.empty, v.disabled);
  };
  control = ground (arith, v.empty, v.disabled, append-nil u.control);
  media = ground (arith, v.empty, v.disabled);
}
write_step-Drains prefers_control u chooses v = record {
  still = record {
    disabled = ground (arith, v.disabled, v.empty);
    empty = ground (arith, v.empty, v.disabled);
  };
  control = ground (arith, v.empty, v.disabled, append-nil u.control);
  media = ground (arith, v.empty, v.disabled);
}
write_step-Drains prefers_control u (sends contents []) v = record {
  still = record {
    disabled = ground (arith, v.disabled, v.empty);
    empty = ground (arith, v.empty, v.disabled);
  };
  control = ground (arith, v.empty, v.disabled, append-nil u.control);
  media = ground (arith, v.empty, v.disabled);
}
write_step-Drains prefers_control u (sends contents (address ∷ rest)) v = record {
  still = record {
    disabled = ground (arith, v.disabled, v.empty);
    empty = ground (arith, v.empty, v.disabled);
  };
  control = ground (arith, v.empty, v.disabled, append-nil u.control);
  media = ground (arith, v.empty, v.disabled);
}
write_step-Drains prefers_control u (cleared contents address rest) v = record {
  still = record {
    disabled = ground (arith, v.disabled, v.empty);
    empty = ground (arith, v.empty, v.disabled);
  };
  control = ground (arith, v.empty, v.disabled, append-nil u.control);
  media = ground (arith, v.empty, v.disabled);
}
write_step-Drains prefers_control u (copies contents address rest) v = record {
  still = record {
    disabled = ground (arith, v.disabled, v.empty);
    empty = ground (arith, v.empty, v.disabled);
  };
  control = ground (arith, v.empty, v.disabled, append-nil u.control);
  media = ground (arith, v.empty, v.disabled);
}

step-Drains : (t : Running) (call : Call) → Silent t → Drains t call
unfolding step accepted written enqueue_control receive enqueue_media disable_media controls_in
    copies_in
step-Drains t (control_offered d) v = record {
  still = record { disabled = ground (arith, v.disabled); empty = ground (arith, v.empty) };
  control = ground (arith, append-nil t.udp.control);
  media = refl;
}
step-Drains t (datagram_received d) v = record {
  still = record { disabled = ground (arith, v.disabled); empty = ground (arith, v.empty) };
  control = ground (arith, append-nil t.udp.control);
  media = refl;
}
step-Drains t (media_offered b) v = record {
  still = record {
    disabled = ground (arith, v.disabled);
    empty = ground (arith, v.disabled, v.empty);
  };
  control = ground (arith, append-nil t.udp.control);
  media = refl;
}
step-Drains t media_disabled v = record {
  still = record { disabled = refl; empty = refl };
  control = append-nil t.udp.control;
  media = refl;
}
step-Drains t (writes prefers_control) v = write_step-Drains prefers_control t.udp t.writer v

run-control :
    (t : Running) (calls : List Call)
    → Silent t
    → t.udp.control ++ all_accepted t calls ≡ all_controls t calls ++ (run t calls).udp.control
unfolding run all_accepted all_controls
run-control t [] v = append-nil t.udp.control
run-control t (call ∷ calls) v =
    let d = step-Drains t call v in
    sym (append_assoc t.udp.control (accepted t call) _)
    ∙ ap (λ x. x ++ all_accepted (step t call) calls) d.control
    ∙ append_assoc (controls_in (written t call)) _ _
    ∙ ap (◌++◌ (controls_in (written t call))) (run-control (step t call) calls d.still)
    ∙ sym (append_assoc (controls_in (written t call)) _ _)

run-media :
    (t : Running) (calls : List Call)
    → Silent t
    → promised t.writer ≡ all_copies t calls ++ promised (run t calls).writer
unfolding run all_copies
run-media t [] v = refl
run-media t (call ∷ calls) v =
    let d = step-Drains t call v in
    d.media
    ∙ ap (◌++◌ (copies_in (written t call))) (run-media (step t call) calls d.still)
    ∙ sym (append_assoc (copies_in (written t call)) _ _)

length-promised-le : (w : Writer) → length (promised w) ≤ 1
unfolding promised
length-promised-le polls = omega arith
length-promised-le chooses = omega arith
length-promised-le (sends contents recipients) = omega arith
length-promised-le (cleared contents address rest) = omega arith
length-promised-le (copies contents address rest) = omega arith

-- From DisableMedia on, wherever Write stands, whatever is offered and in whatever order the steps
-- come: the control datagrams that were queued and those that EnqueueControl accepts are written in
-- that order, each once, and what is not written yet stands in the queue. At most one copy of
-- media is written still: where Write had passed the test of mediaEnabled for a recipient before
-- DisableMedia, that copy, and no other.
pub run-disable_media :
    (u : Udp) (w : Writer) (calls : List Call)
    → (let start : Running = record { udp = (disable_media u).0; writer = w } in
        (u.control ++ all_accepted start calls
          ≡ all_controls start calls ++ (run start calls).udp.control)
        × (promised w ≡ all_copies start calls ++ promised (run start calls).writer)
        × (length (all_copies start calls) ≤ 1))
unfolding disable_media
run-disable_media u w calls =
    let start : Running = record { udp = (disable_media u).0; writer = w } in
    let silent : Silent start = record { disabled = refl; empty = refl } in
    let media = run-media start calls silent in
    (
      run-control start calls silent,
      media,
      omega (
        arith,
        ap length media,
        length-append (all_copies start calls) (promised (run start calls).writer),
        length-promised-le w,
      ),
    )
