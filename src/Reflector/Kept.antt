-- ===== src/Reflector/Kept.antt =====
-- pkg/server/reflector.go: what transact keeps of a request that it answers for the first time.
use opusref.Base.{
  ok, First, if_rule, option_rule, result_rule, ℕ, ◌<◌, ◌≡◌, refl, List, not, ◌&&◌, ◌==◌, leb,
  length, Option, none, some, lookup, insert, lookup-insert, lookup-delete, ℕ-Key, Bytes-Key, arith,
  capacity, subst,
}
use opusref.Wire.Types.{Packet}
use opusref.Wire.PacketType
use opusref.Wire.Codec.{encode}
use opusref.Reflector.State.{
  Completed, CompletedKey, CompletedKey-Key, Reflector, Library, count_session,
}
use opusref.Reflector.Answers.{
  error_limit_exceeded, send_error, enqueue_raw, undelivered, delivered, transact_new,
}
use opusref.Reflector.Admission.{hello, authenticate}
use opusref.Reflector.Control.{control}
use opusref.Reflector.Invariant.Tables.{TablesInv}
use opusref.Reflector.Invariant.Requests.{hello-TablesInv, authenticate-TablesInv}
use opusref.Reflector.Invariant.Admitted.{control-TablesInv}
use opusref.Reflector.Runs.{AnyPeer}
use opusref.Reflector.Invariant.Transact.{retained, retained-RunInv, sent-RunInv}
use opusref.Reflector.Invariant.Replies.{
  RunInv, RunInv-carry, send_error-TablesInv, delivered-TablesInv, undelivered_rest-TablesInv,
}

-- What the reflector does with the requests that it answers: the function that handle gives to transact.
pub data Request : Type 0 where
  says_hello authenticates : Request
  controls : ℕ → Request

unfoldable pub answer_to :
    Library → ℕ → List ℕ → Request → Reflector → Packet → Reflector × Option Packet
answer_to lib now address says_hello = hello lib now address
answer_to lib now address authenticates = authenticate lib now address
answer_to lib now address (controls id) = control lib now id

answer_to-TablesInv :
    (lib : Library) (now : ℕ) (address : List ℕ) (q : Request) (r : Reflector) (p : Packet)
    → TablesInv AnyPeer r r
    → TablesInv AnyPeer r (answer_to lib now address q r p).0
unfolding answer_to
answer_to-TablesInv lib now address says_hello r p v = hello-TablesInv r lib now address r p v
answer_to-TablesInv lib now address authenticates r p v =
    authenticate-TablesInv r lib now address r p (λ id c a. tt) v
answer_to-TablesInv lib now address (controls id) r p v = control-TablesInv r lib now id r p v

-- What is kept of a request: its fingerprint, and the bytes of the answer to it.
pub record IsAnswer (fingerprint : List ℕ) (answer : Option Packet) (e : Completed) : Type 0 where
  pub same : e.fingerprint ≡ fingerprint
  pub response : Packet
  pub answered : answer ≡ some response
  pub encoded : encode response ≡ ok e.response

-- Whatever is kept under this key is of this kind.
pub record Kept (key : CompletedKey) (P : Completed → Type 0) (r : Reflector) : Type 0 where
  pub all : (e : Completed) → lookup key r.transactions ≡ some e → P e

Kept-transactions :
    (key : CompletedKey) (P : Completed → Type 0) (r r' : Reflector)
    → r'.transactions ≡ r.transactions
    → Kept key P r
    → Kept key P r'
Kept-transactions key P r r' equal h = record {
  all = λ e k. h.all e (subst (λ ts. lookup key ts ≡ some e) equal k);
}

Kept-undelivered :
    (r : Reflector) (now : ℕ) (address : List ℕ) (p : Packet) (tx : List ℕ) (key : CompletedKey)
    (P : Completed → Type 0)
    → RunInv AnyPeer r
    → Kept key P r
    → Kept key P (undelivered r now address p tx key)
unfolding undelivered
Kept-undelivered r now address p tx key P h k =
    let r' = retained r p key in
    let rest =
      undelivered_rest-TablesInv r' now r' address p tx (retained-RunInv r p key h).tables in
    Kept-transactions key P r' _ rest.transactions (
      if_rule (Kept key P) (p.header.typ == PacketType.disconnect && not (p.header.session_id == 0))
        (λ _. k)
        (λ _. record {
          all = λ e found. ground (
            arith,
            found,
            lookup-delete key key r.transactions,
            CompletedKey-Key.same_iff key key,
          );
        }))

-- What is kept stays what it is, whether the answer can be sent or not.
Kept-sent :
    (lib : Library) (now : ℕ) (address : List ℕ) (p : Packet) (tx : List ℕ) (key : CompletedKey)
    (entry : Completed) (bytes : List ℕ) (r : Reflector) (P : Completed → Type 0)
    → P entry
    → length r.transactions < r.engine.limits.max_completed_transactions
    → RunInv AnyPeer r
    → (let r' =
          (enqueue_raw
            (record r { transactions = insert key entry r.transactions })
            address
            bytes).0 in
        Kept key P (delivered lib r' now p) × Kept key P (undelivered r' now address p tx key))
unfolding enqueue_raw
Kept-sent lib now address p tx key entry bytes r P is room h = (
  Kept-transactions key P r' _ (delivered-TablesInv r' now lib r' p sent.tables).transactions
      stored,
  Kept-undelivered r' now address p tx key P sent stored,
)
  where
    r' : Reflector
    r' = (enqueue_raw (record r { transactions = insert key entry r.transactions }) address bytes).0

    sent : RunInv AnyPeer r'
    sent = sent-RunInv now r address key entry bytes room h

    stored : Kept key P r'
    stored = record {
      all = λ e found.
          subst P
            (ground (
              arith,
              found,
              lookup-insert key key entry r.transactions,
              CompletedKey-Key.same_iff key key,
            ))
            is;
    }

-- After transact has dealt with a new request, only the answer to it stands under its key.
module _ (lib : Library) (now : ℕ) (address : List ℕ) (p : Packet) (tx : List ℕ)
    (key : CompletedKey) (fingerprint : List ℕ) (q : Request) where
  pub Kept-transact_new :
      (r : Reflector)
      → RunInv AnyPeer r
      → lookup key r.transactions ≡ none
      → Kept key
          (IsAnswer fingerprint (answer_to lib now address q r p).1)
          (transact_new lib r now address p tx key fingerprint (answer_to lib now address q)).0
  unfolding transact_new
  Kept-transact_new r h new = kept.held
    where
      P : Completed → Type 0
      P = IsAnswer fingerprint (answer_to lib now address q r p).1

      K : Reflector → Type 0
      K = Kept key P

      nothing : K r
      nothing = record { all = λ e found. ground (arith, found, new) }

      refused : K (send_error r now address p error_limit_exceeded)
      refused =
          Kept-transactions key P r _
            (send_error-TablesInv r now r address p error_limit_exceeded h.tables).transactions
            nothing

      r' : Reflector
      r' = (answer_to lib now address q r p).0

      applied : TablesInv AnyPeer r r'
      applied = answer_to-TablesInv lib now address q r p h.tables

      answered : K r'
      answered = Kept-transactions key P r r' applied.transactions nothing

      kept :
          First K
            (transact_new lib r now address p tx key fingerprint (answer_to lib now address q))
      kept =
          if_rule (First K) (leb r.engine.limits.max_completed_transactions (length r.transactions))
            (λ _. record { held = refused })
            λ room.
              if_rule (First K)
                (not (p.header.session_id == 0)
                  && leb (capacity r.options.max_completed_transactions_per_session)
                      (count_session p.header.session_id r.transactions))
                (λ _. record { held = refused })
                λ _.
                  option_rule (First K) (answer_to lib now address q r p).1
                    (λ _. record { held = answered })
                    λ response answers.
                      result_rule (First K) (encode response) (λ _ _. record { held = answered })
                        λ bytes encodes.
                          let entry : Completed = record {
                            fingerprint = fingerprint;
                            response = bytes;
                            address = address;
                            at = now;
                          } in
                          let (sent, dropped) =
                            Kept-sent lib now address p tx key entry bytes r' P
                              (record {
                                same = refl;
                                response = response;
                                answered = answers;
                                encoded = encodes;
                              })
                              (rw (applied.transactions, applied.limits) (ground (arith, room)))
                              (RunInv-carry r r' applied h) in
                          if_rule (First K)
                            (enqueue_raw
                              (record r' { transactions = insert key entry r'.transactions })
                              address bytes).1
                            (λ _. record { held = sent }) (λ _. record { held = dropped })
