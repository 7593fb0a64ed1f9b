-- ===== src/Connection/Arrival.antt =====
-- How bytes arrive at `P::read` of src/Connection.cpp, in any parts and with any waits between them.
use libmumble.Prelude.{ℕ, ◌+◌, ◌-◌, ◌≤◌, ◌<◌, ◌≡◌, refl, ap, ◌∙◌, Bool, true, false, some, arith}
use libmumble.Prelude.{List, [], ◌∷◌, ◌++◌, length, take-all, length-append}
use libmumble.Tcp.Fields.{Bytes}
use libmumble.Connection.Tls.{no_error, want_read, moved_bytes, transfer, interpret_lib_code}
use libmumble.Connection.Tls.{
  tls_retry, tls_success, wait_in, success, retry, Code, interpret_tls_code,
}
use libmumble.Connection.State.{Conn, Turn, handle_code, settle_code, conclude, handle_wait}
use libmumble.Connection.State.{handle_state, count_timeout, ready_code}
use libmumble.Connection.Loops.{Outcome, pass, read}

-- A turn in which the library asks to wait, and the wait ends with nothing but bytes to read.
pub record IsQuiet (turn : Turn) : Type 0 where
  pub blocked : turn.answer ≡ want_read
  pub event :
      turn.event
      ≡ some (record {
        triggered = false;
        in_ready = true;
        out_ready = false;
        disconnected = false;
        error = false;
      })

-- The bytes arrive over the turns: one part in each turn that is not a wait.
pub data Arrives : Bytes → List Turn → Type 0 where
  whole : (t : Turn) → t.answer ≡ no_error → 0 < length t.ready → Arrives t.ready (t ∷ [])
  part :
      (t : Turn) {bytes : Bytes} {turns : List Turn}
      → t.answer ≡ no_error
      → 0 < length t.ready
      → Arrives bytes turns
      → Arrives (t.ready ++ bytes) (t ∷ turns)
  waits :
      (t : Turn) {bytes : Bytes} {turns : List Turn}
      → IsQuiet t
      → Arrives bytes turns
      → Arrives bytes (t ∷ turns)

pub Arrives-positive : {bytes : Bytes} {turns : List Turn} → Arrives bytes turns → 0 < length bytes
Arrives-positive (whole t a h) = h
Arrives-positive (part t {bytes = bytes} a h rest) = ground (arith, length-append t.ready bytes, h)
Arrives-positive (waits t q rest) = Arrives-positive rest

pub turns-positive : {bytes : Bytes} {turns : List Turn} → Arrives bytes turns → 0 < length turns
turns-positive (whole t a h) = omega arith
turns-positive (part t a h rest) = omega arith
turns-positive (waits t q rest) = omega arith

transfer-part :
    (moved size : ℕ) → 0 < moved → moved < size → transfer no_error moved size ≡ tls_retry
unfolding transfer interpret_lib_code
transfer-part moved size h k = ground arith

transfer-all : (size : ℕ) → 0 < size → transfer no_error size size ≡ tls_success
unfolding transfer interpret_lib_code
transfer-all size h = ground arith

after-retry : (turn : Turn) (conn : Conn) → handle_code tls_retry true turn conn ≡ (retry, conn)
unfolding handle_code settle_code conclude interpret_tls_code
after-retry turn conn = refl

after-success :
    (wait : Bool) (turn : Turn) (conn : Conn)
    → handle_code tls_success wait turn conn ≡ (success, record conn { timeouts = 0 })
unfolding handle_code settle_code conclude interpret_tls_code
after-success true turn conn = refl
after-success false turn conn = refl

after-wait :
    (turn : Turn) (conn : Conn) → IsQuiet turn → handle_code wait_in true turn conn ≡ (retry, conn)
unfolding handle_code settle_code conclude interpret_tls_code handle_wait handle_state count_timeout
    ready_code
after-wait turn conn q = rw q.event refl

-- One try of a read that moves these bytes and comes to this code.
pub read_step :
    (wait : Bool) (size : ℕ) (turn : Turn) (turns : List Turn) (conn : Conn) (moved : Bytes)
    (step : Code × Conn)
    → moved_bytes turn.answer turn.ready size ≡ moved
    → handle_code (transfer turn.answer (length moved) size) wait turn conn ≡ step
    → read wait size (turn ∷ turns) conn
      ≡ pass step turns moved (read wait (size - length moved) turns step.1)
unfolding read
read_step wait size turn turns conn moved step m e =
    let go : Bytes → Code × Conn → Outcome =
      λ b p. pass p turns b (read wait (size - length b) turns p.1) in
    ap (λ (b : Bytes). go b (handle_code (transfer turn.answer (length b) size) wait turn conn)) m
    ∙ ap (λ (p : Code × Conn). go moved p) e

module _ (turn : Turn) (turns : List Turn) (conn : Conn) where
  read-blocked :
      (size : ℕ) → IsQuiet turn → read true size (turn ∷ turns) conn ≡ read true size turns conn
  unfolding pass moved_bytes
  read-blocked size q =
      read_step true size turn turns conn [] (retry, conn) (rw q.blocked refl)
        (ap (λ a. handle_code (transfer a 0 size) true turn conn) q.blocked
          ∙ (unfold transfer interpret_lib_code in after-wait turn conn q))
      ∙ ap (λ (n : ℕ). read true n turns conn) (omega arith)

  module _ (fine : turn.answer ≡ no_error) (more : 0 < length turn.ready) where
    all_moved :
        (size : ℕ) → length turn.ready ≤ size → moved_bytes turn.answer turn.ready size ≡ turn.ready
    unfolding moved_bytes
    all_moved size h = rw fine (take-all turn.ready size h)

    pub read-last :
        (wait : Bool)
        → read wait (length turn.ready) (turn ∷ turns) conn ≡ record {
          code = success;
          conn = record conn { timeouts = 0 };
          rest = turns;
          bytes = turn.ready;
        }
    unfolding pass
    read-last wait =
        read_step wait (length turn.ready) turn turns conn turn.ready
          (success, record conn { timeouts = 0 }) (all_moved (length turn.ready) (omega arith))
          (ap (λ a. handle_code (transfer a (length turn.ready) (length turn.ready)) wait turn conn)
              fine
            ∙ ap (λ c. handle_code c wait turn conn) (transfer-all (length turn.ready) more)
            ∙ after-success wait turn conn)

    read-part :
        (size : ℕ)
        → 0 < size
        → read true (length turn.ready + size) (turn ∷ turns) conn
          ≡ record (read true size turns conn) {
            bytes = turn.ready ++ (read true size turns conn).bytes;
          }
    unfolding pass
    read-part size h =
        let all = length turn.ready + size in
        read_step true all turn turns conn turn.ready (retry, conn) (all_moved all (omega arith))
          (ap (λ a. handle_code (transfer a (length turn.ready) all) true turn conn) fine
            ∙ ap (λ c. handle_code c true turn conn)
                (transfer-part (length turn.ready) all more (omega (arith, h)))
            ∙ after-retry turn conn)
        ∙ ap
            (λ (n : ℕ). record (read true n turns conn) {
              bytes = turn.ready ++ (read true n turns conn).bytes;
            })
            (omega arith)

-- A read of as many bytes as arrive gives them, and leaves the turns behind them.
pub read-Arrives :
    {bytes : Bytes} {turns : List Turn} (more : List Turn) (conn : Conn)
    → Arrives bytes turns
    → read true (length bytes) (turns ++ more) conn
      ≡ record { code = success; conn = record conn { timeouts = 0 }; rest = more; bytes = bytes }
read-Arrives more conn (whole t a h) = read-last t more conn a h true
read-Arrives more conn (part t {bytes = bytes} {turns = turns} a h rest) =
    ap (λ (n : ℕ). read true n (t ∷ (turns ++ more)) conn) (length-append t.ready bytes)
    ∙ read-part t (turns ++ more) conn a h (length bytes) (Arrives-positive rest)
    ∙ ap (λ (o : Outcome). record o { bytes = t.ready ++ o.bytes }) (read-Arrives more conn rest)
read-Arrives more conn (waits t {bytes = bytes} {turns = turns} q rest) =
    read-blocked t (turns ++ more) conn (length bytes) q ∙ read-Arrives more conn rest
