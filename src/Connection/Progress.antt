-- ===== src/Connection/Progress.antt =====
-- `Connection::process` of src/Connection.cpp: its loop comes to an end, and what it delivers is whole.
use libmumble.Prelude.{ℕ, suc, zero, ◌-◌, ◌^◌, ◌≤◌, ◌<◌, ◌≡◌, refl, Bool, true, ltb, leb, ◌==◌}
use libmumble.Prelude.{Option, some, List, [], ◌∷◌, length, arith, if-rule}
use libmumble.Tcp.Fields.{Bytes}
use libmumble.Connection.Tls.{Code, moved_bytes, transfer}
use libmumble.Connection.Tls.{invalid}
use libmumble.Connection.Tls.{success, retry}
use libmumble.Connection.State.{Conn, Turn, failed, report, handle_code}
use libmumble.Connection.Loops.{
  Outcome, pass, halted, read, process_data, process_once, process_loop, process, again,
}
use libmumble.Connection.Loops.{deliver, if_success, header_size}
use libmumble.Connection.Transfers.{is_success, not_true}

le_refl : (n : ℕ) → n ≤ n
le_refl n = omega arith

pass-rest :
    (p : Code × Conn) (rest : List Turn) (moved : Bytes) (later : Outcome)
    → length later.rest ≤ length rest
    → length (pass p rest moved later).rest ≤ length rest
unfolding pass
pass-rest (retry, conn) rest moved later h = h
pass-rest (code, conn) rest moved later h = ground arith

read-rest :
    (wait : Bool) (size : ℕ) (turns : List Turn) (conn : Conn)
    → length (read wait size turns conn).rest ≤ length turns
unfolding read halted
read-rest wait size [] conn = ground arith
read-rest wait size (turn ∷ turns) conn =
    let moved = moved_bytes turn.answer turn.ready size in
    let step = handle_code (transfer turn.answer (length moved) size) wait turn conn in
    let later = read wait (size - length moved) turns step.1 in
    let kept =
      pass-rest step turns moved later (read-rest wait (size - length moved) turns step.1) in
    ground (arith, kept)

-- A read that succeeds has used a turn.
read-used :
    (wait : Bool) (size : ℕ) (turns : List Turn) (conn : Conn)
    → is_success (read wait size turns conn).code ≡ true
    → length (read wait size turns conn).rest < length turns
unfolding read halted is_success
read-used wait size [] conn h = absurd (not_true h)
read-used wait size (turn ∷ turns) conn h =
    let moved = moved_bytes turn.answer turn.ready size in
    let step = handle_code (transfer turn.answer (length moved) size) wait turn conn in
    let later = read wait (size - length moved) turns step.1 in
    let kept =
      pass-rest step turns moved later (read-rest wait (size - length moved) turns step.1) in
    ground (arith, kept)

if_success-rest :
    (code : Code) (next this : Outcome) (n : ℕ)
    → length next.rest ≤ n
    → length this.rest ≤ n
    → length (if_success code next this).rest ≤ n
unfolding if_success
if_success-rest success next this n h k = h
if_success-rest code next this n h k = k

process_data-rest : (wait : Bool) (o : Outcome) → length (process_data wait o).rest ≤ length o.rest
unfolding process_data deliver
process_data-rest wait o =
    let body = read wait (header_size o.bytes) o.rest o.conn in
    let kept = read-rest wait (header_size o.bytes) o.rest o.conn in
    let Fits : Outcome → Type 0 = λ r. length r.rest ≤ length o.rest in
    let late : Outcome = record o { code = invalid; conn = report (failed invalid) o.conn } in
    if-rule Fits (ltb (2 ^ 16 - 1) (header_size o.bytes)) late _ (λ e. le_refl (length o.rest))
      (λ e.
        if-rule Fits (header_size o.bytes == 0) (deliver o.bytes (record o { bytes = [] })) _
          (λ f. le_refl (length o.rest))
          (λ f. if_success-rest body.code (deliver o.bytes body) body (length o.rest) kept kept))

if_success-used :
    (code : Code) (next this : Outcome) (n : ℕ)
    → (is_success code ≡ true → length this.rest < n)
    → (is_success this.code ≡ true → length this.rest < n)
    → length next.rest ≤ length this.rest
    → is_success (if_success code next this).code ≡ true
    → length (if_success code next this).rest < n
unfolding if_success is_success
if_success-used success next this n used own fits h = let less = used refl in ground arith
if_success-used code next this n used own fits h = own h

process_once-used :
    (wait : Bool) (turns : List Turn) (conn : Conn)
    → is_success (process_once wait turns conn).code ≡ true
    → length (process_once wait turns conn).rest < length turns
unfolding process_once
process_once-used wait turns conn h =
    let header = read wait 6 turns conn in
    if_success-used header.code (process_data wait header) header (length turns)
      (read-used wait 6 turns conn) (read-used wait 6 turns conn) (process_data-rest wait header) h

again-some :
    (code : Code) (more : Bool) (later : Option Outcome) (this : Outcome)
    → (is_success code ≡ true → (o : Outcome) × (later ≡ some o))
    → (o : Outcome) × (again code more later this ≡ some o)
unfolding again is_success
again-some success true later this h = h refl
again-some code more later this h = (this, refl)

process_loop-ends :
    (fuel : ℕ) (wait : Bool) (pending : List Turn → ℕ) (turns : List Turn) (conn : Conn)
    → length turns < fuel
    → (o : Outcome) × (process_loop fuel wait pending turns conn ≡ some o)
unfolding process_loop
process_loop-ends zero wait pending turns conn h = absurd (ground arith)
process_loop-ends (suc fuel) wait pending turns conn h =
    let once = process_once wait turns conn in
    again-some once.code (leb 6 (pending once.rest)) _ once (λ e.
      let used = process_once-used wait turns conn e in
      process_loop-ends fuel wait pending once.rest once.conn (ground (arith, used, h)))

-- Processing comes to an end over any turns, whatever is pending.
pub process_ends :
    (wait : Bool) (pending : List Turn → ℕ) (turns : List Turn) (conn : Conn)
    → (o : Outcome) × (process wait pending turns conn ≡ some o)
unfolding process
process_ends wait pending turns conn =
    process_loop-ends (suc (length turns)) wait pending turns conn (omega arith)
