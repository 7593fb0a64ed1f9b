-- ===== src/Connection/Loops.antt =====
-- The loops of src/Connection.cpp: `P::read`, `P::write`, `operator()` and `process`.
--
-- What happens around the tries of a loop is a list of turns, one for each try. `halt()` is true
-- when no turn is left. A loop gives back the turns it has not used.
use libmumble.Prelude.{
  ℕ, zero, suc, ◌+◌, ◌-◌, ◌*◌, ◌^◌, Bool, true, false, not, ◌||◌, ltb, leb, ◌==◌, if◌then◌else◌,
}
use libmumble.Prelude.{Option, none, some, List, [], ◌∷◌, ◌++◌, length, take, drop}
use libmumble.Tcp.Fields.{Bytes}
use libmumble.Connection.Tls.{Code, interpret_lib_code, moved_bytes, transfer}
use libmumble.Connection.Tls.{failure, invalid, success, cancel, retry}
use libmumble.Connection.State.{Conn, Turn, opened, failed, pack, report, handle_code}

-- The code, the connection, the turns that are left, and the bytes that were moved.
pub record Outcome : Type 0 where
  pub code : Code
  pub conn : Conn
  pub rest : List Turn
  pub bytes : Bytes

-- The end of a pass: go on at `Code::Retry`, else return.
unfoldable pub pass : Code × Conn → List Turn → Bytes → Outcome → Outcome
pass (retry, conn) rest moved later = record later { bytes = moved ++ later.bytes }
pass (code, conn) rest moved later = record { code = code; conn = conn; rest = rest; bytes = moved }

unfoldable pub halted : Conn → Outcome
halted conn = record { code = cancel; conn = conn; rest = []; bytes = [] }

-- `P::read` into a buffer of so many bytes.
unfoldable pub read : Bool → ℕ → List Turn → Conn → Outcome
unfolding pass halted
read wait size [] conn = halted conn
read wait size (turn ∷ turns) conn =
    let moved = moved_bytes turn.answer turn.ready size in
    let step = handle_code (transfer turn.answer (length moved) size) wait turn conn in
    let later = read wait (size - length moved) turns step.1 in pass step turns moved later

-- `P::write`. Of the bytes that are ready in a turn only the number counts: so many are sent.
unfoldable pub write : Bool → Bytes → List Turn → Conn → Outcome
unfolding pass halted
write wait buf [] conn = halted conn
write wait buf (turn ∷ turns) conn =
    let sent = length (moved_bytes turn.answer turn.ready (length buf)) in
    let step = handle_code (transfer turn.answer sent (length buf)) wait turn conn in
    let later = write wait (drop sent buf) turns step.1 in pass step turns (take sent buf) later

-- `m_closed.clear(); m_feedback.opened();`
unfoldable pub start : Conn → Conn
start conn = record conn { is_closed = false; signals = opened ∷ conn.signals }

unfoldable pub started : Code × Conn → Code × Conn
unfolding start
started (success, conn) = (success, start conn)
started (code, conn) = (code, conn)

-- The loop of `Connection::operator()`.
unfoldable pub handshake : List Turn → Conn → Outcome
unfolding pass halted started
handshake [] conn = halted conn
handshake (turn ∷ turns) conn =
    let step = handle_code (interpret_lib_code turn.answer true false) true turn conn in
    let later = handshake turns step.1 in pass (started step) turns [] later

-- `Connection::operator()`. The flags tell whether the system takes the socket into the monitors;
-- a monitor refuses a socket that it has.
unfoldable pub open_with : Bool → Bool → List Turn → Conn → Outcome
unfolding handshake
open_with add_in add_out turns conn =
    let refused : Outcome = record { code = failure; conn = conn; rest = turns; bytes = [] } in
    let half = record conn { watched_in = true } in
    let both = record half { watched_out = true } in
    if conn.watched_in || not add_in
    then refused
    else if conn.watched_out || not add_out
    then record refused { conn = half }
    else handshake turns both

-- `Endian::toHost(header.size)`.
unfoldable pub header_size : Bytes → ℕ
header_size (t0 ∷ t1 ∷ a ∷ b ∷ c ∷ d ∷ rest) = a * 2 ^ 24 + b * 2 ^ 16 + c * 2 ^ 8 + d
header_size short = 0

unfoldable pub deliver : Bytes → Outcome → Outcome
deliver header outcome = record outcome {
  conn = record outcome.conn { signals = pack (header ++ outcome.bytes) ∷ outcome.conn.signals };
}

unfoldable pub if_success : Code → Outcome → Outcome → Outcome
if_success success next this = next
if_success code next this = this

-- The pass of `Connection::process` behind the header.
unfoldable pub process_data : Bool → Outcome → Outcome
unfolding read report deliver if_success
process_data wait header =
    let size = header_size header.bytes in
    let body = read wait size header.rest header.conn in
    if ltb (2 ^ 16 - 1) size
    then record header { code = invalid; conn = report (failed invalid) header.conn }
    else if size == 0
    then deliver header.bytes (record header { bytes = [] })
    else if_success body.code (deliver header.bytes body) body

unfoldable pub process_once : Bool → List Turn → Conn → Outcome
unfolding read process_data if_success
process_once wait turns conn =
    let header = read wait 6 turns conn in if_success header.code (process_data wait header) header

unfoldable pub again : Code → Bool → Option Outcome → Outcome → Option Outcome
again success true later this = later
again code more later this = some this

-- `Connection::process` with at most so many passes; `pending` is what the TLS library holds when
-- those turns are left.
unfoldable pub process_loop : ℕ → Bool → (List Turn → ℕ) → List Turn → Conn → Option Outcome
unfolding process_once again
process_loop zero wait pending turns conn = none
process_loop (suc fuel) wait pending turns conn =
    let once = process_once wait turns conn in
    let later = process_loop fuel wait pending once.rest once.conn in
    again once.code (leb 6 (pending once.rest)) later once

-- A pass that goes on has used a turn, so that these are passes enough.
unfoldable pub process : Bool → (List Turn → ℕ) → List Turn → Conn → Option Outcome
unfolding process_loop
process wait pending turns conn = process_loop (suc (length turns)) wait pending turns conn

unfoldable pub conn_after : Option Outcome → Conn → Conn
conn_after none conn = conn
conn_after (some outcome) conn = outcome.conn
