-- ===== src/Connection/Tests.antt =====
-- Tests of the connection over a session: a handshake in two tries, a pack that arrives in parts, and
-- the peer that goes away.
use libmumble.Prelude.{ℕ, ◌≡◌, refl, true, false, none, some, List, [], ◌∷◌, length}
use libmumble.Tcp.Fields.{Bytes}
use libmumble.Connection.Tls.{no_error, want_read, disconnect, closed_by, syscall}
use libmumble.Connection.Tls.{interpret_tls_code, transfer, moved_bytes}
use libmumble.Connection.State.{Turn, Flags, opened, closed, pack, handle_code, handle_state}
use libmumble.Connection.Loops.{Outcome, read, write, process, conn_after, header_size, open_with}
use libmumble.Connection.Lifecycle.{Operation, do_open, do_process, do_handle_state}
use libmumble.Connection.Lifecycle.{operate, operate_all, new_conn, IsSound, operate_all-IsSound}
use libmumble.Connection.Transfers.{read_success, write_success}
use libmumble.Connection.Progress.{process_ends}
use libmumble.Connection.Whole.{WholePacks, operate_all-WholePacks}
use libmumble.Prelude.{◌*◌, arith}
use libmumble.Connection.Tls.{busy}
use libmumble.Connection.Arrival.{Arrives, IsQuiet, whole, part, waits}
use libmumble.Connection.PackTurns.{bare, full}
use libmumble.Connection.Stream.{StreamArrives, PendsAll, next, end, delivered}
use libmumble.Connection.Stream.{process-StreamArrives}
use libmumble.Connection.Unwaited.{process-unwaited}

abbrev quiet : Flags
quiet = record {
  triggered = false;
  in_ready = true;
  out_ready = false;
  disconnected = false;
  error = false;
}

abbrev hang_up : Flags
hang_up = record quiet { disconnected = true }

abbrev turn_of : Bytes → Turn
turn_of bytes = record { answer = no_error; ready = bytes; event = none; max_timeouts = 3 }

abbrev blocked : Turn
blocked = record { answer = want_read; ready = []; event = some quiet; max_timeouts = 3 }

abbrev nothing_pending : List Turn → ℕ
nothing_pending turns = 0

abbrev arrivals : List Turn
arrivals =
    turn_of (0 ∷ 3 ∷ 0 ∷ []) ∷ blocked ∷ turn_of (0 ∷ 0 ∷ 2 ∷ []) ∷ turn_of (8 ∷ 12 ∷ 99 ∷ []) ∷ []

abbrev session : List Operation
session =
    do_open true true (blocked ∷ turn_of [] ∷ [])
    ∷ do_process true nothing_pending arrivals
    ∷ do_handle_state hang_up
    ∷ do_handle_state hang_up
    ∷ []

session_signals :
    (operate_all session (new_conn 0)).signals
    ≡ closed ∷ pack (0 ∷ 3 ∷ 0 ∷ 0 ∷ 0 ∷ 2 ∷ 8 ∷ 12 ∷ []) ∷ opened ∷ []
unfolding operate_all new_conn operate handle_state conn_after process header_size open_with
    handle_code interpret_tls_code transfer moved_bytes
session_signals = refl

operate_all-IsSound_example : IsSound (operate_all session (new_conn 0))
operate_all-IsSound_example = operate_all-IsSound 0 session

operate_all-WholePacks_example : WholePacks (operate_all session (new_conn 0)).signals
operate_all-WholePacks_example = operate_all-WholePacks 0 session

read_success_example : length (read true 2 arrivals (new_conn 0)).bytes ≡ 2
unfolding read new_conn handle_code interpret_tls_code transfer moved_bytes
read_success_example = read_success true 2 arrivals (new_conn 0) refl

write_success_example :
    (write true
      (5 ∷ 6 ∷ 7 ∷ [])
      (turn_of (0 ∷ []) ∷ blocked ∷ turn_of (0 ∷ 0 ∷ []) ∷ [])
      (new_conn 0)).bytes
    ≡ 5 ∷ 6 ∷ 7 ∷ []
unfolding write new_conn handle_code interpret_tls_code transfer moved_bytes
write_success_example =
    write_success true (5 ∷ 6 ∷ 7 ∷ []) (turn_of (0 ∷ []) ∷ blocked ∷ turn_of (0 ∷ 0 ∷ []) ∷ [])
      (new_conn 0) refl

process_ends_example : (o : Outcome) × (process true nothing_pending arrivals (new_conn 0) ≡ some o)
process_ends_example = process_ends true nothing_pending arrivals (new_conn 0)

-- A write of no bytes is taken for the end of the connection.
empty_write : (write true [] (turn_of [] ∷ []) (new_conn 0)).code ≡ disconnect
unfolding write new_conn handle_code interpret_tls_code transfer moved_bytes
empty_write = refl

lost : closed_by (syscall false) false ≡ true
unfolding closed_by
lost = refl

-- Two packs in four parts, the first with a wait in its header.
abbrev first_pack : Bytes
first_pack = 0 ∷ 3 ∷ 0 ∷ 0 ∷ 0 ∷ 2 ∷ 8 ∷ 12 ∷ []

abbrev second_pack : Bytes
second_pack = 0 ∷ 3 ∷ 0 ∷ 0 ∷ 0 ∷ 0 ∷ []

abbrev two_packs : List Turn
two_packs =
    turn_of (0 ∷ 3 ∷ 0 ∷ [])
    ∷ blocked
    ∷ turn_of (0 ∷ 0 ∷ 2 ∷ [])
    ∷ turn_of (8 ∷ 12 ∷ [])
    ∷ turn_of second_pack
    ∷ []

two_packs_arrive : StreamArrives (first_pack ∷ second_pack ∷ []) two_packs
unfolding header_size
two_packs_arrive =
    let quiet_turn : IsQuiet blocked = record { blocked = refl; event = refl } in
    let header : Arrives (0 ∷ 3 ∷ 0 ∷ 0 ∷ 0 ∷ 2 ∷ [])
        (turn_of (0 ∷ 3 ∷ 0 ∷ []) ∷ blocked ∷ turn_of (0 ∷ 0 ∷ 2 ∷ []) ∷ []) =
      part (turn_of (0 ∷ 3 ∷ 0 ∷ [])) refl (omega arith)
        (waits blocked quiet_turn (whole (turn_of (0 ∷ 0 ∷ 2 ∷ [])) refl (omega arith))) in
    let body : Arrives (8 ∷ 12 ∷ []) (turn_of (8 ∷ 12 ∷ []) ∷ []) =
      whole (turn_of (8 ∷ 12 ∷ [])) refl (omega arith) in
    let alone : Arrives second_pack (turn_of second_pack ∷ []) =
      whole (turn_of second_pack) refl (omega arith) in
    next (full refl refl (omega arith) header body) (next (bare refl refl alone) end)

-- The library holds a header as long as turns are left.
abbrev six_each : List Turn → ℕ
six_each turns = 6 * length turns

six_each-PendsAll : PendsAll six_each
six_each-PendsAll = record { more = λ turn turns. omega arith; none_left = omega arith }

process-StreamArrives_example :
    conn_after (process true six_each two_packs (new_conn 5)) (new_conn 5)
    ≡ record (new_conn 0) { signals = pack second_pack ∷ pack first_pack ∷ [] }
unfolding delivered new_conn
process-StreamArrives_example =
    process-StreamArrives six_each (new_conn 5) six_each-PendsAll two_packs_arrive

process-unwaited_example :
    process false nothing_pending
      (turn_of (0 ∷ 3 ∷ 0 ∷ 0 ∷ 0 ∷ 2 ∷ []) ∷ blocked ∷ turn_of (8 ∷ 12 ∷ []) ∷ [])
      (new_conn 0)
    ≡ some
        (record { code = busy; conn = new_conn 0; rest = turn_of (8 ∷ 12 ∷ []) ∷ []; bytes = [] })
unfolding header_size new_conn
process-unwaited_example =
    process-unwaited (turn_of (0 ∷ 3 ∷ 0 ∷ 0 ∷ 0 ∷ 2 ∷ [])) blocked (turn_of (8 ∷ 12 ∷ []) ∷ [])
      (new_conn 0) refl refl (omega arith) (omega arith) refl nothing_pending
