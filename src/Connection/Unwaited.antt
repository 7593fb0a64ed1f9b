-- ===== src/Connection/Unwaited.antt =====
-- `Connection::process` of src/Connection.cpp when it does not wait, as src/Peer.cpp calls it, over a
-- pack of which only the header is there.
use libmumble.Prelude.{ℕ, suc, ◌-◌, ◌<◌, ◌^◌, ◌≡◌, refl, sym, ap, ◌∙◌, Bool, false, some, arith}
use libmumble.Prelude.{List, [], ◌∷◌, length, ltb, leb, ◌==◌, le→ltb_false, if◌then◌else◌}
use libmumble.Connection.Tls.{success, invalid, busy, no_error, want_read, moved_bytes, transfer}
use libmumble.Connection.State.{Conn, Turn, report, failed, handle_code}
use libmumble.Connection.Loops.{
  Outcome, read, header_size, deliver, if_success, process_data, process_once,
}
use libmumble.Connection.Loops.{process_loop, process, again, pass}
use libmumble.Connection.Arrival.{read-last, read_step}
use libmumble.Connection.State.{settle_code, conclude}
use libmumble.Connection.Tls.{interpret_lib_code, interpret_tls_code}

-- A read that meets an empty socket gives up, with no callback.
read-empty :
    (size : ℕ) (turn : Turn) (turns : List Turn) (conn : Conn)
    → turn.answer ≡ want_read
    → read false size (turn ∷ turns) conn
      ≡ record { code = busy; conn = conn; rest = turns; bytes = [] }
unfolding moved_bytes transfer interpret_lib_code handle_code settle_code conclude
    interpret_tls_code
read-empty size turn turns conn w =
    read_step false size turn turns conn [] (busy, conn) (rw w refl) (rw w refl)
    ∙ (unfold pass in refl)

module _ (turn empty : Turn) (turns : List Turn) (conn : Conn) (fine : turn.answer ≡ no_error)
    (six : length turn.ready ≡ 6) (more : 0 < header_size turn.ready)
    (small : header_size turn.ready < 2 ^ 16) (none : empty.answer ≡ want_read) where
  start : Conn
  start = record conn { timeouts = 0 }

  stopped : Outcome
  unfolding start
  stopped = record { code = busy; conn = start; rest = turns; bytes = [] }

  header_read :
      read false 6 (turn ∷ empty ∷ turns) conn
      ≡ record { code = success; conn = start; rest = empty ∷ turns; bytes = turn.ready }
  unfolding start
  header_read =
      ap (λ (n : ℕ). read false n (turn ∷ empty ∷ turns) conn) (sym six)
      ∙ read-last turn (empty ∷ turns) conn fine (omega (arith, six)) false

  data_missing :
      process_data false
        (record { code = success; conn = start; rest = empty ∷ turns; bytes = turn.ready })
      ≡ stopped
  unfolding process_data stopped if_success
  data_missing =
      let size = header_size turn.ready in
      let short : ltb (2 ^ 16 - 1) size ≡ false = le→ltb_false _ _ (omega (arith, small)) in
      let some_left : (size == 0) ≡ false = ground (arith, more) in
      let before : Outcome = record {
        code = success;
        conn = start;
        rest = empty ∷ turns;
        bytes = turn.ready;
      } in
      let go : Bool → Bool → Outcome → Outcome = λ late nothing o.
        (if late
          then record before { code = invalid; conn = report (failed invalid) start }
          else if nothing
          then deliver turn.ready (record before { bytes = [] })
          else if_success o.code (deliver turn.ready o) o) in
      let got = read false size (empty ∷ turns) start in
      ap (λ (b : Bool). go b (size == 0) got) short
      ∙ ap (λ (b : Bool). go false b got) some_left
      ∙ ap (λ (o : Outcome). go false false o) (read-empty size empty turns start none)

  once_stops : process_once false (turn ∷ empty ∷ turns) conn ≡ stopped
  unfolding process_once if_success
  once_stops =
      ap (λ (o : Outcome). if_success o.code (process_data false o) o) header_read ∙ data_missing

  -- Without waiting, a header whose data has not come yet is read and thrown away: processing stops
  -- with `Code::Busy`, nothing is called, and but for the count of timeouts, which is reset, the
  -- connection is as if the header had not come, so that the data is taken for the next header.
  pub process-unwaited :
      (pending : List Turn → ℕ)
      → process false pending (turn ∷ empty ∷ turns) conn
        ≡ some
            (record { code = busy; conn = record conn { timeouts = 0 }; rest = turns; bytes = [] })
  unfolding process process_loop again stopped start
  process-unwaited pending =
      ap
        (λ (o : Outcome).
          again o.code (leb 6 (pending o.rest))
            (process_loop (suc (suc (length turns))) false pending o.rest o.conn) o)
        once_stops
