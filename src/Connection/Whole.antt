-- ===== src/Connection/Whole.antt =====
-- The packs that src/Connection.cpp delivers: none is cut, and none is longer than its header says.
use libmumble.Prelude.{ℕ, ◌+◌, ◌-◌, ◌^◌, ◌<◌, ◌≡◌, refl, Bool, true, false, not, ltb, ◌==◌, ◌||◌}
use libmumble.Prelude.{List, [], ◌∷◌, ◌++◌, length, arith, length-append, if-rule}
use libmumble.Tcp.Fields.{Bytes}
use libmumble.Connection.Tls.{Code, success, invalid, interpret_lib_code}
use libmumble.Connection.State.{Conn, Turn, Signal, closed, failed, pack, report, handle_code}
use libmumble.Connection.Loops.{
  Outcome, halted, read, start, started, handshake, open_with, process_data, process_once,
}
use libmumble.Connection.Loops.{deliver, if_success, header_size}
use libmumble.Connection.Keeps.{
  handle_state-Inv, handle_code-Inv, pass-Inv, read-Inv, write-Inv, process-Inv,
}
use libmumble.Connection.Transfers.{is_success, read-whole}
use libmumble.Connection.Lifecycle.{Operation, operate, operate_all, new_conn}
use libmumble.Connection.Lifecycle.{do_open, do_read, do_write, do_process, do_handle_state}

-- A header of six bytes and the data whose size it gives, at most 65535 bytes.
unfoldable pub IsWhole : Bytes → Type 0
IsWhole bytes = (length bytes ≡ 6 + header_size bytes) × (header_size bytes < 2 ^ 16)

-- Every pack among the callbacks is whole.
unfoldable pub WholePacks : List Signal → Type 0
unfolding IsWhole
WholePacks [] = Unit {0}
WholePacks (pack bytes ∷ signals) = IsWhole bytes × WholePacks signals
WholePacks (signal ∷ signals) = WholePacks signals

abbrev Delivered : Conn → Type 0
Delivered conn = WholePacks conn.signals

closed-Delivered : (conn : Conn) → Delivered conn → Delivered (report closed conn)
unfolding report WholePacks
closed-Delivered conn h = if-rule Delivered conn.is_closed conn _ (λ e. h) (λ e. h)

failed-Delivered : (conn : Conn) (c : Code) → Delivered conn → Delivered (report (failed c) conn)
unfolding report WholePacks
failed-Delivered conn c h = if-rule Delivered conn.is_closed conn _ (λ e. h) (λ e. h)

counts-Delivered : (conn : Conn) (n : ℕ) → Delivered conn → Delivered (record conn { timeouts = n })
counts-Delivered conn n h = h

-- The header is the first six bytes of the pack.
header_size-append :
    (header body : Bytes) → length header ≡ 6 → header_size (header ++ body) ≡ header_size header
unfolding header_size
header_size-append [] body h = ground arith
header_size-append (a ∷ []) body h = ground arith
header_size-append (a ∷ b ∷ []) body h = ground arith
header_size-append (a ∷ b ∷ c ∷ []) body h = ground arith
header_size-append (a ∷ b ∷ c ∷ d ∷ []) body h = ground arith
header_size-append (a ∷ b ∷ c ∷ d ∷ e ∷ []) body h = ground arith
header_size-append (a ∷ b ∷ c ∷ d ∷ e ∷ f ∷ rest) body h = refl

append-IsWhole :
    (header body : Bytes)
    → length header ≡ 6
    → length body ≡ header_size header
    → header_size header < 2 ^ 16
    → IsWhole (header ++ body)
unfolding IsWhole
append-IsWhole header body h k small =
    let same = header_size-append header body h in
    (ground (arith, length-append header body, h, k, same), ground (arith, same, small))

deliver-Delivered :
    (header : Bytes) (o : Outcome)
    → IsWhole (header ++ o.bytes)
    → Delivered o.conn
    → Delivered (deliver header o).conn
unfolding deliver WholePacks
deliver-Delivered header o whole h = (whole, h)

if_success-Delivered :
    (code : Code) (next this : Outcome)
    → (is_success code ≡ true → Delivered next.conn)
    → Delivered this.conn
    → Delivered (if_success code next this).conn
unfolding if_success is_success
if_success-Delivered success next this f h = f refl
if_success-Delivered code next this f h = h

process_data-Delivered :
    (wait : Bool) (o : Outcome)
    → length o.bytes ≡ 6
    → Delivered o.conn
    → Delivered (process_data wait o).conn
unfolding process_data
process_data-Delivered wait o six h =
    let size = header_size o.bytes in
    let body = read wait size o.rest o.conn in
    let kept : Delivered body.conn =
      read-Inv Delivered counts-Delivered closed-Delivered failed-Delivered wait size o.rest o.conn
        h in
    let Fine : Outcome → Type 0 = λ r. Delivered r.conn in
    let late : Outcome = record o { code = invalid; conn = report (failed invalid) o.conn } in
    if-rule Fine (ltb (2 ^ 16 - 1) size) late _ (λ e. failed-Delivered o.conn invalid h)
      (λ e.
        if-rule Fine (size == 0) (deliver o.bytes (record o { bytes = [] })) _
          (λ f.
            deliver-Delivered o.bytes (record o { bytes = [] })
              (append-IsWhole o.bytes [] six (ground arith) (ground arith)) h)
          (λ f.
            if_success-Delivered body.code (deliver o.bytes body) body
              (λ done.
                deliver-Delivered o.bytes body
                  (append-IsWhole o.bytes body.bytes six (read-whole wait size o.rest o.conn done)
                    (ground arith))
                  kept)
              kept))

process_once-Delivered :
    (wait : Bool) (turns : List Turn) (conn : Conn)
    → Delivered conn
    → Delivered (process_once wait turns conn).conn
unfolding process_once
process_once-Delivered wait turns conn h =
    let header = read wait 6 turns conn in
    let kept : Delivered header.conn =
      read-Inv Delivered counts-Delivered closed-Delivered failed-Delivered wait 6 turns conn h in
    if_success-Delivered header.code (process_data wait header) header
      (λ done. process_data-Delivered wait header (read-whole wait 6 turns conn done) kept) kept

started-Delivered : (p : Code × Conn) → Delivered p.1 → Delivered (started p).1
unfolding started start WholePacks
started-Delivered (success, conn) h = h
started-Delivered (code, conn) h = h

handshake-Delivered :
    (turns : List Turn) (conn : Conn) → Delivered conn → Delivered (handshake turns conn).conn
unfolding handshake halted
handshake-Delivered [] conn h = h
handshake-Delivered (turn ∷ turns) conn h =
    let code = interpret_lib_code turn.answer true false in
    let step = handle_code code true turn conn in
    let k : Delivered step.1 =
      handle_code-Inv Delivered counts-Delivered closed-Delivered failed-Delivered code true turn
        conn h in
    pass-Inv Delivered counts-Delivered closed-Delivered failed-Delivered (started step) turns [] _
      (started-Delivered step k) (handshake-Delivered turns step.1 k)

open_with-Delivered :
    (add_in add_out : Bool) (turns : List Turn) (conn : Conn)
    → Delivered conn
    → Delivered (open_with add_in add_out turns conn).conn
unfolding open_with
open_with-Delivered add_in add_out turns conn h =
    let Fine : Outcome → Type 0 = λ r. Delivered r.conn in
    if-rule Fine (conn.watched_in || not add_in) _ _ (λ e. h)
      (λ e.
        if-rule Fine (conn.watched_out || not add_out) _ _ (λ f. h)
          (λ f.
            handshake-Delivered turns (record conn { watched_in = true; watched_out = true }) h))

operate-Delivered :
    (operation : Operation) (conn : Conn) → Delivered conn → Delivered (operate operation conn)
unfolding operate
operate-Delivered (do_open add_in add_out turns) conn h =
    open_with-Delivered add_in add_out turns conn h
operate-Delivered (do_read wait size turns) conn h =
    read-Inv Delivered counts-Delivered closed-Delivered failed-Delivered wait size turns conn h
operate-Delivered (do_write wait buf turns) conn h =
    write-Inv Delivered counts-Delivered closed-Delivered failed-Delivered wait buf turns conn h
operate-Delivered (do_process wait pending turns) conn h =
    process-Inv Delivered counts-Delivered closed-Delivered failed-Delivered process_once-Delivered
      wait pending turns conn h
operate-Delivered (do_handle_state flags) conn h =
    handle_state-Inv Delivered counts-Delivered closed-Delivered failed-Delivered flags conn h

all-Delivered :
    (operations : List Operation) (conn : Conn)
    → Delivered conn
    → Delivered (operate_all operations conn)
unfolding operate_all
all-Delivered [] conn h = h
all-Delivered (operation ∷ operations) conn h =
    all-Delivered operations (operate operation conn) (operate-Delivered operation conn h)

-- Whatever is done with a new connection, every pack that it delivers has a header of six bytes and
-- exactly the data whose size the header gives, at most 65535 bytes.
pub operate_all-WholePacks :
    (garbage : ℕ) (operations : List Operation)
    → WholePacks (operate_all operations (new_conn garbage)).signals
operate_all-WholePacks garbage operations =
    all-Delivered operations (new_conn garbage) (unfold new_conn WholePacks in tt)
