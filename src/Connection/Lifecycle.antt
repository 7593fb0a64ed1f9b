-- ===== src/Connection/Lifecycle.antt =====
-- The callbacks of a connection over all that can be done with it.
use libmumble.Prelude.{
  ℕ, ◌≡◌, refl, Bool, true, false, not, ◌||◌, List, [], ◌∷◌, ◌≢◌, arith, if-rule, or-false,
}
use libmumble.Tcp.Fields.{Bytes}
use libmumble.Connection.Tls.{Code, success, retry, interpret_lib_code}
use libmumble.Connection.State.{
  Conn, Turn, Flags, Signal, opened, closed, failed, pack, report, handle_state, handle_code,
}
use libmumble.Connection.Loops.{
  Outcome, pass, halted, read, write, start, started, handshake, open_with, process, conn_after,
}
use libmumble.Connection.Keeps.{
  handle_state-Inv, handle_code-Inv, read-Inv, write-Inv, process-Inv, process_once-Inv,
}

-- The callbacks but for the packs.
unfoldable pub milestones : List Signal → List Signal
milestones [] = []
milestones (pack bytes ∷ signals) = milestones signals
milestones (signal ∷ signals) = signal ∷ milestones signals

-- The flag `m_closed`, the milestones, the latest first, and whether the socket is in the monitor.
pub data Lifecycle : Bool → List Signal → Bool → Type 0 where
  before : {w : Bool} → Lifecycle true [] w
  running : Lifecycle false (opened ∷ []) true
  after_closed : Lifecycle true (closed ∷ opened ∷ []) true
  after_failed : {c : Code} → Lifecycle true (failed c ∷ opened ∷ []) true

unfoldable pub IsSound : Conn → Type 0
IsSound conn = Lifecycle conn.is_closed (milestones conn.signals) conn.watched_in

no_open : (b : Bool) → b ≡ true → b ≢ false
no_open b e f = ground arith

end_closed :
    {b w : Bool} {s : List Signal} → Lifecycle b s w → b ≡ false → Lifecycle true (closed ∷ s) w
end_closed before e = absurd (no_open true refl e)
end_closed running e = after_closed
end_closed after_closed e = absurd (no_open true refl e)
end_closed after_failed e = absurd (no_open true refl e)

end_failed :
    {b w : Bool} {s : List Signal} (c : Code)
    → Lifecycle b s w
    → b ≡ false
    → Lifecycle true (failed c ∷ s) w
end_failed c before e = absurd (no_open true refl e)
end_failed c running e = after_failed
end_failed c after_closed e = absurd (no_open true refl e)
end_failed c after_failed e = absurd (no_open true refl e)

closed-IsSound : (conn : Conn) → IsSound conn → IsSound (report closed conn)
unfolding IsSound report milestones
closed-IsSound conn h = if-rule IsSound conn.is_closed conn _ (λ e. h) (end_closed h)

failed-IsSound : (conn : Conn) (c : Code) → IsSound conn → IsSound (report (failed c) conn)
unfolding IsSound report milestones
failed-IsSound conn c h = if-rule IsSound conn.is_closed conn _ (λ e. h) (end_failed c h)

-- Nothing was called yet, and no report will be.
IsBefore : Conn → Type 0
IsBefore conn = (conn.is_closed ≡ true) × (milestones conn.signals ≡ []) × (conn.watched_in ≡ true)

before-IsSound : (conn : Conn) → IsBefore conn → IsSound conn
unfolding IsSound IsBefore
before-IsSound conn h = rw (h.0, h.1) before

started-IsSound : (conn : Conn) → IsBefore conn → IsSound (start conn)
unfolding IsSound IsBefore start milestones
started-IsSound conn h = rw (h.1, h.2) running

report-IsBefore : (signal : Signal) (conn : Conn) → IsBefore conn → IsBefore (report signal conn)
unfolding IsBefore report
report-IsBefore signal conn h =
    if-rule IsBefore conn.is_closed conn _ (λ e. h) (λ e. absurd (no_open conn.is_closed h.0 e))

not_opened : {b w : Bool} {s : List Signal} → Lifecycle b s w → w ≡ false → (b ≡ true) × (s ≡ [])
not_opened before e = (refl, refl)
not_opened running e = absurd (no_open true refl e)
not_opened after_closed e = absurd (no_open true refl e)
not_opened after_failed e = absurd (no_open true refl e)

-- The pass of a handshake over what is not open.
pass-IsSound :
    (p : Code × Conn) (rest : List Turn) (later : Outcome)
    → IsBefore p.1
    → IsSound later.conn
    → IsSound (pass (started p) rest [] later).conn
unfolding pass started
pass-IsSound (success, conn) rest later h l = started-IsSound conn h
pass-IsSound (retry, conn) rest later h l = l
pass-IsSound (code, conn) rest later h l = before-IsSound conn h

handshake-IsSound :
    (turns : List Turn) (conn : Conn) → IsBefore conn → IsSound (handshake turns conn).conn
unfolding handshake halted
handshake-IsSound [] conn h = before-IsSound conn h
handshake-IsSound (turn ∷ turns) conn h =
    let code = interpret_lib_code turn.answer true false in
    let k : IsBefore (handle_code code true turn conn).1 =
      handle_code-Inv IsBefore (λ c n i. unfold IsBefore in i) (report-IsBefore closed)
        (λ c code. report-IsBefore (failed code) c) code true turn conn h in
    pass-IsSound (handle_code code true turn conn) turns _ k (handshake-IsSound turns _ k)

pub open_with-IsSound :
    (add_in add_out : Bool) (turns : List Turn) (conn : Conn)
    → IsSound conn
    → IsSound (open_with add_in add_out turns conn).conn
unfolding open_with IsSound IsBefore
open_with-IsSound add_in add_out turns conn h =
    if-rule (λ (o : Outcome). IsSound o.conn) (conn.watched_in || not add_in) _ _ (λ e. h)
      (λ e.
        let unopened = not_opened h (or-false conn.watched_in (not add_in) e) in
        if-rule (λ (o : Outcome). IsSound o.conn) (conn.watched_out || not add_out) _ _
          (λ f. before-IsSound (record conn { watched_in = true }) (unopened.0, unopened.1, refl))
          (λ f.
            handshake-IsSound turns (record conn { watched_in = true; watched_out = true })
              (unopened.0, unopened.1, refl)))

-- All that can be done with a connection.
pub data Operation : Type 0 where
  do_open : Bool → Bool → List Turn → Operation
  do_read : Bool → ℕ → List Turn → Operation
  do_write : Bool → Bytes → List Turn → Operation
  do_process : Bool → (List Turn → ℕ) → List Turn → Operation
  do_handle_state : Flags → Operation

unfoldable pub operate : Operation → Conn → Conn
operate (do_open add_in add_out turns) conn = (open_with add_in add_out turns conn).conn
operate (do_read wait size turns) conn = (read wait size turns conn).conn
operate (do_write wait buf turns) conn = (write wait buf turns conn).conn
operate (do_process wait pending turns) conn = conn_after (process wait pending turns conn) conn
operate (do_handle_state flags) conn = (handle_state flags conn).1

unfoldable pub operate_all : List Operation → Conn → Conn
operate_all [] conn = conn
operate_all (operation ∷ operations) conn = operate_all operations (operate operation conn)

-- A connection as `P::P` leaves it. Nothing sets `m_timeouts`.
unfoldable pub new_conn : ℕ → Conn
new_conn garbage = record {
  watched_in = false;
  watched_out = false;
  timeouts = garbage;
  is_closed = true;
  signals = [];
}

deliver-IsSound :
    (conn : Conn) (bytes : Bytes)
    → IsSound conn
    → IsSound (record conn { signals = pack bytes ∷ conn.signals })
unfolding IsSound milestones
deliver-IsSound conn bytes h = h

counts-IsSound : (conn : Conn) (n : ℕ) → IsSound conn → IsSound (record conn { timeouts = n })
unfolding IsSound
counts-IsSound conn n h = h

operate-IsSound :
    (operation : Operation) (conn : Conn) → IsSound conn → IsSound (operate operation conn)
unfolding operate
operate-IsSound (do_open add_in add_out turns) conn h =
    open_with-IsSound add_in add_out turns conn h
operate-IsSound (do_read wait size turns) conn h =
    read-Inv IsSound counts-IsSound closed-IsSound failed-IsSound wait size turns conn h
operate-IsSound (do_write wait buf turns) conn h =
    write-Inv IsSound counts-IsSound closed-IsSound failed-IsSound wait buf turns conn h
operate-IsSound (do_process wait pending turns) conn h =
    process-Inv IsSound counts-IsSound closed-IsSound failed-IsSound
      (process_once-Inv IsSound counts-IsSound closed-IsSound failed-IsSound deliver-IsSound) wait
      pending turns conn h
operate-IsSound (do_handle_state flags) conn h =
    handle_state-Inv IsSound counts-IsSound closed-IsSound failed-IsSound flags conn h

all-IsSound :
    (operations : List Operation) (conn : Conn)
    → IsSound conn
    → IsSound (operate_all operations conn)
unfolding operate_all
all-IsSound [] conn h = h
all-IsSound (operation ∷ operations) conn h =
    all-IsSound operations (operate operation conn) (operate-IsSound operation conn h)

-- Whatever is done with a new connection in whatever order, and whatever the TLS library, the system
-- and the monitors answer: `opened` is called at most once, then at most one of `closed` and
-- `failed`, never before it; and the flag `m_closed` is clear exactly between the two.
pub operate_all-IsSound :
    (garbage : ℕ) (operations : List Operation)
    → IsSound (operate_all operations (new_conn garbage))
operate_all-IsSound garbage operations =
    all-IsSound operations (new_conn garbage) (unfold IsSound new_conn milestones in before)
