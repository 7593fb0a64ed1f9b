-- ===== src/Connection/Keeps.antt =====
-- What every report and every timeout keeps is kept by the loops of src/Connection.cpp.
use libmumble.Prelude.{
  ℕ, suc, zero, ◌+◌, ◌-◌, Bool, true, ltb, leb, ◌==◌, Option, none, some, List, [], ◌∷◌, u32,
  Bool-cases, inl, inr, take, drop, length, ◌^◌, ◌++◌,
}
use libmumble.Tcp.Fields.{Bytes}
use libmumble.Connection.Tls.{Code, TlsCode}
use libmumble.Connection.Tls.{invalid, timeout}
use libmumble.Connection.Tls.{failure, success, retry, busy, disconnect}
use libmumble.Connection.Tls.{interpret_tls_code, moved_bytes, transfer}
use libmumble.Connection.State.{Conn, Turn, Flags, closed, failed, pack, report}
use libmumble.Connection.State.{
  handle_state, handle_wait, count_timeout, settle_code, conclude, handle_code,
}
use libmumble.Connection.Loops.{
  Outcome, pass, halted, read, write, process_data, process_once, process_loop, process, again,
  conn_after,
}
use libmumble.Connection.Loops.{deliver, if_success, header_size}

module _ (Inv : Conn → Type 0)
    (counts : (conn : Conn) (n : ℕ) → Inv conn → Inv (record conn { timeouts = n }))
    (closes : (conn : Conn) → Inv conn → Inv (report closed conn))
    (fails : (conn : Conn) (code : Code) → Inv conn → Inv (report (failed code) conn)) where
  pub handle_state-Inv : (flags : Flags) (conn : Conn) → Inv conn → Inv (handle_state flags conn).1
  unfolding handle_state
  handle_state-Inv flags conn i = elim (Bool-cases flags.disconnected) [
    | inl e ↦ rw e (closes conn i)
    | inr e ↦ elim (Bool-cases flags.error) [
      | inl f ↦ rw (e, f) (fails conn failure i)
      | inr f ↦ rw (e, f) i
    ]
  ]

  handle_wait-Inv : (event : Option Flags) (conn : Conn) → Inv conn → Inv (handle_wait event conn).1
  unfolding handle_wait
  handle_wait-Inv none conn i = i
  handle_wait-Inv (some flags) conn i = handle_state-Inv flags conn i

  count_timeout-Inv : (limit : ℕ) (p : Code × Conn) → Inv p.1 → Inv (count_timeout limit p).1
  unfolding count_timeout
  count_timeout-Inv limit (timeout, conn) i = counts conn (u32 (conn.timeouts + 1)) i
  count_timeout-Inv limit (code, conn) i = i

  settle_code-Inv :
      (wait : Bool) (turn : Turn) (conn : Conn) (code : Code)
      → Inv conn
      → Inv (settle_code wait turn conn code).1
  unfolding settle_code
  settle_code-Inv true turn conn busy i =
      count_timeout-Inv turn.max_timeouts (handle_wait turn.event conn)
        (handle_wait-Inv turn.event conn i)
  settle_code-Inv wait turn conn code i = i

  conclude-Inv : (p : Code × Conn) → Inv p.1 → Inv (conclude p).1
  unfolding conclude
  conclude-Inv (disconnect, conn) i = counts (report closed conn) 0 (closes conn i)
  conclude-Inv (success, conn) i = counts conn 0 i
  conclude-Inv (retry, conn) i = i
  conclude-Inv (busy, conn) i = i
  conclude-Inv (code, conn) i = fails conn code i

  pub handle_code-Inv :
      (code : TlsCode) (wait : Bool) (turn : Turn) (conn : Conn)
      → Inv conn
      → Inv (handle_code code wait turn conn).1
  unfolding handle_code
  handle_code-Inv code wait turn conn i =
      conclude-Inv (settle_code wait turn conn (interpret_tls_code code))
        (settle_code-Inv wait turn conn (interpret_tls_code code) i)

  pub pass-Inv :
      (p : Code × Conn) (rest : List Turn) (moved : Bytes) (later : Outcome)
      → Inv p.1
      → Inv later.conn
      → Inv (pass p rest moved later).conn
  unfolding pass
  pass-Inv (retry, conn) rest moved later i j = j
  pass-Inv (code, conn) rest moved later i j = i

  pub read-Inv :
      (wait : Bool) (size : ℕ) (turns : List Turn) (conn : Conn)
      → Inv conn
      → Inv (read wait size turns conn).conn
  unfolding read halted
  read-Inv wait size [] conn i = i
  read-Inv wait size (turn ∷ turns) conn i =
      let moved = moved_bytes turn.answer turn.ready size in
      let j = handle_code-Inv (transfer turn.answer (length moved) size) wait turn conn i in
      pass-Inv _ turns moved _ j (read-Inv wait (size - length moved) turns _ j)

  pub write-Inv :
      (wait : Bool) (buf : Bytes) (turns : List Turn) (conn : Conn)
      → Inv conn
      → Inv (write wait buf turns conn).conn
  unfolding write halted
  write-Inv wait buf [] conn i = i
  write-Inv wait buf (turn ∷ turns) conn i =
      let sent = length (moved_bytes turn.answer turn.ready (length buf)) in
      let j = handle_code-Inv (transfer turn.answer sent (length buf)) wait turn conn i in
      pass-Inv _ turns (take sent buf) _ j (write-Inv wait (drop sent buf) turns _ j)

  module _
      (delivers : (conn : Conn) (bytes : Bytes)
        → Inv conn
        → Inv (record conn { signals = pack bytes ∷ conn.signals })) where
    if_success-Inv :
        (code : Code) (next this : Outcome)
        → Inv next.conn
        → Inv this.conn
        → Inv (if_success code next this).conn
    unfolding if_success
    if_success-Inv success next this i j = i
    if_success-Inv code next this i j = j

    deliver-Inv : (header : Bytes) (o : Outcome) → Inv o.conn → Inv (deliver header o).conn
    unfolding deliver
    deliver-Inv header o i = delivers o.conn (header ++ o.bytes) i

    process_data-Inv : (wait : Bool) (o : Outcome) → Inv o.conn → Inv (process_data wait o).conn
    unfolding process_data
    process_data-Inv wait o i =
        let body = read wait (header_size o.bytes) o.rest o.conn in
        let j : Inv body.conn = read-Inv wait (header_size o.bytes) o.rest o.conn i in
        elim (Bool-cases (ltb (2 ^ 16 - 1) (header_size o.bytes))) [
          | inl e ↦ rw e (fails o.conn invalid i)
          | inr e ↦ elim (Bool-cases (header_size o.bytes == 0)) [
            | inl f ↦ rw (e, f) (deliver-Inv o.bytes (record o { bytes = [] }) i)
            | inr f ↦
                rw (e, f)
                  (if_success-Inv body.code (deliver o.bytes body) body (deliver-Inv o.bytes body j)
                    j)
          ]
        ]

    pub process_once-Inv :
        (wait : Bool) (turns : List Turn) (conn : Conn)
        → Inv conn
        → Inv (process_once wait turns conn).conn
    unfolding process_once
    process_once-Inv wait turns conn i =
        let j = read-Inv wait 6 turns conn i in
        if_success-Inv _ _ _ (process_data-Inv wait (read wait 6 turns conn) j) j

  module _
      (once-Inv : (wait : Bool) (turns : List Turn) (conn : Conn)
        → Inv conn
        → Inv (process_once wait turns conn).conn) where
    again-Inv :
        (code : Code) (more : Bool) (later : Option Outcome) (this : Outcome) (conn : Conn)
        → Inv (conn_after later conn)
        → Inv this.conn
        → Inv (conn_after (again code more later this) conn)
    unfolding again conn_after
    again-Inv success true later this conn i j = i
    again-Inv code more later this conn i j = j

    process_loop-Inv :
        (fuel : ℕ) (wait : Bool) (pending : List Turn → ℕ) (turns : List Turn) (conn first : Conn)
        → Inv first
        → Inv conn
        → Inv (conn_after (process_loop fuel wait pending turns conn) first)
    unfolding process_loop conn_after
    process_loop-Inv zero wait pending turns conn first i j = i
    process_loop-Inv (suc fuel) wait pending turns conn first i j =
        let once = process_once wait turns conn in
        let k : Inv once.conn = once-Inv wait turns conn j in
        again-Inv once.code (leb 6 (pending once.rest))
          (process_loop fuel wait pending once.rest once.conn) once first
          (process_loop-Inv fuel wait pending once.rest once.conn first i k) k

    pub process-Inv :
        (wait : Bool) (pending : List Turn → ℕ) (turns : List Turn) (conn : Conn)
        → Inv conn
        → Inv (conn_after (process wait pending turns conn) conn)
    unfolding process
    process-Inv wait pending turns conn i =
        process_loop-Inv (suc (length turns)) wait pending turns conn conn i i
