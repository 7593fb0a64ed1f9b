-- ===== src/Connection/State.antt =====
-- The state of `Connection::P` in src/Connection.cpp, the callbacks that it makes, and the functions
-- that decide on them.
pub use libmumble.Monitor.{Flags}
use libmumble.Prelude.{ℕ, ◌+◌, Bool, true, ◌||◌, ltb, if◌then◌else◌}
use libmumble.Prelude.{Option, none, some, List, ◌∷◌, u32}
use libmumble.Tcp.Fields.{Bytes}
use libmumble.Connection.Tls.{Code, TlsCode, SslError, interpret_tls_code}
use libmumble.Connection.Tls.{timeout}
use libmumble.Connection.Tls.{failure, unknown, success, retry, busy, disconnect}

-- A call of `Feedback`.
pub data Signal : Type 0 where
  opened closed : Signal
  failed : Code → Signal
  pack : Bytes → Signal

-- `watched_in` and `watched_out` tell whether the socket is in `m_fds` of the two monitors. The
-- signals are what was called, the latest first.
pub record Conn : Type 0 where
  pub watched_in : Bool
  pub watched_out : Bool
  pub timeouts : ℕ
  pub is_closed : Bool
  pub signals : List Signal

-- What the surroundings do around one try of an operation: the answer of the TLS library, the bytes
-- it has ready, the event that a wait gives where there is one, and `m_feedback.timeouts()`.
pub record Turn : Type 0 where
  pub answer : SslError
  pub ready : Bytes
  pub event : Option Flags
  pub max_timeouts : ℕ

-- `if (!m_closed.test_and_set()) signal;`
unfoldable pub report : Signal → Conn → Conn
report signal conn =
    if conn.is_closed
    then conn
    else record conn { is_closed = true; signals = signal ∷ conn.signals }

unfoldable pub ready_code : Flags → Code
ready_code flags = if flags.triggered || flags.in_ready || flags.out_ready then retry else unknown

unfoldable pub handle_state : Flags → Conn → Code × Conn
unfolding report ready_code
handle_state flags conn =
    if flags.disconnected
    then (disconnect, report closed conn)
    else if flags.error
    then (failure, report (failed failure) conn)
    else (ready_code flags, conn)

unfoldable pub handle_wait : Option Flags → Conn → Code × Conn
unfolding handle_state
handle_wait none conn = (timeout, conn)
handle_wait (some flags) conn = handle_state flags conn

-- `ret == Code::Timeout && ++m_timeouts < m_feedback.timeouts()`.
unfoldable pub count_timeout : ℕ → Code × Conn → Code × Conn
count_timeout limit (timeout, conn) =
    let next = u32 (conn.timeouts + 1) in
    (if ltb next limit then retry else timeout, record conn { timeouts = next })
count_timeout limit (code, conn) = (code, conn)

-- `if (ret == Code::Busy && wait)`.
unfoldable pub settle_code : Bool → Turn → Conn → Code → Code × Conn
unfolding handle_wait count_timeout
settle_code true turn conn busy = count_timeout turn.max_timeouts (handle_wait turn.event conn)
settle_code wait turn conn code = (code, conn)

-- The `switch` of `handleCode`.
unfoldable pub conclude : Code × Conn → Code × Conn
unfolding report
conclude (disconnect, conn) = (disconnect, record (report closed conn) { timeouts = 0 })
conclude (success, conn) = (success, record conn { timeouts = 0 })
conclude (retry, conn) = (retry, conn)
conclude (busy, conn) = (busy, conn)
conclude (code, conn) = (code, report (failed code) conn)

unfoldable pub handle_code : TlsCode → Bool → Turn → Conn → Code × Conn
unfolding settle_code conclude
handle_code code wait turn conn = conclude (settle_code wait turn conn (interpret_tls_code code))
