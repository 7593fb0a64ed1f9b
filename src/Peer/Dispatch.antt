-- ===== src/Peer/Dispatch.antt =====
-- What the thread of `Peer::P::TCP` in src/Peer.cpp does with an event.
use libmumble.Prelude.{
  ℕ, Bool, true, false, ◌||◌, Option, none, some, List, [], ◌∷◌, ◌==◌, if◌then◌else◌,
}
use libmumble.Connection.Tls.{Code, success, failure, timeout, cancel, retry, busy, disconnect}
use libmumble.Monitor.{Flags, Event}
use libmumble.Monitor.Watchers.{Watcher}
use libmumble.Peer.{Tcp, find}

-- What is called: `failed`, `connection` for a socket that it keeps or that is closed, and the
-- `handleState` and `process` of a connection.
pub data Act : Type 0 where
  fails : Code → Act
  takes : ℕ → Act
  closes : ℕ → Act
  handles_state : ℕ → Flags → Act
  processes : ℕ → Act

unfoldable pub is_quiet : Code → Bool
is_quiet timeout = true
is_quiet cancel = true
is_quiet retry = true
is_quiet busy = true
is_quiet disconnect = true
is_quiet code = false

-- An answer to `accept`: the code, the handle, and whether the feedback keeps it.
pub record Accepted : Type 0 where
  pub code : Code
  pub fd : ℕ
  pub is_kept : Bool

unfoldable pub offer : Accepted → Act
offer a = if a.is_kept then takes a.fd else closes a.fd

-- The loops go on as long as there are answers; the flag of the event is cleared at their end.
unfoldable pub accept_one : Code → Act → List Act → List Act
unfolding is_quiet
accept_one success now later = now ∷ later
accept_one code now later = if is_quiet code then [] else fails code ∷ []

unfoldable pub accept_all : List Accepted → List Act
unfolding accept_one offer
accept_all [] = []
accept_all (a ∷ answers) = accept_one a.code (offer a) (accept_all answers)

unfoldable pub process_one : Code → ℕ → List Act → List Act
process_one success connection later = processes connection ∷ later
process_one code connection later = processes connection ∷ []

unfoldable pub process_all : ℕ → List Code → List Act
unfolding process_one
process_all connection [] = []
process_all connection (code ∷ codes) = process_one code connection (process_all connection codes)

unfoldable pub on_listener : List Accepted → Flags → List Act
unfolding accept_all
on_listener answers flags =
    if flags.error then fails failure ∷ [] else if flags.in_ready then accept_all answers else []

unfoldable pub on_connection : List Code → Flags → Option ℕ → List Act
unfolding process_all
on_connection codes flags none = []
on_connection codes flags (some connection) =
    if flags.disconnected || flags.error
    then handles_state connection flags ∷ []
    else if flags.in_ready
    then process_all connection codes
    else []

unfoldable pub is_listener : ℕ → Option ℕ → Bool
is_listener fd none = false
is_listener fd (some socket) = fd == socket

-- The body of the loop of `TCP::threadFunc`.
unfoldable pub on_event : (w : Watcher) → List Accepted → List Code → Event → Tcp w → List Act
unfolding on_listener on_connection is_listener find
on_event w answers codes event t =
    if is_listener event.fd t.proto.socket
    then on_listener answers event.state
    else on_connection codes event.state (find event.fd t.connections)
