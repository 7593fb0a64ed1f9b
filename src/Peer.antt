-- ===== src/Peer.antt =====
-- `Peer` of src/Peer.cpp: its sockets, its threads and its table of connections, over a monitor. What
-- the system answers is an argument; starting and joining a thread are single steps.
pub mod Dispatch
pub mod UdpThread
pub mod UdpDelivery
pub mod Table
pub mod Watched
pub mod Rebind
mod Tests
mod UdpTests
use libmumble.Prelude.{ℕ, Bool, true, false, Option, none, some, List, [], ◌∷◌, ◌==◌, if◌then◌else◌}
use libmumble.Connection.Tls.{Code, success, busy, failure, init, cannot_open}
use libmumble.Monitor.{handle}
use libmumble.Monitor.Watchers.{Watcher}

-- What `listen` gives, where the socket was bound.
unfoldable pub next_code : Code → Code → Code
next_code heard success = heard
next_code heard code = code

-- `m_connections`: handles and connections, which are told apart by a number.
unfoldable pub put : ℕ → ℕ → List (ℕ × ℕ) → List (ℕ × ℕ)
put fd connection [] = (fd, connection) ∷ []
put fd connection ((other, old) ∷ table) =
    if fd == other then (other, connection) ∷ table else (other, old) ∷ put fd connection table

-- The erasure of a key, which stands in the table at most once.
unfoldable pub extract : ℕ → List (ℕ × ℕ) → List (ℕ × ℕ)
extract fd [] = []
extract fd ((other, old) ∷ table) =
    let rest = extract fd table in if fd == other then rest else (other, old) ∷ rest

unfoldable pub find : ℕ → List (ℕ × ℕ) → Option ℕ
find fd [] = none
find fd ((other, connection) ∷ table) = if fd == other then some connection else find fd table

module _ (w : Watcher) where
  -- `Peer::P::Proto`; the socket is its handle.
  pub record Proto : Type 0 where
    pub monitor : w.State
    pub socket : Option ℕ
    pub has_thread : Bool
    pub is_halting : Bool

  unfoldable pub stop : Proto → Code × Proto
  stop p =
      if p.has_thread
      then (success, record p { is_halting = true; has_thread = false })
      else (success, p)

  unfoldable pub watch : Code → Bool × w.State → Proto → Code × Proto
  watch code (true, monitor) p = (code, record p { monitor = monitor })
  watch code (false, monitor) p = (failure, record p { monitor = monitor })

  -- `Proto::bind` where no thread runs, with the handle of the new socket, none where it could not be
  -- made, and what `setEndpoint` gives.
  unfoldable pub bind_idle : Option ℕ → Code → w.Ask → Proto → Code × Proto
  unfolding watch
  bind_idle none code ask p = (cannot_open, record p { socket = some (handle none) })
  bind_idle (some fd) code ask p =
      watch code (w.add ask fd p.monitor) (record p { socket = some fd })

  unfoldable pub bind : Option ℕ → Code → w.Ask → Proto → Code × Proto
  unfolding bind_idle
  bind made code ask p = if p.has_thread then (busy, p) else bind_idle made code ask p

  unfoldable pub unbind : Proto → Code × Proto
  unbind p = if p.has_thread then (busy, p) else (success, record p { socket = none })

  unfoldable pub run : Proto → Proto
  run p = record p { is_halting = false; has_thread = true }

  -- `TCP::start`, and `UDP::start`, which wants a socket.
  unfoldable pub start_tcp : Proto → Code × Proto
  unfolding run
  start_tcp p = if p.has_thread then (busy, p) else (success, run p)

  unfoldable pub start_bound : Option ℕ → Proto → Code × Proto
  unfolding run
  start_bound none p = (init, p)
  start_bound (some fd) p = (success, run p)

  unfoldable pub start_udp : Proto → Code × Proto
  unfolding start_bound
  start_udp p = if p.has_thread then (busy, p) else start_bound p.socket p

  -- `TCP::bind`.
  unfoldable pub bind_tcp : Option ℕ → Code → w.Ask → Code → Proto → Code × Proto
  unfolding bind next_code
  bind_tcp made endpoint ask heard p =
      let r = bind made endpoint ask p in (next_code heard r.0, r.1)

  -- `Peer::P::TCP`.
  pub record Tcp : Type 0 where
    pub proto : Proto
    pub connections : List (ℕ × ℕ)

  unfoldable pub new_tcp : w.State → Tcp
  new_tcp monitor = record {
    proto = record { monitor = monitor; socket = none; has_thread = false; is_halting = false };
    connections = [];
  }

  -- `Peer::addTCP`, which does not look at what the monitor answers.
  unfoldable pub add_tcp : w.Ask → ℕ → ℕ → Tcp → Code × Tcp
  unfolding put
  add_tcp ask fd connection t = (
    success,
    record {
      proto = record (t.proto) { monitor = (w.add ask fd t.proto.monitor).1 };
      connections = put fd connection t.connections;
    },
  )

  -- `Peer::delTCP`.
  unfoldable pub del_tcp : ℕ → Tcp → Code × Tcp
  unfolding extract
  del_tcp fd t = (
    success,
    record {
      proto = record (t.proto) { monitor = (w.del fd t.proto.monitor).1 };
      connections = extract fd t.connections;
    },
  )
