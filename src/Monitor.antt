-- ===== src/Monitor.antt =====
-- `Monitor` of src/Monitor.cpp, where the system has poll and where it has epoll.
--
-- A handle is the bits of an `int32_t` as a number. `m_fds` is a list in the order of the insertions.
pub mod Poll
pub mod Epoll
pub mod Sound
pub mod Watchers
pub mod Waits
pub mod Buffer
mod Tests
mod EpollTests
use libmumble.Prelude.{
  leb, ℕ, zero, suc, ◌-◌, ◌^◌, Bool, true, false, ◌||◌, Option, none, some, List, [], ◌∷◌, ◌++◌,
  ◌==◌, if◌then◌else◌,
}

-- `Monitor::Event::State`, a flag for each bit.
pub record Flags : Type 0 where
  pub triggered : Bool
  pub in_ready : Bool
  pub out_ready : Bool
  pub disconnected : Bool
  pub error : Bool

-- `Monitor::Event`.
pub record Event : Type 0 where
  pub fd : ℕ
  pub state : Flags

-- `Event::State::Triggered` alone.
abbrev pub only_triggered : Flags
only_triggered = record {
  triggered = true;
  in_ready = false;
  out_ready = false;
  disconnected = false;
  error = false;
}

-- The two ends of the local sockets: none is one that could not be made.
pub record Trigger : Type 0 where
  pub receiver : Option ℕ
  pub sender : Option ℕ

-- `Socket::handle`, with `Socket::invalidHandle`.
unfoldable pub handle : Option ℕ → ℕ
handle none = 2 ^ 32 - 1
handle (some fd) = fd

-- `m_fds.find(fd) != m_fds.cend()`.
unfoldable pub is_known : ℕ → List ℕ → Bool
is_known fd [] = false
is_known fd (other ∷ fds) = (fd == other) || is_known fd fds

-- `m_fds.erase(fd)`.
unfoldable pub forget : ℕ → List ℕ → List ℕ
forget fd [] = []
forget fd (other ∷ fds) = if fd == other then fds else other ∷ forget fd fds

-- `Monitor::trigger` and `untrigger`, over how many bytes the system sends or receives, 0 for an error.
unfoldable pub moves_byte : Option ℕ → ℕ → Bool
moves_byte none moved = false
moves_byte (some fd) moved = leb 1 moved

unfoldable pub trigger : ℕ → Trigger → Bool
unfolding moves_byte
trigger moved ends = moves_byte ends.sender moved

unfoldable pub untrigger : ℕ → Trigger → Bool
unfolding moves_byte
untrigger moved ends = moves_byte ends.receiver moved
