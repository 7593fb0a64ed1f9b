-- ===== src/Monitor/Epoll.antt =====
-- `Monitor` of src/Monitor.cpp with epoll: the targets are a buffer for what the system writes. What
-- the system answers to `epoll_ctl` is an argument.
use libmumble.Prelude.{
  ℕ, suc, Bool, true, false, not, ◌||◌, ◌&&◌, List, [], ◌∷◌, ◌++◌, length, ltb, leb, ◌==◌,
  if◌then◌else◌,
}
use libmumble.Monitor.{Event, only_triggered, Trigger, handle, is_known, forget}

-- Bits of an `epoll_event`: EPOLLIN, EPOLLOUT, EPOLLHUP, EPOLLRDHUP, EPOLLERR.
pub record Bits : Type 0 where
  pub is_in : Bool
  pub is_out : Bool
  pub is_hup : Bool
  pub is_rdhup : Bool
  pub is_err : Bool

-- `epoll_event`.
pub record Target : Type 0 where
  pub fd : ℕ
  pub events : Bits

pub record Epoll : Type 0 where
  pub has_handle : Bool
  pub targets : List Target
  pub fds : List ℕ
  pub trigger : Trigger

unfoldable pub target_for : ℕ → Bool → Bool → Target
target_for fd in_ready out_ready = record {
  fd = fd;
  events = record {
    is_in = in_ready;
    is_out = out_ready;
    is_hup = false;
    is_rdhup = true;
    is_err = false;
  };
}

-- `Monitor::add`, with whether the system takes the handle.
unfoldable pub add : Bool → ℕ → Bool → Bool → Epoll → Bool × Epoll
unfolding is_known target_for
add is_taken fd in_ready out_ready m = if is_known fd m.fds || not is_taken then (false, m) else (
  true,
  record m {
    targets = m.targets ++ (target_for fd in_ready out_ready ∷ []);
    fds = m.fds ++ (fd ∷ []);
  },
)

-- `m_targets.pop_back()`.
unfoldable pub pop_back : List Target → List Target
pop_back [] = []
pop_back (target ∷ []) = []
pop_back (target ∷ next ∷ targets) = target ∷ pop_back (next ∷ targets)

-- `Monitor::del`, whatever `epoll_ctl` answers.
unfoldable pub del : ℕ → Epoll → Bool × Epoll
unfolding is_known forget pop_back
del fd m =
    if is_known fd m.fds
    then (true, record m { targets = pop_back m.targets; fds = forget fd m.fds })
    else (false, m)

-- `Monitor::Monitor`, with the answer of `epoll_create`.
unfoldable pub new_epoll : Bool → Bool → Trigger → Epoll
unfolding add handle
new_epoll has_handle is_taken trigger =
    let empty : Epoll = record {
      has_handle = has_handle;
      targets = [];
      fds = [];
      trigger = trigger;
    } in
    if has_handle then (add is_taken (handle trigger.receiver) true false empty).1 else empty

-- `Monitor::operator bool`.
unfoldable pub is_usable : Epoll → Bool
is_usable m = m.has_handle

-- `Monitor::num`.
unfoldable pub num : Epoll → ℕ
num m = length m.fds

-- What a wait makes of an event of the system.
unfoldable pub event_of : ℕ → Target → Event
event_of trigger target = record {
  fd = target.fd;
  state = if target.events.is_in && (target.fd == trigger) then only_triggered else record {
    triggered = false;
    in_ready = target.events.is_in;
    out_ready = target.events.is_out;
    disconnected = target.events.is_hup || target.events.is_rdhup;
    error = target.events.is_err;
  };
}

-- The loop of `waitEpoll`, with the size of the buffer of the caller, and the events so far.
unfoldable pub wait_loop : ℕ → ℕ → ℕ → List Target → List Event
unfolding event_of
wait_loop room trigger num [] = []
wait_loop room trigger num (target ∷ targets) =
    let rest = wait_loop room trigger (suc num) targets in
    if leb room num then [] else event_of trigger target ∷ rest

-- `Monitor::wait` with `waitEpoll`, over what the system writes into the buffer: nothing for an error.
unfoldable pub wait : ℕ → List Target → Epoll → List Event
unfolding wait_loop handle
wait room answer m =
    if room == 0
    then []
    else if ltb (length answer) 1
    then []
    else wait_loop room (handle m.trigger.receiver) 0 answer
