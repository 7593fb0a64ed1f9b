-- ===== src/Monitor/Poll.antt =====
-- `Monitor` of src/Monitor.cpp with poll: the list of targets is what the system is asked to watch.
use libmumble.Prelude.{
  ℕ, suc, Bool, true, false, ◌||◌, ◌&&◌, List, [], ◌∷◌, ◌++◌, length, ltb, leb, ◌==◌, if◌then◌else◌,
}
use libmumble.Monitor.{Event, only_triggered, Trigger, handle, is_known, forget}

-- Bits of a `pollfd`: POLLIN, POLLOUT, POLLHUP, POLLERR, and whether another is set.
pub record Bits : Type 0 where
  pub is_in : Bool
  pub is_out : Bool
  pub is_hup : Bool
  pub is_err : Bool
  pub is_other : Bool

abbrev pub no_bits : Bits
no_bits = record { is_in = false; is_out = false; is_hup = false; is_err = false; is_other = false }

-- `pollfd`.
pub record Target : Type 0 where
  pub fd : ℕ
  pub events : Bits
  pub revents : Bits

-- The state; the targets stand with what the last call of the system wrote into them.
pub record Poll : Type 0 where
  pub targets : List Target
  pub fds : List ℕ
  pub trigger : Trigger

unfoldable pub target_for : ℕ → Bool → Bool → Target
target_for fd in_ready out_ready = record {
  fd = fd;
  events = record no_bits { is_in = in_ready; is_out = out_ready };
  revents = no_bits;
}

-- `Monitor::add`.
unfoldable pub add : ℕ → Bool → Bool → Poll → Bool × Poll
unfolding is_known target_for
add fd in_ready out_ready m = if is_known fd m.fds then (false, m) else (
  true,
  record m {
    targets = m.targets ++ (target_for fd in_ready out_ready ∷ []);
    fds = m.fds ++ (fd ∷ []);
  },
)

-- The erasure of the first target of this handle.
unfoldable pub drop_target : ℕ → List Target → List Target
drop_target fd [] = []
drop_target fd (target ∷ targets) =
    if target.fd == fd then targets else target ∷ drop_target fd targets

-- `Monitor::del`.
unfoldable pub del : ℕ → Poll → Bool × Poll
unfolding is_known forget drop_target
del fd m =
    if is_known fd m.fds
    then (true, record m { targets = drop_target fd m.targets; fds = forget fd m.fds })
    else (false, m)

-- `Monitor::Monitor`.
unfoldable pub new_poll : Trigger → Poll
unfolding add handle
new_poll trigger =
    (add (handle trigger.receiver) true false
      (record { targets = []; fds = []; trigger = trigger })).1

-- `Monitor::num`.
unfoldable pub num : Poll → ℕ
num m = length m.fds

-- `target.revents` is not zero.
unfoldable pub is_ready : Target → Bool
is_ready target =
    target.revents.is_in || target.revents.is_out || target.revents.is_hup || target.revents.is_err
    || target.revents.is_other

-- What a wait makes of a target, with a call of `untrigger` where it is triggered; the trigger is told by its handle.
unfoldable pub event_of : ℕ → Target → Event
event_of trigger target = record {
  fd = target.fd;
  state = if target.revents.is_in && (target.fd == trigger) then only_triggered else record {
    triggered = false;
    in_ready = target.revents.is_in;
    out_ready = target.revents.is_out;
    disconnected = target.revents.is_hup;
    error = target.revents.is_err;
  };
}

-- The loop of `waitPoll`, with the size of the buffer, the answer of the system, and the events so far.
unfoldable pub wait_loop : ℕ → ℕ → ℕ → ℕ → List Target → List Event
unfolding is_ready event_of
wait_loop room ret trigger num [] = []
wait_loop room ret trigger num (target ∷ targets) =
    let rest = wait_loop room ret trigger (if is_ready target then suc num else num) targets in
    if leb room num || leb ret num
    then []
    else if is_ready target
    then event_of trigger target ∷ rest
    else rest

-- `Monitor::wait` with `waitPoll`, over what the system answers, 0 for an error, and writes into the
-- targets.
unfoldable pub wait : ℕ → ℕ → Poll → List Event
unfolding wait_loop handle
wait room ret m =
    if room == 0
    then []
    else if ltb ret 1
    then []
    else wait_loop room ret (handle m.trigger.receiver) 0 m.targets

-- `untrigger` is called once for each of these.
unfoldable pub untriggers : List Event → ℕ
untriggers [] = 0
untriggers (event ∷ events) =
    if event.state.triggered then suc (untriggers events) else untriggers events
