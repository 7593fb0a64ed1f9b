-- ===== src/Monitor/Tests.antt =====
-- Tests of a monitor with poll.
use libmumble.Prelude.{true, false, some, [], ◌∷◌, ◌≡◌, refl}
use libmumble.Monitor.{Flags, only_triggered, Trigger, handle, is_known}
use libmumble.Monitor.Poll.{Poll, no_bits, is_ready, add, del, new_poll, wait, event_of}
use libmumble.Monitor.Sound.{IsSound, made, added, deleted, Reached-IsSound, del-add}
use libmumble.Monitor.Waits.{ready_ones, wait-ready_ones}

abbrev ends : Trigger
ends = record { receiver = some 3; sender = some 4 }

-- Two handles beside the trigger.
abbrev watching : Poll
watching = (add 6 true false (add 5 true true (new_poll ends)).1).1

Reached-IsSound_example : IsSound (del 5 watching).1
Reached-IsSound_example =
    Reached-IsSound {trigger = ends} (deleted 5 (added 6 true false (added 5 true true made)))

seven_is_deleted : del 7 (add 7 true true watching).1 ≡ (true, watching)
unfolding add new_poll is_known handle
seven_is_deleted =
    del-add 7 true true watching
      (Reached-IsSound {trigger = ends} (added 6 true false (added 5 true true made))) refl

-- The trigger and a socket have something to read, another handle has hung up, and a third nothing.
abbrev answered : Poll
answered = record {
  targets =
      record { fd = 3; events = no_bits; revents = record no_bits { is_in = true; is_out = true } }
      ∷ record { fd = 5; events = no_bits; revents = no_bits }
      ∷ record { fd = 6; events = no_bits; revents = record no_bits { is_in = true } }
      ∷ record { fd = 7; events = no_bits; revents = record no_bits { is_hup = true } }
      ∷ [];
  fds = 3 ∷ 5 ∷ 6 ∷ 7 ∷ [];
  trigger = ends;
}

abbrev quiet : Flags
quiet = record {
  triggered = false;
  in_ready = false;
  out_ready = false;
  disconnected = false;
  error = false;
}

wait-ready_ones_example :
    wait 2 3 answered
    ≡ record { fd = 3; state = only_triggered }
      ∷ record { fd = 6; state = record quiet { in_ready = true } }
      ∷ []
unfolding ready_ones is_ready event_of handle
wait-ready_ones_example = wait-ready_ones 2 3 answered refl
