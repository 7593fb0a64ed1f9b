-- ===== src/Monitor/EpollTests.antt =====
-- Tests of a monitor with epoll.
use libmumble.Prelude.{true, false, some, List, [], ◌∷◌, ◌≡◌, arith}
use libmumble.Monitor.{only_triggered, Trigger, handle, is_known}
use libmumble.Monitor.Epoll.{Epoll, Target, add, new_epoll, wait, num, target_for, event_of}
use libmumble.Monitor.Buffer.{made, added, wait-Reached}

abbrev ends : Trigger
ends = record { receiver = some 3; sender = some 4 }

-- The system refuses the handle 6.
abbrev watching : Epoll
watching = (add false 6 true false (add true 5 true true (new_epoll true true ends)).1).1

-- The trigger, and a peer that has closed its end behind its last bytes.
abbrev answer : List Target
answer =
    record {
      fd = 3;
      events = record {
        is_in = true;
        is_out = false;
        is_hup = false;
        is_rdhup = false;
        is_err = false;
      };
    }
    ∷ record {
      fd = 5;
      events = record {
        is_in = true;
        is_out = true;
        is_hup = false;
        is_rdhup = true;
        is_err = false;
      };
    }
    ∷ []

wait-Reached_example :
    wait (num watching) answer watching
    ≡ record { fd = 3; state = only_triggered }
      ∷ record {
        fd = 5;
        state = record {
          triggered = false;
          in_ready = true;
          out_ready = true;
          disconnected = true;
          error = false;
        };
      }
      ∷ []
unfolding event_of handle new_epoll add is_known target_for
wait-Reached_example =
    wait-Reached {trigger = ends} answer
      (added false 6 true false (added true 5 true true (made true true))) (omega arith)
