-- ===== src/Peer/Tests.antt =====
-- Tests of a peer.
use libmumble.Prelude.{true, false, some, [], ◌∷◌, ◌≡◌, ◌⊎◌, refl}
use libmumble.Connection.Tls.{success, failure}
use libmumble.Monitor.{Trigger, is_known, handle}
use libmumble.Monitor.Poll.{new_poll}
use libmumble.Monitor.Poll
use libmumble.Monitor.Epoll.{Epoll, new_epoll}
use libmumble.Monitor.Epoll
use libmumble.Monitor.Watchers.{poll_watcher, epoll_watcher}
use libmumble.Peer.{Proto, Tcp, new_tcp, bind_tcp, unbind, add_tcp, del_tcp, find}
use libmumble.Peer.Watched.{or_refused, is_there, made, joined, left, Reached-IsWatched}
use libmumble.Peer.Rebind.{bind_tcp-unbind}

abbrev ends : Trigger
ends = record { receiver = some 3; sender = some 4 }

abbrev idle : Proto poll_watcher
idle = (new_tcp poll_watcher (new_poll ends)).proto

bind_tcp-unbind_example :
    (first : Proto poll_watcher) × (second : Proto poll_watcher) × (bind_tcp poll_watcher
        (some 5)
        success
        tt
        success
        idle
      ≡ (success, first))
    × (unbind poll_watcher first ≡ (success, second))
    × ((bind_tcp poll_watcher (some 5) success tt success second).0 ≡ failure)
unfolding new_tcp new_poll Poll.add is_known handle
bind_tcp-unbind_example = bind_tcp-unbind poll_watcher tt tt 5 idle refl refl

abbrev watching : Epoll
watching = new_epoll true true ends

-- Two connections, of which the system refuses to watch the second, and another that leaves.
abbrev busy_peer : Tcp epoll_watcher
busy_peer =
    (del_tcp epoll_watcher 8
      (add_tcp epoll_watcher false 9 3
        (add_tcp epoll_watcher true 7 1
          (add_tcp epoll_watcher true 8 2 (new_tcp epoll_watcher watching)).1).1).1).1

Reached-IsWatched_example :
    is_known 9 busy_peer.proto.monitor.fds ≡ true ⊎ is_known 9 (9 ∷ []) ≡ true
unfolding del_tcp add_tcp new_tcp find or_refused is_there Epoll.add new_epoll
Reached-IsWatched_example =
    Reached-IsWatched epoll_watcher {initial = watching}
      (left 8 (joined false 9 3 (joined true 7 1 (joined true 8 2 made)))) 9 3 refl

-- The table has a connection that the monitor does not know.
refused_is_unwatched :
    (is_known 9 busy_peer.proto.monitor.fds ≡ false) × (find 9 busy_peer.connections ≡ some 3)
unfolding del_tcp add_tcp new_tcp find new_epoll Epoll.add Epoll.del is_known handle
refused_is_unwatched = (refl, refl)
