-- ===== src/Peer/UdpThread.antt =====
-- The thread of `Peer::P::UDP` in src/Peer.cpp, over what the socket and the monitor answer.
use libmumble.Prelude.{
  ℕ, Bool, true, false, List, [], ◌∷◌, ◌++◌, if◌then◌else◌, ◌≡◌, refl, ap, Bool-cases, inl, inr,
  All,
}
use libmumble.Tcp.Fields.{Bytes}
use libmumble.Connection.Tls.{Code, success, failure, timeout, retry, busy}
use libmumble.Monitor.{Flags}
use libmumble.Udp.Messages.{Ping}
use libmumble.Udp.Pack.{Protobuf}
use libmumble.Udp.Dispatch.{Callback, dispatch}

-- What the thread calls: `started`, `failed`, `stopped`, `timeout`, or the callback of a packet.
pub data UdpAct : Type 0 where
  udp_starts : UdpAct
  asks_timeout : UdpAct
  udp_fails : Code → UdpAct
  udp_stops : UdpAct
  receives : Callback → UdpAct

-- An answer to `read`: its code, and the buffer with the size of the packet.
pub record Read : Type 0 where
  pub code : Code
  pub buf : Bytes
  pub size : ℕ

-- `Code::Timeout`, `Code::Retry` and `Code::Busy`, which clear the event.
unfoldable pub clears : Code → Bool
clears timeout = true
clears retry = true
clears busy = true
clears code = false

-- What an answer adds to what follows it; whether the thread has returned stands beside the calls.
unfoldable pub read_one : Code → Callback → List UdpAct × Bool → List UdpAct × Bool
unfolding clears
read_one success callback later = (receives callback ∷ later.0, later.1)
read_one code callback later = if clears code then ([], false) else (udp_fails code ∷ [], true)

-- The loop over the packets that are there.
unfoldable pub read_packets : Protobuf → Ping → List Read → List UdpAct × Bool
unfolding read_one dispatch
read_packets pb fresh [] = ([], false)
read_packets pb fresh (r ∷ reads) =
    read_one r.code (dispatch pb fresh r.buf r.size) (read_packets pb fresh reads)

-- A pass of the thread: the event that the monitor gave, and what the socket then answers.
pub record Pass : Type 0 where
  pub flags : Flags
  pub reads : List Read

unfoldable pub go_on : List UdpAct × Bool → List UdpAct → List UdpAct
go_on (acts, true) later = acts
go_on (acts, false) later = acts ++ later

-- The loop of `UDP::threadFunc`, until it is halted behind these passes. The length of the wait at the
-- end of a pass is asked for.
unfoldable pub udp_loop : Protobuf → Ping → List Pass → List UdpAct
unfolding read_packets go_on
udp_loop pb fresh [] = udp_stops ∷ []
udp_loop pb fresh (pass ∷ passes) =
    let later = asks_timeout ∷ udp_loop pb fresh passes in
    if pass.flags.error
    then udp_fails failure ∷ []
    else if pass.flags.in_ready
    then go_on (read_packets pb fresh pass.reads) later
    else later

-- `UDP::threadFunc`.
unfoldable pub udp_thread : Protobuf → Ping → List Pass → List UdpAct
unfolding udp_loop
udp_thread pb fresh passes = udp_starts ∷ udp_loop pb fresh passes

-- The two calls that the thread may end with.
unfoldable pub IsEnd : UdpAct → Type 0
IsEnd (udp_fails code) = Unit
IsEnd udp_stops = Unit
IsEnd act = ⊥

-- The calls of its loop.
unfoldable pub IsMiddle : UdpAct → Type 0
IsMiddle (receives callback) = Unit
IsMiddle asks_timeout = Unit
IsMiddle act = ⊥

-- Calls of the loop, and then an end.
abbrev pub Ends : List UdpAct → Type 0
Ends acts =
    (middle : List UdpAct) × (last : UdpAct) × (acts ≡ middle ++ (last ∷ []))
    × All IsMiddle middle
    × IsEnd last

-- The start before that.
abbrev pub EndsOnce : List UdpAct → Type 0
EndsOnce acts = (rest : List UdpAct) × (acts ≡ udp_starts ∷ rest) × Ends rest

-- The loop over packets has called for packets only, or the thread has returned with an end.
abbrev Reads : List UdpAct × Bool → Type 0
Reads r = (later : List UdpAct) → Ends later → Ends (go_on r later)

last-Ends : (last : UdpAct) → IsEnd last → Ends (last ∷ [])
last-Ends last h = ([], last, refl, tt, h)

more-Ends : (act : UdpAct) (acts : List UdpAct) → IsMiddle act → Ends acts → Ends (act ∷ acts)
more-Ends act acts m h = (act ∷ h.0, h.1, ap (λ (l : List UdpAct). act ∷ l) h.2, (m, h.3), h.4)

received-Reads :
    (callback : Callback) (r : List UdpAct × Bool) → Reads r → Reads (receives callback ∷ r.0, r.1)
unfolding go_on IsMiddle
received-Reads callback (acts, true) h =
    λ later e. more-Ends (receives callback) acts tt (h later e)
received-Reads callback (acts, false) h =
    λ later e. more-Ends (receives callback) (acts ++ later) tt (h later e)

stopped-Reads :
    (code : Code) → Reads (if clears code then ([], false) else (udp_fails code ∷ [], true))
unfolding go_on IsEnd
stopped-Reads code = elim (Bool-cases (clears code)) [
  | inl e ↦ rw e (λ later h. h)
  | inr e ↦ rw e (λ later h. last-Ends (udp_fails code) tt)
]

read_one-Reads :
    (code : Code) (callback : Callback) (r : List UdpAct × Bool)
    → Reads r
    → Reads (read_one code callback r)
unfolding read_one clears
read_one-Reads success callback r h = received-Reads callback r h
read_one-Reads code callback r h = stopped-Reads code

read_packets-Reads :
    (pb : Protobuf) (fresh : Ping) (reads : List Read) → Reads (read_packets pb fresh reads)
unfolding read_packets go_on
read_packets-Reads pb fresh [] = λ later h. h
read_packets-Reads pb fresh (r ∷ reads) =
    read_one-Reads r.code (dispatch pb fresh r.buf r.size) (read_packets pb fresh reads)
      (read_packets-Reads pb fresh reads)

udp_loop-Ends :
    (pb : Protobuf) (fresh : Ping) (passes : List Pass) → Ends (udp_loop pb fresh passes)
unfolding udp_loop IsEnd IsMiddle
udp_loop-Ends pb fresh [] = last-Ends udp_stops tt
udp_loop-Ends pb fresh (pass ∷ passes) =
    let rest = udp_loop pb fresh passes in
    let later = more-Ends asks_timeout rest tt (udp_loop-Ends pb fresh passes) in
    elim (Bool-cases pass.flags.error) [
      | inl e ↦ rw e (last-Ends (udp_fails failure) tt)
      | inr e ↦ elim (Bool-cases pass.flags.in_ready) [
        | inl ready ↦
            rw (e, ready) (read_packets-Reads pb fresh pass.reads (asks_timeout ∷ rest) later)
        | inr quiet ↦ rw (e, quiet) later
      ]
    ]

-- Whatever the socket and the monitor answer, the thread calls `started` first, then callbacks of
-- packets and `timeout` only, and then, exactly once and at its end, `stopped` or `failed`.
pub udp_thread-EndsOnce :
    (pb : Protobuf) (fresh : Ping) (passes : List Pass) → EndsOnce (udp_thread pb fresh passes)
unfolding udp_thread
udp_thread-EndsOnce pb fresh passes =
    (udp_loop pb fresh passes, refl, udp_loop-Ends pb fresh passes)
