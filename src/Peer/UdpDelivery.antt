-- ===== src/Peer/UdpDelivery.antt =====
-- Which packets the thread of `Peer::P::UDP` in src/Peer.cpp hands to its callbacks.
use libmumble.Prelude.{
  Bool, true, false, List, [], ◌∷◌, ◌++◌, map, if◌then◌else◌, ◌≡◌, refl, ap, ◌∙◌, Bool-cases, inl,
  inr, append_assoc, All, sym,
}
use libmumble.Connection.Tls.{Code, success, failure}
use libmumble.Udp.Messages.{Ping}
use libmumble.Udp.Pack.{Protobuf}
use libmumble.Udp.Dispatch.{Callback, dispatch}
use libmumble.Peer.UdpThread.{
  UdpAct, udp_starts, asks_timeout, udp_fails, udp_stops, receives, Read, Pass, clears, read_one,
  read_packets, go_on, udp_loop, udp_thread,
}

-- Whether the thread goes on behind an answer.
unfoldable pub goes_on : Code → Bool
unfolding clears
goes_on success = true
goes_on code = clears code

-- A pass without an error, whose answers are packets or end the reading for now.
abbrev pub IsFine : Pass → Type 0
IsFine pass = (pass.flags.error ≡ false) × All (λ (r : Read). goes_on r.code ≡ true) pass.reads

-- The packets of a pass that can be read, up to the answer that ends the reading.
unfoldable pub packets_one : Code → Callback → List Callback → List Callback
packets_one success callback later = callback ∷ later
packets_one code callback later = []

unfoldable pub packets : Protobuf → Ping → List Read → List Callback
unfolding packets_one
packets pb fresh [] = []
packets pb fresh (r ∷ reads) =
    packets_one r.code (dispatch pb fresh r.buf r.size) (packets pb fresh reads)

unfoldable pub pass_packets : Protobuf → Ping → Pass → List Callback
unfolding packets
pass_packets pb fresh pass = if pass.flags.in_ready then packets pb fresh pass.reads else []

abbrev pub received : List Callback → List UdpAct
received callbacks = map (λ callback. receives callback) callbacks

-- The calls of the passes: for each packet of a pass, and for the length of the wait at its end.
unfoldable pub all_calls : Protobuf → Ping → List Pass → List UdpAct
unfolding pass_packets
all_calls pb fresh [] = []
all_calls pb fresh (pass ∷ passes) =
    received (pass_packets pb fresh pass) ++ (asks_timeout ∷ all_calls pb fresh passes)

cleared :
    (code : Code)
    → clears code ≡ true
    → ◌≡◌ {A = List UdpAct × Bool}
        (if clears code then ([], false) else (udp_fails code ∷ [], true))
        (received [], false)
cleared code h = rw h refl

read_one_fine :
    (code : Code) (now : Callback) (later : List Callback)
    → goes_on code ≡ true
    → read_one code now (received later, false) ≡ (received (packets_one code now later), false)
unfolding read_one packets_one goes_on
read_one_fine success now later h = refl
read_one_fine code now later h = cleared code h

read_fine :
    (pb : Protobuf) (fresh : Ping) (reads : List Read)
    → All (λ (r : Read). goes_on r.code ≡ true) reads
    → read_packets pb fresh reads ≡ (received (packets pb fresh reads), false)
unfolding read_packets packets
read_fine pb fresh [] h = refl
read_fine pb fresh (r ∷ reads) h =
    let now = dispatch pb fresh r.buf r.size in
    ap (λ (x : List UdpAct × Bool). read_one r.code now x) (read_fine pb fresh reads h.1)
    ∙ read_one_fine r.code now (packets pb fresh reads) h.0

pass_fine :
    (pb : Protobuf) (fresh : Ping) (pass : Pass) (later : List UdpAct)
    → All (λ (r : Read). goes_on r.code ≡ true) pass.reads
    → (if pass.flags.in_ready then go_on (read_packets pb fresh pass.reads) later else later)
      ≡ received (pass_packets pb fresh pass) ++ later
unfolding pass_packets
pass_fine pb fresh pass later h = elim (Bool-cases pass.flags.in_ready) [
  | inl e ↦ rw e (
      ap (λ (r : List UdpAct × Bool). go_on r later) (read_fine pb fresh pass.reads h)
      ∙ (unfold go_on in refl))
  | inr e ↦ rw e refl
]

udp_loop_delivers :
    (pb : Protobuf) (fresh : Ping) (passes : List Pass)
    → All IsFine passes
    → udp_loop pb fresh passes ≡ all_calls pb fresh passes ++ (udp_stops ∷ [])
unfolding udp_loop all_calls
udp_loop_delivers pb fresh [] h = refl
udp_loop_delivers pb fresh (pass ∷ passes) h =
    let here = received (pass_packets pb fresh pass) in
    let now = asks_timeout ∷ udp_loop pb fresh passes in
    let body = if pass.flags.in_ready then go_on (read_packets pb fresh pass.reads) now else now in
    ap (λ (b : Bool). if b then udp_fails failure ∷ [] else body) h.0.0
    ∙ pass_fine pb fresh pass now h.0.1
    ∙ ap (λ (l : List UdpAct). here ++ (asks_timeout ∷ l)) (udp_loop_delivers pb fresh passes h.1)
    ∙ sym (append_assoc here (asks_timeout ∷ all_calls pb fresh passes) (udp_stops ∷ []))

-- When no pass has an error and every answer to a read is a packet or ends the reading for now, as
-- where there is none: each packet that is read is handed to the callback that `dispatch` chooses, once
-- and in order, the length of the wait is asked for behind the packets of each pass, whether it had any
-- or not, and then the thread stops.
pub udp_thread_delivers :
    (pb : Protobuf) (fresh : Ping) (passes : List Pass)
    → All IsFine passes
    → udp_thread pb fresh passes ≡ udp_starts ∷ (all_calls pb fresh passes ++ (udp_stops ∷ []))
unfolding udp_thread
udp_thread_delivers pb fresh passes h =
    ap (λ (l : List UdpAct). udp_starts ∷ l) (udp_loop_delivers pb fresh passes h)
