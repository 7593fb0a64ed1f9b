-- ===== src/Connection/Stream.antt =====
-- `Connection::process` of src/Connection.cpp against what it is for: it cuts a stream of bytes, which
-- arrives in any parts, into the packs that the peer wrote.
use libmumble.Prelude.{
  ℕ, suc, zero, ◌≤◌, ◌<◌, ◌≡◌, refl, ap, ◌∙◌, Bool, true, false, Option, some, arith,
}
use libmumble.Prelude.{List, [], ◌∷◌, ◌++◌, length, length-append, leb, le→leb}
use libmumble.Tcp.Fields.{Bytes}
use libmumble.Connection.Tls.{success}
use libmumble.Connection.State.{Conn, Turn, Signal, pack}
use libmumble.Connection.Loops.{Outcome, process_once}
use libmumble.Connection.Loops.{process_loop, process, again, conn_after}
use libmumble.Connection.PackTurns.{
  PackArrives, with_pack, done, process_once-PackArrives, turns-PackArrives,
}

-- One pack after the other.
pub data StreamArrives : List Bytes → List Turn → Type 0 where
  end : StreamArrives [] []
  next :
      {bytes : Bytes} {packs : List Bytes} {turns turns' : List Turn}
      → PackArrives bytes turns
      → StreamArrives packs turns'
      → StreamArrives (bytes ∷ packs) (turns ++ turns')

-- The callbacks that these packs are for, on top of the earlier ones.
unfoldable pub delivered : List Bytes → List Signal → List Signal
delivered [] signals = signals
delivered (bytes ∷ packs) signals = delivered packs (pack bytes ∷ signals)

-- The library holds another header as long as turns are left.
pub record PendsAll (pending : List Turn → ℕ) : Type 0 where
  pub more : (turn : Turn) (turns : List Turn) → 6 ≤ pending (turn ∷ turns)
  pub none_left : pending [] < 6

loop_step :
    (pending : List Turn → ℕ) (fuel : ℕ) (turns more : List Turn) (conn : Conn) (bytes rest : Bytes)
    → process_once true turns conn ≡ done bytes more conn rest
    → process_loop (suc fuel) true pending turns conn
      ≡ again success
          (leb 6 (pending more))
          (process_loop fuel true pending more (with_pack bytes conn))
          (done bytes more conn rest)
unfolding process_loop
loop_step pending fuel turns more conn bytes rest e =
    ap
      (λ (o : Outcome).
        again o.code (leb 6 (pending o.rest)) (process_loop fuel true pending o.rest o.conn) o)
      e

stop_here :
    (later : Option Outcome) (o : Outcome) (n : ℕ)
    → n < 6
    → again success (leb 6 n) later o ≡ some o
unfolding again
stop_here later o n h =
    let few : leb 6 n ≡ false = ground (arith, h) in ap (λ (b : Bool). again success b later o) few

go_on :
    (later : Option Outcome) (o : Outcome) (n : ℕ) → 6 ≤ n → again success (leb 6 n) later o ≡ later
unfolding again
go_on later o n h = ap (λ (b : Bool). again success b later o) (le→leb 6 n h)

-- A list with something in it is one that the library has something for.
pends :
    (pending : List Turn → ℕ) (turns : List Turn)
    → PendsAll pending
    → 0 < length turns
    → 6 ≤ pending turns
pends pending [] p h = ground (arith, h)
pends pending (turn ∷ turns) p h = p.more turn turns

-- All that is delivered of the packs, and the count of timeouts.
abbrev Delivers : Conn → List Bytes → Conn → Type 0
Delivers conn packs result =
    result ≡ record conn { timeouts = 0; signals = delivered packs conn.signals }

loop-StreamArrives :
    {packs : List Bytes} {turns : List Turn} (pending : List Turn → ℕ) (fuel : ℕ)
    (conn first : Conn) {bytes : Bytes} {before : List Turn}
    → PendsAll pending
    → PackArrives bytes before
    → StreamArrives packs turns
    → length (before ++ turns) < fuel
    → Delivers conn
        (bytes ∷ packs)
        (conn_after (process_loop fuel true pending (before ++ turns) conn) first)
unfolding delivered conn_after
loop-StreamArrives pending zero conn first p h s enough = absurd (ground (arith, enough))
loop-StreamArrives pending (suc fuel) conn first {bytes = bytes} {before = before} p h end enough =
    let once = process_once-PackArrives [] conn h in
    let later = process_loop fuel true pending [] (with_pack bytes conn) in
    ap (λ (o : Option Outcome). conn_after o first)
      (loop_step pending fuel (before ++ []) [] conn bytes once.0 once.1
        ∙ stop_here later (done bytes [] conn once.0) (pending []) p.none_left)
    ∙ (unfold with_pack in refl)
loop-StreamArrives pending (suc fuel) conn first {bytes = bytes} {before = before} p h
      (next {turns = turns} {turns' = turns'} h' s') enough =
    let more = turns ++ turns' in
    let once = process_once-PackArrives more conn h in
    let later = process_loop fuel true pending more (with_pack bytes conn) in
    let used = turns-PackArrives h in
    let left = turns-PackArrives h' in
    let all = length-append before more in
    let some_left : 0 < length more = ground (arith, length-append turns turns', left) in
    ap (λ (o : Option Outcome). conn_after o first)
      (loop_step pending fuel (before ++ more) more conn bytes once.0 once.1
        ∙ go_on later (done bytes more conn once.0) (pending more) (pends pending more p some_left))
    ∙ loop-StreamArrives pending fuel (with_pack bytes conn) first p h' s'
        (omega (arith, all, used, enough))
    ∙ (unfold with_pack in refl)

-- The packs that the peer wrote, however their bytes are cut into turns and whatever waits stand
-- between them, are delivered whole, once and in order, when the library holds a header as long as
-- turns are left; nothing else of the connection changes but the count of timeouts.
pub process-StreamArrives :
    {bytes : Bytes} {packs : List Bytes} {turns : List Turn} (pending : List Turn → ℕ) (conn : Conn)
    → PendsAll pending
    → StreamArrives (bytes ∷ packs) turns
    → conn_after (process true pending turns conn) conn
      ≡ record conn { timeouts = 0; signals = delivered (bytes ∷ packs) conn.signals }
unfolding process
process-StreamArrives pending conn p (next {turns = turns} {turns' = turns'} h s) =
    loop-StreamArrives pending (suc (length (turns ++ turns'))) conn conn p h s (omega arith)
