-- ===== src/Connection/PackTurns.antt =====
-- A pack that arrives over turns, and what a pass of `Connection::process` in src/Connection.cpp comes
-- to over it.
use libmumble.Prelude.{ℕ, ◌-◌, ◌<◌, ◌^◌, ◌≡◌, refl, sym, ap, ◌∙◌, Bool, true, false, arith}
use libmumble.Prelude.{
  List, [], ◌∷◌, ◌++◌, length, append_assoc, append-nil, length-append, ltb, ◌==◌, le→ltb_false,
  if◌then◌else◌,
}
use libmumble.Tcp.Fields.{Bytes}
use libmumble.Connection.Tls.{success, invalid}
use libmumble.Connection.State.{Conn, Turn, pack, report, failed}
use libmumble.Connection.Loops.{
  Outcome, read, header_size, deliver, if_success, process_data, process_once,
}
use libmumble.Connection.Arrival.{Arrives, read-Arrives, turns-positive, Arrives-positive}

-- A pack arrives over the turns: its header, and the data behind it where there is any.
pub data PackArrives : Bytes → List Turn → Type 0 where
  bare :
      {header : Bytes} {turns : List Turn}
      → length header ≡ 6
      → header_size header ≡ 0
      → Arrives header turns
      → PackArrives header turns
  full :
      {header body : Bytes} {turns turns' : List Turn}
      → length header ≡ 6
      → header_size header ≡ length body
      → length body < 2 ^ 16
      → Arrives header turns
      → Arrives body turns'
      → PackArrives (header ++ body) (turns ++ turns')

unfoldable pub with_pack : Bytes → Conn → Conn
with_pack bytes conn = record conn { timeouts = 0; signals = pack bytes ∷ conn.signals }

-- A pass that starts with a header of this size.
once_by_header :
    (header : Bytes) (turns more : List Turn) (conn : Conn)
    → length header ≡ 6
    → Arrives header turns
    → process_once true (turns ++ more) conn
      ≡ process_data true (record {
        code = success;
        conn = record conn { timeouts = 0 };
        rest = more;
        bytes = header;
      })
once_by_header header turns more conn six h =
    let all : read true 6 (turns ++ more) conn ≡ record {
      code = success;
      conn = record conn { timeouts = 0 };
      rest = more;
      bytes = header;
    } =
      ap (λ (n : ℕ). read true n (turns ++ more) conn) (sym six) ∙ read-Arrives more conn h in
    unfold process_once if_success in
    ap (λ (o : Outcome). if_success o.code (process_data true o) o) all

-- What a pass over a pack comes to; `rest` are the bytes behind its header.
abbrev pub done : Bytes → List Turn → Conn → Bytes → Outcome
done bytes more conn rest = record {
  code = success;
  conn = with_pack bytes conn;
  rest = more;
  bytes = rest;
}

bare_data :
    (header : Bytes) (more : List Turn) (conn : Conn)
    → header_size header ≡ 0
    → process_data true (record {
      code = success;
      conn = record conn { timeouts = 0 };
      rest = more;
      bytes = header;
    })
      ≡ done (header ++ []) more conn []
unfolding process_data deliver with_pack
bare_data header more conn none = rw none refl

full_data :
    (header body : Bytes) (turns more : List Turn) (conn : Conn)
    → header_size header ≡ length body
    → length body < 2 ^ 16
    → Arrives body turns
    → process_data true (record {
      code = success;
      conn = record conn { timeouts = 0 };
      rest = turns ++ more;
      bytes = header;
    })
      ≡ done (header ++ body) more conn body
unfolding process_data deliver if_success with_pack
full_data header body turns more conn size small k =
    let start : Conn = record conn { timeouts = 0 } in
    let positive = Arrives-positive k in
    let short : ltb (2 ^ 16 - 1) (length body) ≡ false = le→ltb_false _ _ (omega (arith, small)) in
    let some_left : (length body == 0) ≡ false = ground (arith, positive) in
    let before : Outcome = record {
      code = success;
      conn = start;
      rest = turns ++ more;
      bytes = header;
    } in
    let got : ℕ → Outcome = λ n. read true n (turns ++ more) start in
    let go : Bool → Bool → Outcome → Outcome = λ late none o.
      (if late
        then record before { code = invalid; conn = report (failed invalid) start }
        else if none
        then deliver header (record before { bytes = [] })
        else if_success o.code (deliver header o) o) in
    ap (λ (n : ℕ). go (ltb (2 ^ 16 - 1) n) (n == 0) (got n)) size
    ∙ ap (λ (b : Bool). go b (length body == 0) (got (length body))) short
    ∙ ap (λ (b : Bool). go false b (got (length body))) some_left
    ∙ ap (λ (o : Outcome). go false false o) (read-Arrives more start k)

pub process_once-PackArrives :
    {bytes : Bytes} {turns : List Turn} (more : List Turn) (conn : Conn)
    → PackArrives bytes turns
    → (rest : Bytes) × (process_once true (turns ++ more) conn ≡ done bytes more conn rest)
unfolding with_pack
process_once-PackArrives more conn (bare {header = header} {turns = turns} six none h) = (
  [],
  once_by_header header turns more conn six h
      ∙ bare_data header more conn none
      ∙ ap (λ (b : Bytes). done b more conn []) (append-nil header),
)
process_once-PackArrives more conn
      (full {header = header} {body = body} {turns = turns} {turns' = turns'} six size small h k) =
    (
      body,
      ap (λ (ts : List Turn). process_once true ts conn) (append_assoc turns turns' more)
          ∙ once_by_header header turns (turns' ++ more) conn six h
          ∙ full_data header body turns' more conn size small k,
    )

pub turns-PackArrives :
    {bytes : Bytes} {turns : List Turn} → PackArrives bytes turns → 0 < length turns
turns-PackArrives (bare six none h) = turns-positive h
turns-PackArrives (full {turns = turns} {turns' = turns'} six size small h k) =
    let first = turns-positive h in ground (arith, length-append turns turns', first)
