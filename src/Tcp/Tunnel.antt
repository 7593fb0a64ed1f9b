-- ===== src/Tcp/Tunnel.antt =====
-- `Message::UDPTunnel` of include/mumble/Message.hpp, a UDP pack that goes over TCP, and its cases in
-- src/Pack.cpp. A copy that runs over the end of a buffer is a value of its own.
use libmumble.Prelude.{ℕ, suc, ◌+◌, ◌^◌, ◌-◌, ◌≤◌, ◌<◌, ◌≡◌, refl, Bool, true, false, not}
use libmumble.Prelude.{Option, none, some, [], ◌∷◌, ◌++◌, ap, ◌∙◌, ltb, ◌==◌, if◌then◌else◌}
use libmumble.Prelude.{
  length, replicate, u32, arith, length-append, length-replicate, lt→ltb, le→ltb_false, append-nil,
}
use libmumble.Tcp.Fields.{Bytes}
use libmumble.Tcp.Pack.{net_header, message_type, payload, parsed_size}
use libmumble.Tcp.Pack.RoundTrip.{payload-net_header, type-net_header}

pub data Result : Type 0 where
  overrun : Result
  done : Bool → Bytes → Result

-- `std::copy` of `from` to the begin of a buffer of zeros of this size.
unfoldable pub copied : ℕ → Bytes → Option Bytes
copied size from =
    if ltb size (length from) then none else some (from ++ replicate (size - length from) 0)

-- The buffer of a new `udp::Pack`.
abbrev pub new_pack : Bytes
new_pack = 255 ∷ []

unfoldable pub tunnel_pack : ℕ → Option Bytes → Result
tunnel_pack size none = overrun
tunnel_pack size (some body) = done true (net_header 1 size ++ body)

-- The case of `tcp::Pack(const Message &, extraDataSize)`, on `msg.pack.buf()`.
unfoldable pub pack_tunnel : Bytes → ℕ → Result
unfolding copied tunnel_pack
pack_tunnel packet extra =
    let size = u32 (length packet) in tunnel_pack size (copied (u32 (size + extra)) packet)

unfoldable pub tunnelled : ℕ → Option Bytes → Result
tunnelled header none = overrun
tunnelled header (some body) = done true (header ∷ body)

-- The case of `tcp::Pack::operator()`, on `data()` and the size that is left of `dataSize`.
unfoldable pub unpack_data : Bytes → ℕ → Result
unfolding copied tunnelled
unpack_data [] size = done false new_pack
unpack_data (header ∷ packet) size =
    if ltb size 1 then done false new_pack else tunnelled header (copied (size - 1) packet)

-- `operator()(Message::UDPTunnel &, dataSize)`: the answer with the pack of the message afterwards,
-- which was `old` before.
unfoldable pub unpack_tunnel : Bytes → Bytes → ℕ → Result
unfolding message_type payload parsed_size unpack_data
unpack_tunnel buf old data_size =
    if not (1 == message_type buf)
    then done false old
    else unpack_data (payload buf) (parsed_size (payload buf) data_size)

copied_exact :
    (size : ℕ) (from : Bytes)
    → length from ≤ size
    → copied size from ≡ some (from ++ replicate (size - length from) 0)
unfolding copied
copied_exact size from h = rw (le→ltb_false size (length from) h) refl

copied_overrun : (size : ℕ) (from : Bytes) → size < length from → copied size from ≡ none
unfolding copied
copied_overrun size from h = rw (lt→ltb size (length from) h) refl

-- What is read behind a header, and what of a pack that is not empty.
unpack_as :
    (body old : Bytes) (size n : ℕ)
    → unpack_tunnel (net_header 1 size ++ body) old n ≡ unpack_data body (parsed_size body n)
unfolding unpack_tunnel
unpack_as body old size n =
    rw (type-net_header 1 size body (omega arith), payload-net_header 1 size body)

unpack_body :
    (header : ℕ) (packet : Bytes) (size : ℕ)
    → 1 ≤ size
    → unpack_data (header ∷ packet) size ≡ tunnelled header (copied (size - 1) packet)
unpack_body header packet size h = unfold unpack_data in rw (le→ltb_false size 1 h)

packed_tunnel :
    (packet : Bytes) (extra : ℕ)
    → length packet + extra < 2 ^ 32
    → pack_tunnel packet extra
      ≡ done true (net_header 1 (length packet) ++ (packet ++ replicate extra 0))
packed_tunnel packet extra h =
    let size = length packet in
    let fits : u32 size ≡ size = omega (arith, h) in
    let room : u32 (size + extra) ≡ size + extra = omega (arith, h) in
    let behind : size + extra - size ≡ extra = omega arith in
    unfold pack_tunnel tunnel_pack in
    (ap (λ (s : ℕ). tunnel_pack s (copied (u32 (s + extra)) packet)) fits
      ∙ ap (λ (s : ℕ). tunnel_pack size (copied s packet)) room
      ∙ ap (λ (o : Option Bytes). tunnel_pack size o)
          (copied_exact (size + extra) packet (omega arith))
      ∙ ap (λ (n : ℕ). done true (net_header 1 size ++ (packet ++ replicate n 0))) behind)

-- A UDP pack that is packed for the tunnel is unpacked as itself with the extra bytes behind it, when
-- the size handed in is no less than that of the data and the sizes fit 32 bits.
pub unpack-pack_tunnel :
    (header : ℕ) (packet old : Bytes) (extra n : ℕ)
    → 1 + length packet + extra < 2 ^ 32
    → 1 + length packet + extra ≤ n
    → (buf : Bytes) × (pack_tunnel (header ∷ packet) extra ≡ done true buf)
      × (unpack_tunnel buf old n ≡ done true (header ∷ (packet ++ replicate extra 0)))
unpack-pack_tunnel header packet old extra n h k =
    let rest = packet ++ replicate extra 0 in
    let whole : length rest ≡ length packet + extra =
      length-append packet (replicate extra 0)
      ∙ ap (λ (m : ℕ). length packet + m) (length-replicate {A = ℕ} extra 0) in
    let size : parsed_size (header ∷ rest) n ≡ suc (length rest) =
      unfold parsed_size in ground (arith, whole, h, k) in
    let none_behind : suc (length rest) - 1 - length rest ≡ 0 = omega arith in
    (
      net_header 1 (length (header ∷ packet)) ++ (header ∷ rest),
      packed_tunnel (header ∷ packet) extra (omega (arith, h)),
      unpack_as (header ∷ rest) old (length (header ∷ packet)) n
          ∙ ap (λ (s : ℕ). unpack_data (header ∷ rest) s) size
          ∙ unpack_body header rest (suc (length rest)) (omega arith)
          ∙ (unfold tunnelled in
              (ap (λ (o : Option Bytes). tunnelled header o)
                  (copied_exact (suc (length rest) - 1) rest (omega arith))
                ∙ ap (λ (m : ℕ). done true (header ∷ (rest ++ replicate m 0))) none_behind
                ∙ ap (λ (b : Bytes). done true (header ∷ b)) (append-nil rest))),
    )

-- With a size that is not zero and below that of the data, the packet is copied over the end of the
-- buffer that was made for it.
pub unpack_tunnel_overrun :
    (header : ℕ) (packet old : Bytes) (size n : ℕ)
    → 1 ≤ n
    → n ≤ length packet
    → unpack_tunnel (net_header 1 size ++ (header ∷ packet)) old n ≡ overrun
unpack_tunnel_overrun header packet old size n h k =
    let short : parsed_size (header ∷ packet) n ≡ n = unfold parsed_size in ground (arith, h, k) in
    unpack_as (header ∷ packet) old size n
    ∙ ap (λ (s : ℕ). unpack_data (header ∷ packet) s) short
    ∙ unpack_body header packet n h
    ∙ (unfold tunnelled in
        ap (λ (o : Option Bytes). tunnelled header o)
          (copied_overrun (n - 1) packet (omega (arith, h, k))))
