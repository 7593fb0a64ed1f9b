-- ===== src/Udp/Pack.antt =====
-- `udp::Pack` of include/mumble/Pack.hpp and src/Pack.cpp: the buffer with its header of one byte,
-- and the plain pings of clients that came before, which `legacy::udp` of include/mumble/Message.hpp
-- tells from the other packets.
use libmumble.Prelude.{ℕ, ◌+◌, ◌≤◌, ◌≡◌, ◌⊎◌}
use libmumble.Prelude.{Bool, true, false, not, ◌&&◌, Option, none, some, [], ◌∷◌, ◌++◌, ap, ◌∙◌}
use libmumble.Prelude.{leb, ◌==◌, if◌then◌else◌, length, take, drop, replicate, shr, bit_and, arith}
use libmumble.Prelude.{length-append, take-append_length, le→leb, ==-refl, length-replicate}
use libmumble.Tcp.Fields.{Bytes, value_or}
use libmumble.Tcp.Versions.{no_version, if_valid, FitsIfAny}
use libmumble.Tcp.Pack.{int_max, parsed_size}
use libmumble.Udp.Messages.{Audio, AudioProto, pack_audio, unpack_audio, read_header}
use libmumble.Udp.Messages.{Ping, PingProto, pack_ping, unpack_ping}
use libmumble.Udp.Messages.{unpack_audio-pack_audio, unpack_ping-pack_ping}

pub data Kind : Type 0 where
  audio ping : Kind

-- `udp::Message::Type`, which is also the place of the message in src/proto/MumbleUDP.proto.
unfoldable pub number : Kind → ℕ
number audio = 0
number ping = 1

abbrev pub MessageOf : Kind → Type 0
MessageOf audio = Audio
MessageOf ping = Ping

abbrev pub ProtoOf : Kind → Type 0
ProtoOf audio = AudioProto
ProtoOf ping = PingProto

-- The cases of `UDP::Pack(const Message &)`.
unfoldable pub pack_fields : (k : Kind) → MessageOf k → ProtoOf k
pack_fields audio msg = pack_audio msg
pack_fields ping msg = pack_ping msg

-- The cases of `UDP::operator()`.
unfoldable pub unpack_fields : (k : Kind) → ProtoOf k → MessageOf k → MessageOf k
unpack_fields audio proto msg = unpack_audio proto msg
unpack_fields ping proto msg = unpack_ping proto msg

pub record Protobuf : Type 0 where
  pub byte_size : (k : Kind) → ProtoOf k → ℕ
  pub serialize : (k : Kind) → ProtoOf k → ℕ → Option Bytes
  pub parse : (k : Kind) → Bytes → Option (ProtoOf k)

-- What the protobuf library promises of one of its messages, as for TCP.
pub record Carries (pb : Protobuf) (k : Kind) (proto : ProtoOf k) : Type 0 where
  pub bytes : Bytes
  pub sized : pb.byte_size k proto ≡ length bytes
  pub small : length bytes ≤ int_max
  pub written : pb.serialize k proto (length bytes) ≡ some bytes
  pub parsed : pb.parse k bytes ≡ some proto

-- `Message::type(pack)`, as a number.
unfoldable pub message_type : Bytes → ℕ
message_type (type ∷ rest) = type
message_type [] = 0

-- The type and the data where the library could write the message, else zeros.
unfoldable pub framed : ℕ → ℕ → ℕ → Option Bytes → Bytes
framed type size extra none = replicate (1 + (size + extra)) 0
framed type size extra (some bytes) = type ∷ (bytes ++ replicate extra 0)

-- The first four bytes are zero in `versionBlob`.
unfoldable pub blob_is_zero : Bytes → Bool
blob_is_zero (a ∷ b ∷ c ∷ d ∷ rest) = (a == 0) && (b == 0) && (c == 0) && (d == 0)
blob_is_zero short = false

-- `legacy::udp::isPlainPing`.
unfoldable pub is_plain_ping : Bytes → Bool
unfolding blob_is_zero
is_plain_ping packet =
    if not (length packet == 12) && not (length packet == 24) then false else blob_is_zero packet

-- `legacy::udp::type`, as a number.
unfoldable pub legacy_type : Bytes → ℕ
legacy_type (byte ∷ rest) = bit_and (shr byte 5) 7
legacy_type [] = 0

module _ (pb : Protobuf) (k : Kind) where
  serialized : ProtoOf k → Option Bytes
  serialized proto =
      let size = pb.byte_size k proto in
      if leb size int_max then pb.serialize k proto size else none

  -- `Pack(const google::protobuf::Message &, extraDataSize)`.
  unfoldable pub pack_proto : ProtoOf k → ℕ → Bytes
  unfolding serialized framed
  pack_proto proto extra = framed (number k) (pb.byte_size k proto) extra (serialized proto)

  -- `Pack(const Message &, extraDataSize)`.
  unfoldable pub pack : MessageOf k → ℕ → Bytes
  unfolding pack_proto
  pack msg extra = pack_proto (pack_fields k msg) extra

  -- `PARSE_PROTO_MESSAGE` on the first `size` bytes.
  unfoldable pub parsed : Bytes → ℕ → Option (ProtoOf k)
  parsed body size = if leb size int_max then pb.parse k (take size body) else none

  unfoldable pub answer : MessageOf k → Option (ProtoOf k) → Bool × MessageOf k
  answer msg none = (false, msg)
  answer msg (some proto) = (true, unpack_fields k proto msg)

  -- `operator()(Message &, dataSize)`: the answer, and the message as it is afterwards.
  unfoldable pub unpack : Bytes → MessageOf k → ℕ → Bool × MessageOf k
  unfolding message_type parsed answer
  unpack buf msg data_size =
      if not (number k == message_type buf)
      then (false, msg)
      else answer msg (parsed (drop 1 buf) (parsed_size (drop 1 buf) data_size))

module _ (pb : Protobuf) (k : Kind) (msg : MessageOf k) (extra : ℕ)
    (c : Carries pb k (pack_fields k msg)) where
  written : serialized pb k (pack_fields k msg) ≡ some c.bytes
  unfolding serialized
  written = rw (c.sized, le→leb _ _ c.small, c.written)

  pub packed : pack pb k msg extra ≡ number k ∷ (c.bytes ++ replicate extra 0)
  packed =
      unfold pack pack_proto framed in
      ap (λ s. framed (number k) (pb.byte_size k (pack_fields k msg)) extra s) written

  -- The size is that of the data without the extra bytes, or any larger one where there are none.
  abbrev pub SizeFits : ℕ → Type 0
  SizeFits n = (n ≡ length c.bytes) ⊎ ((extra ≡ 0) × (length c.bytes ≤ n))

  size_is_exact :
      (n : ℕ) → SizeFits n → parsed_size (c.bytes ++ replicate extra 0) n ≡ length c.bytes
  unfolding parsed_size
  size_is_exact n h =
      ground (
        arith,
        c.small,
        length-append c.bytes (replicate extra 0),
        length-replicate {A = ℕ} extra 0,
      )

  takes_body :
      (n : ℕ)
      → SizeFits n
      → parsed pb k (c.bytes ++ replicate extra 0) (parsed_size (c.bytes ++ replicate extra 0) n)
        ≡ some (pack_fields k msg)
  unfolding parsed
  takes_body n h = rw (
    size_is_exact n h,
    le→leb _ _ c.small,
    take-append_length c.bytes (replicate extra 0),
    c.parsed,
  )

  pub unpack_packed :
      (old : MessageOf k) (n : ℕ)
      → SizeFits n
      → unpack pb k (pack pb k msg extra) old n ≡ (true, unpack_fields k (pack_fields k msg) old)
  unfolding unpack answer message_type
  unpack_packed old n h =
      ap (λ (b : Bytes). unpack pb k b old n) packed ∙ rw (==-refl (number k), takes_body n h)

-- A packed audio message is unpacked with its fields, over any message: the direction stays that of
-- the old message, an absent sender comes back as 0, an unknown direction leaves the old header, and
-- the positional data is appended. The size handed in is that of the data without the extra bytes, or
-- any larger one where there are no extra bytes.
pub unpack_audio_back :
    (pb : Protobuf) (msg old : Audio) (extra : ℕ) (c : Carries pb audio (pack_fields audio msg))
    → (n : ℕ) → SizeFits pb audio msg extra c n
    → unpack pb audio (pack pb audio msg extra) old n ≡ (
      true,
      record msg {
        direction = old.direction;
        header = read_header msg old.header;
        sender_session = some (value_or msg.sender_session 0);
        positional_data = old.positional_data ++ msg.positional_data;
      },
    )
unfolding unpack_fields unpack_audio pack_fields pack_audio
unpack_audio_back pb msg old extra c n h =
    unpack_packed pb audio msg extra c old n h
    ∙ ap (λ (m : Audio). (true, m)) (unpack_audio-pack_audio msg old)

-- A packed ping is unpacked with its fields, an absent or invalid version as 0.0.0 and absent counts
-- as 0. The size handed in fits, and the version fits its parts.
pub unpack_ping_back :
    (pb : Protobuf) (msg old : Ping) (extra : ℕ) (c : Carries pb ping (pack_fields ping msg))
    → FitsIfAny msg.version
    → (n : ℕ) → SizeFits pb ping msg extra c n
    → unpack pb ping (pack pb ping msg extra) old n ≡ (
      true,
      record msg {
        version = some (value_or (if_valid msg.version) no_version);
        user_count = some (value_or msg.user_count 0);
        max_user_count = some (value_or msg.max_user_count 0);
        max_bandwidth_per_user = some (value_or msg.max_bandwidth_per_user 0);
      },
    )
unfolding unpack_fields unpack_ping pack_fields pack_ping
unpack_ping_back pb msg old extra c fits n h =
    unpack_packed pb ping msg extra c old n h
    ∙ ap (λ (m : Ping). (true, m)) (unpack_ping-pack_ping msg old fits)
