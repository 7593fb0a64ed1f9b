-- ===== src/Tcp/Pack.antt =====
-- `tcp::Pack` of include/mumble/Pack.hpp and src/Pack.cpp for the kinds that go through the protobuf
-- library: the buffer with its header, `Pack(const Message &)` and `operator()`.
--
-- The host is little-endian, so that `Endian::toNetwork` puts the high byte first in memory. The
-- protobuf library is a parameter: `serialize` is `SerializeToArray` into so many bytes, and
-- `parse` is `ParseFromArray`; both give none where they report failure.
pub mod RoundTrip
use libmumble.Prelude.{ℕ, ◌+◌, ◌*◌, ◌/◌, ◌%◌, ◌^◌, ◌-◌, ◌≤◌, ◌<◌, ◌≡◌, refl, ◌≢◌, ◌⊎◌, inl, inr}
use libmumble.Prelude.{Bool, true, false, not, Option, none, some, List, [], ◌∷◌, ◌++◌}
use libmumble.Prelude.{ltb, leb, ◌==◌, if◌then◌else◌, length, take, drop, replicate, u32, arith}
use libmumble.Prelude.{length-append, take-append_length, take-all, append-nil, le→leb}
use libmumble.Tcp.Fields.{Bytes}
use libmumble.Tcp.Externals.{Externals}
use libmumble.Tcp.Kinds.{Kind, MessageOf, ProtoOf, fresh, index, index-injective}
use libmumble.Tcp.Cases.{pack_fields, unpack_fields, received, VersionsFit}
use libmumble.Tcp.Cases.{unpack_fields-pack_fields}

abbrev pub int_max : ℕ
int_max = 2 ^ 31 - 1

-- The six bytes of `tcp::NetHeader`.
unfoldable pub net_header : ℕ → ℕ → Bytes
net_header type size =
    (type / 2 ^ 8 % 2 ^ 8)
    ∷ (type % 2 ^ 8)
    ∷ (size / 2 ^ 24 % 2 ^ 8)
    ∷ (size / 2 ^ 16 % 2 ^ 8)
    ∷ (size / 2 ^ 8 % 2 ^ 8)
    ∷ (size % 2 ^ 8)
    ∷ []

-- `Message::type(pack)`, as a number.
unfoldable pub message_type : Bytes → ℕ
message_type (hi ∷ lo ∷ rest) = hi * 2 ^ 8 + lo
message_type buf = 0

-- `pack.data()`.
unfoldable pub payload : Bytes → Bytes
payload buf = drop 6 buf

pub record Protobuf (ext : Externals) : Type 0 where
  pub byte_size : (k : Kind) → ProtoOf ext k → ℕ
  pub serialize : (k : Kind) → ProtoOf ext k → ℕ → Option Bytes
  pub parse : (k : Kind) → Bytes → Option (ProtoOf ext k)

-- What the protobuf library promises of one of its messages: it is written in the size that was
-- asked for, at most `INT_MAX`, and what was written is parsed back.
pub record Carries {ext : Externals} (pb : Protobuf ext) (k : Kind) (proto : ProtoOf ext k)
    : Type 0 where
  pub bytes : Bytes
  pub sized : pb.byte_size k proto ≡ length bytes
  pub small : length bytes ≤ int_max
  pub written : pb.serialize k proto (length bytes) ≡ some bytes
  pub parsed : pb.parse k bytes ≡ some proto

-- The header and the data where the library could write the message, else zeros.
unfoldable pub framed : ℕ → ℕ → ℕ → Option Bytes → Bytes
unfolding net_header
framed type size extra none = replicate (6 + (size + extra)) 0
framed type size extra (some bytes) = net_header type (u32 size) ++ (bytes ++ replicate extra 0)

-- The size that `operator()` takes from its argument and the data.
unfoldable pub parsed_size : Bytes → ℕ → ℕ
parsed_size body data_size = if ltb (length body) data_size then u32 (length body) else data_size

module _ (ext : Externals) (pb : Protobuf ext) (k : Kind) where
  serialized : ProtoOf ext k → Option Bytes
  serialized proto =
      let size = pb.byte_size k proto in
      if leb size int_max then pb.serialize k proto size else none

  -- `Pack(const google::protobuf::Message &, extraDataSize)`.
  unfoldable pub pack_proto : ProtoOf ext k → ℕ → Bytes
  unfolding serialized framed
  pack_proto proto extra = framed (index k) (pb.byte_size k proto) extra (serialized proto)

  -- `Pack(const Message &, extraDataSize)`.
  unfoldable pub pack : MessageOf ext k → ℕ → Bytes
  unfolding pack_proto
  pack msg extra = pack_proto (pack_fields ext k msg) extra

  -- `PARSE_PROTO_MESSAGE` on the first `size` bytes.
  parsed : Bytes → ℕ → Option (ProtoOf ext k)
  parsed body size = if leb size int_max then pb.parse k (take size body) else none

  unfoldable pub answer : MessageOf ext k → Option (ProtoOf ext k) → Bool × MessageOf ext k
  answer msg none = (false, msg)
  answer msg (some proto) = (true, unpack_fields ext k proto msg)

  -- `operator()(Message &, dataSize)`: the answer, and the message as it is afterwards.
  unfoldable pub unpack : Bytes → MessageOf ext k → ℕ → Bool × MessageOf ext k
  unfolding message_type payload parsed parsed_size answer
  unpack buf msg data_size =
      if not (index k == message_type buf)
      then (false, msg)
      else answer msg (parsed (payload buf) (parsed_size (payload buf) data_size))
