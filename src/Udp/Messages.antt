-- ===== src/Udp/Messages.antt =====
-- `udp::Message::Audio` and `udp::Message::Ping` of include/mumble/Message.hpp, and the fields that
-- src/Pack.cpp moves between them and the messages of src/proto/MumbleUDP.proto.
--
-- The protobuf messages have no presence there but for the header of Audio: a field that is not set
-- is its default, so that a getter always gives a value. Floats are their bits.
use libmumble.Prelude.{ℕ, ◌≡◌, refl, Bool, Option, none, some, List, ◌++◌, arith, if◌then◌else◌}
use libmumble.Version.{Version, blob64, of_blob64, is_valid}
use libmumble.Version.Blobs.{of_blob64-blob64}
use libmumble.Tcp.Fields.{Bytes, value_or}
use libmumble.Tcp.Versions.{no_version, if_valid, FitsIfAny}

pub data Direction : Type 0 where
  unknown client_to_server server_to_client : Direction

-- The header is `target` and `context`, which share their memory. Neither it nor the direction of a
-- new message has a place here: they are arguments of what reads them.
pub record Audio : Type 0 where
  pub direction : Direction
  pub header : ℕ
  pub sender_session : Option ℕ
  pub frame_number : ℕ
  pub opus_data : Bytes
  pub positional_data : List ℕ
  pub volume_adjustment : ℕ
  pub is_terminator : Bool

-- `Header_case()` with its value.
pub data HeaderCase : Type 0 where
  not_set : HeaderCase
  target context : ℕ → HeaderCase

pub record AudioProto : Type 0 where
  pub header : HeaderCase
  pub sender_session : ℕ
  pub frame_number : ℕ
  pub opus_data : Bytes
  pub positional_data : List ℕ
  pub volume_adjustment : ℕ
  pub is_terminator : Bool

unfoldable pub header_case : Direction → ℕ → HeaderCase
header_case client_to_server h = target h
header_case server_to_client h = context h
header_case unknown h = not_set

unfoldable pub header_value : HeaderCase → ℕ → ℕ
header_value (target h) old = h
header_value (context h) old = h
header_value not_set old = old

unfoldable pub pack_audio : Audio → AudioProto
unfolding header_case
pack_audio msg = record {
  header = header_case msg.direction msg.header;
  sender_session = value_or msg.sender_session 0;
  frame_number = msg.frame_number;
  opus_data = msg.opus_data;
  positional_data = msg.positional_data;
  volume_adjustment = msg.volume_adjustment;
  is_terminator = msg.is_terminator;
}

unfoldable pub unpack_audio : AudioProto → Audio → Audio
unfolding header_value
unpack_audio proto msg = record {
  direction = msg.direction;
  header = header_value proto.header msg.header;
  sender_session = some proto.sender_session;
  frame_number = proto.frame_number;
  opus_data = proto.opus_data;
  positional_data = msg.positional_data ++ proto.positional_data;
  volume_adjustment = proto.volume_adjustment;
  is_terminator = proto.is_terminator;
}

-- The header that a message is read with.
unfoldable pub read_header : Audio → ℕ → ℕ
unfolding header_case header_value
read_header msg old = header_value (header_case msg.direction msg.header) old

-- `udp::Message::Ping`, with the nanoseconds of the timestamp of its base.
pub record Ping : Type 0 where
  pub timestamp : ℕ
  pub request_extended_information : Bool
  pub version : Option Version
  pub user_count : Option ℕ
  pub max_user_count : Option ℕ
  pub max_bandwidth_per_user : Option ℕ

pub record PingProto : Type 0 where
  pub timestamp : ℕ
  pub request_extended_information : Bool
  pub server_version_v2 : ℕ
  pub user_count : ℕ
  pub max_user_count : ℕ
  pub max_bandwidth_per_user : ℕ

unfoldable pub server_version : Option Version → ℕ
server_version none = 0
server_version (some v) = if is_valid v then blob64 v else 0

unfoldable pub pack_ping : Ping → PingProto
unfolding server_version
pack_ping msg = record {
  timestamp = msg.timestamp;
  request_extended_information = msg.request_extended_information;
  server_version_v2 = server_version msg.version;
  user_count = value_or msg.user_count 0;
  max_user_count = value_or msg.max_user_count 0;
  max_bandwidth_per_user = value_or msg.max_bandwidth_per_user 0;
}

unfoldable pub unpack_ping : PingProto → Ping → Ping
unpack_ping proto msg = record {
  timestamp = proto.timestamp;
  request_extended_information = proto.request_extended_information;
  version = some (of_blob64 proto.server_version_v2);
  user_count = some proto.user_count;
  max_user_count = some proto.max_user_count;
  max_bandwidth_per_user = some proto.max_bandwidth_per_user;
}

of_blob64_zero : of_blob64 0 ≡ no_version
unfolding of_blob64
of_blob64_zero = refl

server_version_back :
    (o : Option Version)
    → FitsIfAny o
    → of_blob64 (server_version o) ≡ value_or (if_valid o) no_version
unfolding server_version if_valid
server_version_back none h = of_blob64_zero
server_version_back (some v) h = ground (arith, of_blob64-blob64 v h, of_blob64_zero)

pub unpack_audio-pack_audio :
    (msg old : Audio)
    → unpack_audio (pack_audio msg) old ≡ record msg {
      direction = old.direction;
      header = read_header msg old.header;
      sender_session = some (value_or msg.sender_session 0);
      positional_data = old.positional_data ++ msg.positional_data;
    }
unfolding unpack_audio pack_audio read_header
unpack_audio-pack_audio msg old = refl

pub unpack_ping-pack_ping :
    (msg old : Ping)
    → FitsIfAny msg.version
    → unpack_ping (pack_ping msg) old ≡ record msg {
      version = some (value_or (if_valid msg.version) no_version);
      user_count = some (value_or msg.user_count 0);
      max_user_count = some (value_or msg.max_user_count 0);
      max_bandwidth_per_user = some (value_or msg.max_bandwidth_per_user 0);
    }
unfolding unpack_ping pack_ping
unpack_ping-pack_ping msg old h = rw (server_version_back msg.version h)
