-- ===== src/Tcp/Session.antt =====
-- The messages that open and keep a session: Authenticate, Ping, Reject, ServerSync and CryptSetup of
-- include/mumble/Message.hpp, and their cases in src/Pack.cpp.
use libmumble.Prelude.{ℕ, ◌≡◌, refl, Bool, false, Option, some}
use libmumble.Prelude.{List, [], ◌++◌}
use libmumble.Tcp.Fields.{Bytes, uint32_max, value_or, unless_empty}
use libmumble.Tcp.Fields.{value_or-unless_empty}

-- `Message::Authenticate`, and `MumbleTCP::Authenticate` with its optional fields.
pub record Authenticate : Type 0 where
  pub username : Bytes
  pub password : Bytes
  pub tokens : List Bytes
  pub celt_versions : List ℕ
  pub opus : Bool

abbrev pub fresh_authenticate : Authenticate
fresh_authenticate = record {
  username = [];
  password = [];
  tokens = [];
  celt_versions = [];
  opus = false;
}

pub record AuthenticateProto : Type 0 where
  pub username : Option Bytes
  pub password : Option Bytes
  pub tokens : List Bytes
  pub celt_versions : List ℕ
  pub opus : Option Bool

unfoldable pub pack_authenticate : Authenticate → AuthenticateProto
pack_authenticate msg = record {
  username = some msg.username;
  password = some msg.password;
  tokens = msg.tokens;
  celt_versions = msg.celt_versions;
  opus = some msg.opus;
}

unfoldable pub unpack_authenticate : AuthenticateProto → Authenticate → Authenticate
unpack_authenticate proto msg = record {
  username = value_or proto.username [];
  password = value_or proto.password [];
  tokens = msg.tokens ++ proto.tokens;
  celt_versions = msg.celt_versions ++ proto.celt_versions;
  opus = value_or proto.opus false;
}

pub unpack_authenticate-pack_authenticate :
    (msg : Authenticate) → unpack_authenticate (pack_authenticate msg) fresh_authenticate ≡ msg
unfolding pack_authenticate unpack_authenticate
unpack_authenticate-pack_authenticate msg = refl

-- `Message::Ping`. `timestamp` is the nanoseconds of the base struct, and the averages are the bits
-- of the floats.
pub record Ping : Type 0 where
  pub timestamp : ℕ
  pub good : ℕ
  pub late : ℕ
  pub lost : ℕ
  pub resync : ℕ
  pub udp_packets : ℕ
  pub tcp_packets : ℕ
  pub udp_ping_avg : ℕ
  pub udp_ping_var : ℕ
  pub tcp_ping_avg : ℕ
  pub tcp_ping_var : ℕ

abbrev pub fresh_ping : Ping
fresh_ping = record {
  timestamp = 0;
  good = 0;
  late = 0;
  lost = 0;
  resync = 0;
  udp_packets = 0;
  tcp_packets = 0;
  udp_ping_avg = 0;
  udp_ping_var = 0;
  tcp_ping_avg = 0;
  tcp_ping_var = 0;
}

pub record PingProto : Type 0 where
  pub timestamp : Option ℕ
  pub good : Option ℕ
  pub late : Option ℕ
  pub lost : Option ℕ
  pub resync : Option ℕ
  pub udp_packets : Option ℕ
  pub tcp_packets : Option ℕ
  pub udp_ping_avg : Option ℕ
  pub udp_ping_var : Option ℕ
  pub tcp_ping_avg : Option ℕ
  pub tcp_ping_var : Option ℕ

unfoldable pub pack_ping : Ping → PingProto
pack_ping msg = record {
  timestamp = some msg.timestamp;
  good = some msg.good;
  late = some msg.late;
  lost = some msg.lost;
  resync = some msg.resync;
  udp_packets = some msg.udp_packets;
  tcp_packets = some msg.tcp_packets;
  udp_ping_avg = some msg.udp_ping_avg;
  udp_ping_var = some msg.udp_ping_var;
  tcp_ping_avg = some msg.tcp_ping_avg;
  tcp_ping_var = some msg.tcp_ping_var;
}

unfoldable pub unpack_ping : PingProto → Ping → Ping
unpack_ping proto msg = record {
  timestamp = value_or proto.timestamp 0;
  good = value_or proto.good 0;
  late = value_or proto.late 0;
  lost = value_or proto.lost 0;
  resync = value_or proto.resync 0;
  udp_packets = value_or proto.udp_packets 0;
  tcp_packets = value_or proto.tcp_packets 0;
  udp_ping_avg = value_or proto.udp_ping_avg 0;
  udp_ping_var = value_or proto.udp_ping_var 0;
  tcp_ping_avg = value_or proto.tcp_ping_avg 0;
  tcp_ping_var = value_or proto.tcp_ping_var 0;
}

pub unpack_ping-pack_ping : (msg : Ping) → unpack_ping (pack_ping msg) fresh_ping ≡ msg
unfolding pack_ping unpack_ping
unpack_ping-pack_ping msg = refl

-- `Message::Reject`. The reject type goes by its number in both enumerations.
pub record Reject : Type 0 where
  pub reject_type : ℕ
  pub reason : Bytes

abbrev pub fresh_reject : Reject
fresh_reject = record { reject_type = 0; reason = [] }

pub record RejectProto : Type 0 where
  pub type : Option ℕ
  pub reason : Option Bytes

unfoldable pub pack_reject : Reject → RejectProto
pack_reject msg = record { type = some msg.reject_type; reason = some msg.reason }

unfoldable pub unpack_reject : RejectProto → Reject → Reject
unpack_reject proto msg = record {
  reject_type = value_or proto.type 0;
  reason = value_or proto.reason [];
}

pub unpack_reject-pack_reject : (msg : Reject) → unpack_reject (pack_reject msg) fresh_reject ≡ msg
unfolding pack_reject unpack_reject
unpack_reject-pack_reject msg = refl

-- `Message::ServerSync`.
pub record ServerSync : Type 0 where
  pub session : ℕ
  pub max_bandwidth : ℕ
  pub welcome_text : Bytes
  pub permissions : ℕ

abbrev pub fresh_server_sync : ServerSync
fresh_server_sync = record {
  session = uint32_max;
  max_bandwidth = 0;
  welcome_text = [];
  permissions = 0;
}

pub record ServerSyncProto : Type 0 where
  pub session : Option ℕ
  pub max_bandwidth : Option ℕ
  pub welcome_text : Option Bytes
  pub permissions : Option ℕ

unfoldable pub pack_server_sync : ServerSync → ServerSyncProto
pack_server_sync msg = record {
  session = some msg.session;
  max_bandwidth = some msg.max_bandwidth;
  welcome_text = some msg.welcome_text;
  permissions = some msg.permissions;
}

unfoldable pub unpack_server_sync : ServerSyncProto → ServerSync → ServerSync
unpack_server_sync proto msg = record {
  session = value_or proto.session 0;
  max_bandwidth = value_or proto.max_bandwidth 0;
  welcome_text = value_or proto.welcome_text [];
  permissions = value_or proto.permissions 0;
}

pub unpack_server_sync-pack_server_sync :
    (msg : ServerSync) → unpack_server_sync (pack_server_sync msg) fresh_server_sync ≡ msg
unfolding pack_server_sync unpack_server_sync
unpack_server_sync-pack_server_sync msg = refl

-- `Message::CryptSetup`. An empty key or nonce is left out.
pub record CryptSetup : Type 0 where
  pub key : Bytes
  pub client_nonce : Bytes
  pub server_nonce : Bytes

abbrev pub fresh_crypt_setup : CryptSetup
fresh_crypt_setup = record { key = []; client_nonce = []; server_nonce = [] }

pub record CryptSetupProto : Type 0 where
  pub key : Option Bytes
  pub client_nonce : Option Bytes
  pub server_nonce : Option Bytes

unfoldable pub pack_crypt_setup : CryptSetup → CryptSetupProto
pack_crypt_setup msg = record {
  key = unless_empty msg.key;
  client_nonce = unless_empty msg.client_nonce;
  server_nonce = unless_empty msg.server_nonce;
}

unfoldable pub unpack_crypt_setup : CryptSetupProto → CryptSetup → CryptSetup
unpack_crypt_setup proto msg = record {
  key = value_or proto.key msg.key;
  client_nonce = value_or proto.client_nonce msg.client_nonce;
  server_nonce = value_or proto.server_nonce msg.server_nonce;
}

pub unpack_crypt_setup-pack_crypt_setup :
    (msg : CryptSetup) → unpack_crypt_setup (pack_crypt_setup msg) fresh_crypt_setup ≡ msg
unfolding pack_crypt_setup unpack_crypt_setup
unpack_crypt_setup-pack_crypt_setup msg = simp value_or-unless_empty
