-- ===== src/Tcp/Stats.antt =====
-- UserStats of include/mumble/Message.hpp, and its cases in src/Pack.cpp.
use libmumble.Prelude.{◌≡◌, Bool, false, Option, none, some, ℕ, List, [], ◌++◌, map}
use libmumble.Version.Blobs.{IsVersion}
use libmumble.Tcp.Fields.{Bytes, uint32_max, value_or, map-map}
use libmumble.Tcp.Externals.{Externals}
use libmumble.Tcp.Versions.{VersionMessage, VersionProto, fresh_version, pack_version}
use libmumble.Tcp.Versions.{unpack_version, unpack_version-pack_version}

-- `Message::UserStats::Stats`.
pub record Stats : Type 0 where
  pub good : ℕ
  pub late : ℕ
  pub lost : ℕ
  pub resync : ℕ

pub record StatsProto : Type 0 where
  pub good : Option ℕ
  pub late : Option ℕ
  pub lost : Option ℕ
  pub resync : Option ℕ

abbrev pub no_stats : StatsProto
no_stats = record { good = none; late = none; lost = none; resync = none }

unfoldable pub pack_stats : Stats → StatsProto
pack_stats s = record {
  good = some s.good;
  late = some s.late;
  lost = some s.lost;
  resync = some s.resync;
}

unfoldable pub unpack_stats : StatsProto → Stats
unpack_stats p = record {
  good = value_or p.good 0;
  late = value_or p.late 0;
  lost = value_or p.lost 0;
  resync = value_or p.resync 0;
}

-- `Message::UserStats`; the averages are the bits of the floats.
pub record UserStats (ext : Externals) : Type 0 where
  pub session : ℕ
  pub stats_only : Bool
  pub certificates : List ext.Cert
  pub from_client : Stats
  pub from_server : Stats
  pub udp_packets : ℕ
  pub tcp_packets : ℕ
  pub udp_ping_avg : ℕ
  pub udp_ping_var : ℕ
  pub tcp_ping_avg : ℕ
  pub tcp_ping_var : ℕ
  pub version : VersionMessage
  pub celt_versions : List ℕ
  pub address : ext.Ip
  pub bandwidth : ℕ
  pub onlinesecs : ℕ
  pub idlesecs : ℕ
  pub strong_certificate : Bool
  pub opus : Bool

pub record UserStatsProto : Type 0 where
  pub session : Option ℕ
  pub stats_only : Option Bool
  pub certificates : List Bytes
  pub from_client : Option StatsProto
  pub from_server : Option StatsProto
  pub udp_packets : Option ℕ
  pub tcp_packets : Option ℕ
  pub udp_ping_avg : Option ℕ
  pub udp_ping_var : Option ℕ
  pub tcp_ping_avg : Option ℕ
  pub tcp_ping_var : Option ℕ
  pub version : Option VersionProto
  pub celt_versions : List ℕ
  pub address : Option Bytes
  pub bandwidth : Option ℕ
  pub onlinesecs : Option ℕ
  pub idlesecs : Option ℕ
  pub strong_certificate : Option Bool
  pub opus : Option Bool

abbrev no_version_proto : VersionProto
no_version_proto = record {
  version_v1 = none;
  version_v2 = none;
  release = none;
  os = none;
  os_version = none;
}

abbrev zero_stats : Stats
zero_stats = record { good = 0; late = 0; lost = 0; resync = 0 }

module _ (ext : Externals) where
  abbrev pub fresh_user_stats : UserStats ext
  fresh_user_stats = record {
    session = uint32_max;
    stats_only = false;
    certificates = [];
    from_client = zero_stats;
    from_server = zero_stats;
    udp_packets = 0;
    tcp_packets = 0;
    udp_ping_avg = 0;
    udp_ping_var = 0;
    tcp_ping_avg = 0;
    tcp_ping_var = 0;
    version = fresh_version;
    celt_versions = [];
    address = ext.no_ip;
    bandwidth = 0;
    onlinesecs = 0;
    idlesecs = 0;
    strong_certificate = false;
    opus = false;
  }

  unfoldable pub pack_user_stats : UserStats ext → UserStatsProto
  unfolding pack_stats
  pack_user_stats msg = record {
    session = some msg.session;
    stats_only = some msg.stats_only;
    certificates = map ext.der msg.certificates;
    from_client = some (pack_stats msg.from_client);
    from_server = some (pack_stats msg.from_server);
    udp_packets = some msg.udp_packets;
    tcp_packets = some msg.tcp_packets;
    udp_ping_avg = some msg.udp_ping_avg;
    udp_ping_var = some msg.udp_ping_var;
    tcp_ping_avg = some msg.tcp_ping_avg;
    tcp_ping_var = some msg.tcp_ping_var;
    version = some (pack_version msg.version);
    celt_versions = msg.celt_versions;
    address = some (ext.v6 msg.address);
    bandwidth = some msg.bandwidth;
    onlinesecs = some msg.onlinesecs;
    idlesecs = some msg.idlesecs;
    strong_certificate = some msg.strong_certificate;
    opus = some msg.opus;
  }

  unfoldable pub unpack_user_stats : UserStatsProto → UserStats ext → UserStats ext
  unfolding unpack_stats
  unpack_user_stats proto msg = record {
    session = value_or proto.session 0;
    stats_only = value_or proto.stats_only false;
    certificates = msg.certificates ++ map ext.of_der proto.certificates;
    from_client = unpack_stats (value_or proto.from_client no_stats);
    from_server = unpack_stats (value_or proto.from_server no_stats);
    udp_packets = value_or proto.udp_packets 0;
    tcp_packets = value_or proto.tcp_packets 0;
    udp_ping_avg = value_or proto.udp_ping_avg 0;
    udp_ping_var = value_or proto.udp_ping_var 0;
    tcp_ping_avg = value_or proto.tcp_ping_avg 0;
    tcp_ping_var = value_or proto.tcp_ping_var 0;
    version = unpack_version (value_or proto.version no_version_proto) msg.version;
    celt_versions = msg.celt_versions ++ proto.celt_versions;
    address = ext.of_string (value_or proto.address []);
    bandwidth = value_or proto.bandwidth 0;
    onlinesecs = value_or proto.onlinesecs 0;
    idlesecs = value_or proto.idlesecs 0;
    strong_certificate = value_or proto.strong_certificate false;
    opus = value_or proto.opus false;
  }

  -- Statistics as they come back: the address and the certificates are what their constructors make of
  -- the bytes.
  unfoldable pub received_user_stats : UserStats ext → UserStats ext
  received_user_stats msg = record msg {
    certificates = map (λ c. ext.of_der (ext.der c)) msg.certificates;
    address = ext.of_string (ext.v6 msg.address);
  }

  pub unpack_user_stats-pack_user_stats :
      (msg : UserStats ext)
      → IsVersion msg.version.version
      → unpack_user_stats (pack_user_stats msg) fresh_user_stats ≡ received_user_stats msg
  unfolding unpack_user_stats pack_user_stats received_user_stats
  unpack_user_stats-pack_user_stats msg h = simp (
    unpack_version-pack_version msg.version h,
    map-map ext.der ext.of_der (λ c. ext.of_der (ext.der c)) (λ c i. ext.of_der (ext.der c))
        msg.certificates,
  )
