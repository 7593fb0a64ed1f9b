-- ===== src/Tcp/Versions.antt =====
-- The messages that carry versions: Version and SuggestConfig of include/mumble/Message.hpp, and
-- their cases in src/Pack.cpp.
use libmumble.Prelude.{◌≡◌, refl, Bool, Option, none, some, ℕ, [], if◌then◌else◌, arith}
use libmumble.Version.{Version, blob32, blob64, of_blob32, of_blob64, is_valid}
use libmumble.Version.Blobs.{IsVersion, of_blob64-blob64}
use libmumble.Tcp.Fields.{Bytes, value_or, keep, keep-none}

-- `Message::Version`.
pub record VersionMessage : Type 0 where
  pub version : Version
  pub release : Bytes
  pub os : Bytes
  pub os_version : Bytes

abbrev pub no_version : Version
no_version = record { major = 0; minor = 0; patch = 0; extra = 0 }

abbrev pub fresh_version : VersionMessage
fresh_version = record { version = no_version; release = []; os = []; os_version = [] }

pub record VersionProto : Type 0 where
  pub version_v1 : Option ℕ
  pub version_v2 : Option ℕ
  pub release : Option Bytes
  pub os : Option Bytes
  pub os_version : Option Bytes

unfoldable pub pack_version : VersionMessage → VersionProto
pack_version msg = record {
  version_v1 = some (blob32 msg.version);
  version_v2 = some (blob64 msg.version);
  release = some msg.release;
  os = some msg.os;
  os_version = some msg.os_version;
}

-- The 64-bit form where the peer sent it, else the 32-bit form.
unfoldable pub received_version : Option ℕ → Option ℕ → Version
received_version v1 (some blob) = of_blob64 blob
received_version v1 none = of_blob32 (value_or v1 0)

unfoldable pub unpack_version : VersionProto → VersionMessage → VersionMessage
unfolding received_version
unpack_version proto msg = record {
  version = received_version proto.version_v1 proto.version_v2;
  release = value_or proto.release [];
  os = value_or proto.os [];
  os_version = value_or proto.os_version [];
}

pub unpack_version-pack_version :
    (msg : VersionMessage)
    → IsVersion msg.version
    → unpack_version (pack_version msg) fresh_version ≡ msg
unfolding pack_version unpack_version
unpack_version-pack_version msg h = rw (of_blob64-blob64 msg.version h)

-- `Message::SuggestConfig`.
pub record SuggestConfig : Type 0 where
  pub version : Option Version
  pub positional : Option Bool
  pub push_to_talk : Option Bool

abbrev pub fresh_suggest_config : SuggestConfig
fresh_suggest_config = record { version = none; positional = none; push_to_talk = none }

pub record SuggestConfigProto : Type 0 where
  pub version_v1 : Option ℕ
  pub version_v2 : Option ℕ
  pub positional : Option Bool
  pub push_to_talk : Option Bool

-- `msg.version && msg.version.value().isValid()`.
unfoldable pub if_valid : Option Version → Option Version
if_valid none = none
if_valid (some v) = if is_valid v then some v else none

blob32? : Option Version → Option ℕ
blob32? none = none
blob32? (some v) = some (blob32 v)

blob64? : Option Version → Option ℕ
blob64? none = none
blob64? (some v) = some (blob64 v)

unfoldable pub pack_suggest_config : SuggestConfig → SuggestConfigProto
unfolding blob32? blob64? if_valid
pack_suggest_config msg = record {
  version_v1 = blob32? (if_valid msg.version);
  version_v2 = blob64? (if_valid msg.version);
  positional = msg.positional;
  push_to_talk = msg.push_to_talk;
}

unfoldable pub suggested_version : Option ℕ → Option ℕ → Option Version → Option Version
suggested_version v1 (some blob) old = some (of_blob64 blob)
suggested_version (some blob) none old = some (of_blob32 blob)
suggested_version none none old = old

unfoldable pub unpack_suggest_config : SuggestConfigProto → SuggestConfig → SuggestConfig
unfolding suggested_version
unpack_suggest_config proto msg = record {
  version = suggested_version proto.version_v1 proto.version_v2 msg.version;
  positional = keep proto.positional msg.positional;
  push_to_talk = keep proto.push_to_talk msg.push_to_talk;
}

-- Every version that the message may carry fits its parts.
abbrev pub FitsIfAny : Option Version → Type 0
FitsIfAny none = Unit {0}
FitsIfAny (some v) = IsVersion v

suggested_back :
    (o : Option Version)
    → FitsIfAny o
    → suggested_version (blob32? (if_valid o)) (blob64? (if_valid o)) none ≡ if_valid o
unfolding suggested_version blob32? blob64? if_valid
suggested_back none h = refl
suggested_back (some v) h = ground (arith, of_blob64-blob64 v h)

pub unpack_suggest_config-pack_suggest_config :
    (msg : SuggestConfig)
    → FitsIfAny msg.version
    → unpack_suggest_config (pack_suggest_config msg) fresh_suggest_config
      ≡ record msg { version = if_valid msg.version }
unfolding pack_suggest_config unpack_suggest_config
unpack_suggest_config-pack_suggest_config msg h = simp (suggested_back msg.version h, keep-none)
