-- ===== src/Udp/Tests.antt =====
-- Tests of the UDP messages at concrete values, over a protobuf library that knows one message of
-- each kind.
use libmumble.Prelude.{◌≡◌, refl, inl, true, false, none, some, [], ◌∷◌, arith}
use libmumble.Udp.Messages.{Audio, Ping, server_to_client, unknown, read_header}
use libmumble.Tcp.Versions.{no_version, if_valid}
use libmumble.Udp.Pack.{Kind, MessageOf, audio, ping, Protobuf, Carries, pack_fields, pack, unpack}
use libmumble.Udp.Pack.{number, unpack_audio_back, unpack_ping_back, is_plain_ping, legacy_type}
use libmumble.Udp.Dispatch.{dispatch, dispatch-pack_ping, on_ping}

abbrev speech : Audio
speech = record {
  direction = server_to_client;
  header = 2;
  sender_session = some 5;
  frame_number = 90;
  opus_data = 1 ∷ 2 ∷ [];
  positional_data = 7 ∷ [];
  volume_adjustment = 0;
  is_terminator = true;
}

abbrev new_audio : Audio
new_audio = record {
  direction = unknown;
  header = 0;
  sender_session = none;
  frame_number = 0;
  opus_data = [];
  positional_data = [];
  volume_adjustment = 0;
  is_terminator = false;
}

abbrev request : Ping
request = record {
  timestamp = 12;
  request_extended_information = true;
  version = none;
  user_count = none;
  max_user_count = some 9;
  max_bandwidth_per_user = none;
}

abbrev new_ping : Ping
new_ping = record {
  timestamp = 0;
  request_extended_information = false;
  version = none;
  user_count = none;
  max_user_count = none;
  max_bandwidth_per_user = none;
}

abbrev sample : (k : Kind) → MessageOf k
sample audio = speech
sample ping = request

abbrev one_message : Protobuf
one_message = record {
  byte_size = λ k proto. 2;
  serialize = λ k proto n. some (8 ∷ 12 ∷ []);
  parse = λ k b. some (pack_fields k (sample k));
}

abbrev carries : (k : Kind) → Carries one_message k (pack_fields k (sample k))
carries k = record {
  bytes = 8 ∷ 12 ∷ [];
  sized = refl;
  small = omega arith;
  written = refl;
  parsed = refl;
}

unpack_audio_back_example :
    unpack one_message audio (pack one_message audio speech 3) new_audio 2
    ≡ (true, record speech { direction = unknown })
unfolding read_header
unpack_audio_back_example =
    unpack_audio_back one_message speech new_audio 3 (carries audio) 2 (inl refl)

request_is_unpacked : unpack one_message ping (pack one_message ping request 3) new_ping 2 ≡ (
  true,
  record request {
    version = some no_version;
    user_count = some 0;
    max_bandwidth_per_user = some 0;
  },
)
unfolding if_valid
request_is_unpacked = unpack_ping_back one_message request new_ping 3 (carries ping) tt 2 (inl refl)

dispatch-pack_ping_example :
    dispatch one_message new_ping (1 ∷ 8 ∷ 12 ∷ 0 ∷ 9 ∷ []) 3
    ≡ on_ping (record request {
      version = some no_version;
      user_count = some 0;
      max_bandwidth_per_user = some 0;
    })
unfolding pack if_valid number
dispatch-pack_ping_example =
    dispatch-pack_ping one_message request (carries ping) tt new_ping (0 ∷ 9 ∷ [])

plain_ping : is_plain_ping (0 ∷ 0 ∷ 0 ∷ 0 ∷ 1 ∷ 2 ∷ 3 ∷ 4 ∷ 5 ∷ 6 ∷ 7 ∷ 8 ∷ []) ≡ true
unfolding is_plain_ping
plain_ping = refl

opus_type : legacy_type (128 ∷ []) ≡ 4
unfolding legacy_type
opus_type = refl
