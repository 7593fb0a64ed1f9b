-- ===== src/Tcp/Server.antt =====
-- The messages about a server and its actions: ContextActionModify, ContextAction, CodecVersion,
-- RequestBlob, ServerConfig and PluginDataTransmission of include/mumble/Message.hpp, and their cases
-- in src/Pack.cpp.
use libmumble.Prelude.{ℕ, ◌≡◌, refl, Bool, true, false, Option, none, some}
use libmumble.Prelude.{List, [], ◌++◌}
use libmumble.Tcp.Fields.{Bytes, uint32_max, value_or, keep, keep-none}

-- `Message::ContextActionModify`. The operation goes by its number in both enumerations.
pub record ContextActionModify : Type 0 where
  pub action : Bytes
  pub text : Bytes
  pub context : ℕ
  pub operation : ℕ

abbrev pub fresh_context_action_modify : ContextActionModify
fresh_context_action_modify = record { action = []; text = []; context = 0; operation = 0 }

pub record ContextActionModifyProto : Type 0 where
  pub action : Option Bytes
  pub text : Option Bytes
  pub context : Option ℕ
  pub operation : Option ℕ

unfoldable pub pack_context_action_modify : ContextActionModify → ContextActionModifyProto
pack_context_action_modify msg = record {
  action = some msg.action;
  text = some msg.text;
  context = some msg.context;
  operation = some msg.operation;
}

unfoldable pub unpack_context_action_modify :
    ContextActionModifyProto → ContextActionModify → ContextActionModify
unpack_context_action_modify proto msg = record {
  action = value_or proto.action [];
  text = value_or proto.text [];
  context = value_or proto.context 0;
  operation = value_or proto.operation 0;
}

pub unpack_context_action_modify-pack_context_action_modify :
    (msg : ContextActionModify)
    → unpack_context_action_modify (pack_context_action_modify msg) fresh_context_action_modify
      ≡ msg
unfolding pack_context_action_modify unpack_context_action_modify
unpack_context_action_modify-pack_context_action_modify msg = refl

-- `Message::ContextAction`.
pub record ContextAction : Type 0 where
  pub session : Option ℕ
  pub channel_id : Option ℕ
  pub action : Bytes

abbrev pub fresh_context_action : ContextAction
fresh_context_action = record { session = none; channel_id = none; action = [] }

pub record ContextActionProto : Type 0 where
  pub session : Option ℕ
  pub channel_id : Option ℕ
  pub action : Option Bytes

unfoldable pub pack_context_action : ContextAction → ContextActionProto
pack_context_action msg = record {
  session = msg.session;
  channel_id = msg.channel_id;
  action = some msg.action;
}

unfoldable pub unpack_context_action : ContextActionProto → ContextAction → ContextAction
unpack_context_action proto msg = record {
  session = keep proto.session msg.session;
  channel_id = keep proto.channel_id msg.channel_id;
  action = value_or proto.action [];
}

pub unpack_context_action-pack_context_action :
    (msg : ContextAction)
    → unpack_context_action (pack_context_action msg) fresh_context_action ≡ msg
unfolding pack_context_action unpack_context_action
unpack_context_action-pack_context_action msg = simp keep-none

-- `Message::CodecVersion`. `alpha` and `beta` are the bit patterns of `int32_t`.
pub record CodecVersion : Type 0 where
  pub alpha : ℕ
  pub beta : ℕ
  pub prefer_alpha : Bool
  pub opus : Bool

abbrev pub fresh_codec_version : CodecVersion
fresh_codec_version = record { alpha = 0; beta = 0; prefer_alpha = true; opus = false }

pub record CodecVersionProto : Type 0 where
  pub alpha : Option ℕ
  pub beta : Option ℕ
  pub prefer_alpha : Option Bool
  pub opus : Option Bool

unfoldable pub pack_codec_version : CodecVersion → CodecVersionProto
pack_codec_version msg = record {
  alpha = some msg.alpha;
  beta = some msg.beta;
  prefer_alpha = some msg.prefer_alpha;
  opus = some msg.opus;
}

unfoldable pub unpack_codec_version : CodecVersionProto → CodecVersion → CodecVersion
unpack_codec_version proto msg = record {
  alpha = value_or proto.alpha 0;
  beta = value_or proto.beta 0;
  prefer_alpha = value_or proto.prefer_alpha true;
  opus = value_or proto.opus false;
}

pub unpack_codec_version-pack_codec_version :
    (msg : CodecVersion) → unpack_codec_version (pack_codec_version msg) fresh_codec_version ≡ msg
unfolding pack_codec_version unpack_codec_version
unpack_codec_version-pack_codec_version msg = refl

-- `Message::RequestBlob`.
pub record RequestBlob : Type 0 where
  pub session_texture : List ℕ
  pub session_comment : List ℕ
  pub channel_description : List ℕ

abbrev pub fresh_request_blob : RequestBlob
fresh_request_blob = record { session_texture = []; session_comment = []; channel_description = [] }

pub record RequestBlobProto : Type 0 where
  pub session_texture : List ℕ
  pub session_comment : List ℕ
  pub channel_description : List ℕ

unfoldable pub pack_request_blob : RequestBlob → RequestBlobProto
pack_request_blob msg = record {
  session_texture = msg.session_texture;
  session_comment = msg.session_comment;
  channel_description = msg.channel_description;
}

unfoldable pub unpack_request_blob : RequestBlobProto → RequestBlob → RequestBlob
unpack_request_blob proto msg = record {
  session_texture = msg.session_texture ++ proto.session_texture;
  session_comment = msg.session_comment ++ proto.session_comment;
  channel_description = msg.channel_description ++ proto.channel_description;
}

pub unpack_request_blob-pack_request_blob :
    (msg : RequestBlob) → unpack_request_blob (pack_request_blob msg) fresh_request_blob ≡ msg
unfolding pack_request_blob unpack_request_blob
unpack_request_blob-pack_request_blob msg = refl

-- `Message::ServerConfig`.
pub record ServerConfig : Type 0 where
  pub max_bandwidth : ℕ
  pub welcome_text : Bytes
  pub allow_html : Bool
  pub message_length : ℕ
  pub image_message_length : ℕ
  pub max_users : ℕ
  pub recording_allowed : Bool

abbrev pub fresh_server_config : ServerConfig
fresh_server_config = record {
  max_bandwidth = 0;
  welcome_text = [];
  allow_html = false;
  message_length = 0;
  image_message_length = 0;
  max_users = 0;
  recording_allowed = false;
}

pub record ServerConfigProto : Type 0 where
  pub max_bandwidth : Option ℕ
  pub welcome_text : Option Bytes
  pub allow_html : Option Bool
  pub message_length : Option ℕ
  pub image_message_length : Option ℕ
  pub max_users : Option ℕ
  pub recording_allowed : Option Bool

unfoldable pub pack_server_config : ServerConfig → ServerConfigProto
pack_server_config msg = record {
  max_bandwidth = some msg.max_bandwidth;
  welcome_text = some msg.welcome_text;
  allow_html = some msg.allow_html;
  message_length = some msg.message_length;
  image_message_length = some msg.image_message_length;
  max_users = some msg.max_users;
  recording_allowed = some msg.recording_allowed;
}

unfoldable pub unpack_server_config : ServerConfigProto → ServerConfig → ServerConfig
unpack_server_config proto msg = record {
  max_bandwidth = value_or proto.max_bandwidth 0;
  welcome_text = value_or proto.welcome_text [];
  allow_html = value_or proto.allow_html false;
  message_length = value_or proto.message_length 0;
  image_message_length = value_or proto.image_message_length 0;
  max_users = value_or proto.max_users 0;
  recording_allowed = value_or proto.recording_allowed false;
}

pub unpack_server_config-pack_server_config :
    (msg : ServerConfig) → unpack_server_config (pack_server_config msg) fresh_server_config ≡ msg
unfolding pack_server_config unpack_server_config
unpack_server_config-pack_server_config msg = refl

-- `Message::PluginDataTransmission`; `payload` is its field `data`.
pub record PluginDataTransmission : Type 0 where
  pub sender_session : ℕ
  pub receiver_sessions : List ℕ
  pub payload : Bytes
  pub data_id : Bytes

abbrev pub fresh_plugin_data_transmission : PluginDataTransmission
fresh_plugin_data_transmission = record {
  sender_session = uint32_max;
  receiver_sessions = [];
  payload = [];
  data_id = [];
}

pub record PluginDataTransmissionProto : Type 0 where
  pub sender_session : Option ℕ
  pub receiver_sessions : List ℕ
  pub payload : Option Bytes
  pub data_id : Option Bytes

unfoldable pub pack_plugin_data_transmission : PluginDataTransmission → PluginDataTransmissionProto
pack_plugin_data_transmission msg = record {
  sender_session = some msg.sender_session;
  receiver_sessions = msg.receiver_sessions;
  payload = some msg.payload;
  data_id = some msg.data_id;
}

unfoldable pub unpack_plugin_data_transmission :
    PluginDataTransmissionProto → PluginDataTransmission → PluginDataTransmission
unpack_plugin_data_transmission proto msg = record {
  sender_session = value_or proto.sender_session 0;
  receiver_sessions = msg.receiver_sessions ++ proto.receiver_sessions;
  payload = value_or proto.payload [];
  data_id = value_or proto.data_id [];
}

pub unpack_plugin_data_transmission-pack_plugin_data_transmission :
    (msg : PluginDataTransmission)
    → unpack_plugin_data_transmission
        (pack_plugin_data_transmission msg)
        fresh_plugin_data_transmission
      ≡ msg
unfolding pack_plugin_data_transmission unpack_plugin_data_transmission
unpack_plugin_data_transmission-pack_plugin_data_transmission msg = refl
