-- ===== src/Tcp/Users.antt =====
-- The messages about connected users: UserRemove and UserState of include/mumble/Message.hpp, and
-- their cases in src/Pack.cpp.
use libmumble.Prelude.{ℕ, ◌≡◌, refl, Bool, false, Option, none, some}
use libmumble.Prelude.{List, [], ◌++◌}
use libmumble.Tcp.Fields.{Bytes, uint32_max, value_or}

-- `Message::UserRemove`.
pub record UserRemove : Type 0 where
  pub session : ℕ
  pub actor : ℕ
  pub reason : Bytes
  pub ban : Bool

abbrev pub fresh_user_remove : UserRemove
fresh_user_remove = record { session = uint32_max; actor = uint32_max; reason = []; ban = false }

pub record UserRemoveProto : Type 0 where
  pub session : Option ℕ
  pub actor : Option ℕ
  pub reason : Option Bytes
  pub ban : Option Bool

unfoldable pub pack_user_remove : UserRemove → UserRemoveProto
pack_user_remove msg = record {
  session = some msg.session;
  actor = some msg.actor;
  reason = some msg.reason;
  ban = some msg.ban;
}

unfoldable pub unpack_user_remove : UserRemoveProto → UserRemove → UserRemove
unpack_user_remove proto msg = record {
  session = value_or proto.session 0;
  actor = value_or proto.actor 0;
  reason = value_or proto.reason [];
  ban = value_or proto.ban false;
}

pub unpack_user_remove-pack_user_remove :
    (msg : UserRemove) → unpack_user_remove (pack_user_remove msg) fresh_user_remove ≡ msg
unfolding pack_user_remove unpack_user_remove
unpack_user_remove-pack_user_remove msg = refl

-- `Message::UserState`. The user ID is written if it is there, and always read.
pub record UserState : Type 0 where
  pub session : ℕ
  pub actor : ℕ
  pub name : Bytes
  pub user_id : Option ℕ
  pub channel_id : ℕ
  pub mute : Bool
  pub deaf : Bool
  pub suppress : Bool
  pub self_mute : Bool
  pub self_deaf : Bool
  pub texture : Bytes
  pub plugin_context : Bytes
  pub plugin_identity : Bytes
  pub comment : Bytes
  pub hash : Bytes
  pub comment_hash : Bytes
  pub texture_hash : Bytes
  pub priority_speaker : Bool
  pub recording : Bool
  pub temporary_access_tokens : List Bytes
  pub listening_channel_add : List ℕ
  pub listening_channel_remove : List ℕ

abbrev pub fresh_user_state : UserState
fresh_user_state = record {
  session = uint32_max;
  actor = uint32_max;
  name = [];
  user_id = none;
  channel_id = uint32_max;
  mute = false;
  deaf = false;
  suppress = false;
  self_mute = false;
  self_deaf = false;
  texture = [];
  plugin_context = [];
  plugin_identity = [];
  comment = [];
  hash = [];
  comment_hash = [];
  texture_hash = [];
  priority_speaker = false;
  recording = false;
  temporary_access_tokens = [];
  listening_channel_add = [];
  listening_channel_remove = [];
}

pub record UserStateProto : Type 0 where
  pub session : Option ℕ
  pub actor : Option ℕ
  pub name : Option Bytes
  pub user_id : Option ℕ
  pub channel_id : Option ℕ
  pub mute : Option Bool
  pub deaf : Option Bool
  pub suppress : Option Bool
  pub self_mute : Option Bool
  pub self_deaf : Option Bool
  pub texture : Option Bytes
  pub plugin_context : Option Bytes
  pub plugin_identity : Option Bytes
  pub comment : Option Bytes
  pub hash : Option Bytes
  pub comment_hash : Option Bytes
  pub texture_hash : Option Bytes
  pub priority_speaker : Option Bool
  pub recording : Option Bool
  pub temporary_access_tokens : List Bytes
  pub listening_channel_add : List ℕ
  pub listening_channel_remove : List ℕ

unfoldable pub pack_user_state : UserState → UserStateProto
pack_user_state msg = record {
  session = some msg.session;
  actor = some msg.actor;
  name = some msg.name;
  user_id = msg.user_id;
  channel_id = some msg.channel_id;
  mute = some msg.mute;
  deaf = some msg.deaf;
  suppress = some msg.suppress;
  self_mute = some msg.self_mute;
  self_deaf = some msg.self_deaf;
  texture = some msg.texture;
  plugin_context = some msg.plugin_context;
  plugin_identity = some msg.plugin_identity;
  comment = some msg.comment;
  hash = some msg.hash;
  comment_hash = some msg.comment_hash;
  texture_hash = some msg.texture_hash;
  priority_speaker = some msg.priority_speaker;
  recording = some msg.recording;
  temporary_access_tokens = msg.temporary_access_tokens;
  listening_channel_add = msg.listening_channel_add;
  listening_channel_remove = msg.listening_channel_remove;
}

unfoldable pub unpack_user_state : UserStateProto → UserState → UserState
unpack_user_state proto msg = record {
  session = value_or proto.session 0;
  actor = value_or proto.actor 0;
  name = value_or proto.name [];
  user_id = some (value_or proto.user_id 0);
  channel_id = value_or proto.channel_id 0;
  mute = value_or proto.mute false;
  deaf = value_or proto.deaf false;
  suppress = value_or proto.suppress false;
  self_mute = value_or proto.self_mute false;
  self_deaf = value_or proto.self_deaf false;
  texture = value_or proto.texture [];
  plugin_context = value_or proto.plugin_context [];
  plugin_identity = value_or proto.plugin_identity [];
  comment = value_or proto.comment [];
  hash = value_or proto.hash [];
  comment_hash = value_or proto.comment_hash [];
  texture_hash = value_or proto.texture_hash [];
  priority_speaker = value_or proto.priority_speaker false;
  recording = value_or proto.recording false;
  temporary_access_tokens = msg.temporary_access_tokens ++ proto.temporary_access_tokens;
  listening_channel_add = msg.listening_channel_add ++ proto.listening_channel_add;
  listening_channel_remove = msg.listening_channel_remove ++ proto.listening_channel_remove;
}

pub unpack_user_state-pack_user_state :
    (msg : UserState)
    → unpack_user_state (pack_user_state msg) fresh_user_state
      ≡ record msg { user_id = some (value_or msg.user_id 0) }
unfolding pack_user_state unpack_user_state
unpack_user_state-pack_user_state msg = refl
