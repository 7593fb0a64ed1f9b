-- ===== src/Tcp/Channels.antt =====
-- The messages about channels: ChannelRemove, ChannelState, TextMessage, PermissionDenied and
-- PermissionQuery of include/mumble/Message.hpp, and their cases in src/Pack.cpp.
use libmumble.Prelude.{ℕ, ◌≡◌, refl, Bool, true, false, Option, none, some}
use libmumble.Prelude.{List, [], ◌++◌}
use libmumble.Tcp.Fields.{Bytes, uint32_max, value_or, keep, keep-none}

-- `Message::ChannelRemove`.
pub record ChannelRemove : Type 0 where
  pub channel_id : ℕ

abbrev pub fresh_channel_remove : ChannelRemove
fresh_channel_remove = record { channel_id = uint32_max }

pub record ChannelRemoveProto : Type 0 where
  pub channel_id : Option ℕ

unfoldable pub pack_channel_remove : ChannelRemove → ChannelRemoveProto
pack_channel_remove msg = record { channel_id = some msg.channel_id }

unfoldable pub unpack_channel_remove : ChannelRemoveProto → ChannelRemove → ChannelRemove
unpack_channel_remove proto msg = record { channel_id = value_or proto.channel_id 0 }

pub unpack_channel_remove-pack_channel_remove :
    (msg : ChannelRemove)
    → unpack_channel_remove (pack_channel_remove msg) fresh_channel_remove ≡ msg
unfolding pack_channel_remove unpack_channel_remove
unpack_channel_remove-pack_channel_remove msg = refl

-- `Message::ChannelState`. `position` is the bit pattern of the `int32_t`.
pub record ChannelState : Type 0 where
  pub channel_id : ℕ
  pub parent : Option ℕ
  pub name : Bytes
  pub links : List ℕ
  pub description : Bytes
  pub links_add : List ℕ
  pub links_remove : List ℕ
  pub temporary : Bool
  pub position : ℕ
  pub description_hash : Bytes
  pub max_users : ℕ
  pub is_enter_restricted : Bool
  pub can_enter : Bool

abbrev pub fresh_channel_state : ChannelState
fresh_channel_state = record {
  channel_id = uint32_max;
  parent = none;
  name = [];
  links = [];
  description = [];
  links_add = [];
  links_remove = [];
  temporary = false;
  position = 0;
  description_hash = [];
  max_users = 0;
  is_enter_restricted = false;
  can_enter = true;
}

pub record ChannelStateProto : Type 0 where
  pub channel_id : Option ℕ
  pub parent : Option ℕ
  pub name : Option Bytes
  pub links : List ℕ
  pub description : Option Bytes
  pub links_add : List ℕ
  pub links_remove : List ℕ
  pub temporary : Option Bool
  pub position : Option ℕ
  pub description_hash : Option Bytes
  pub max_users : Option ℕ
  pub is_enter_restricted : Option Bool
  pub can_enter : Option Bool

unfoldable pub pack_channel_state : ChannelState → ChannelStateProto
pack_channel_state msg = record {
  channel_id = some msg.channel_id;
  parent = msg.parent;
  name = some msg.name;
  links = msg.links;
  description = some msg.description;
  links_add = msg.links_add;
  links_remove = msg.links_remove;
  temporary = some msg.temporary;
  position = some msg.position;
  description_hash = some msg.description_hash;
  max_users = some msg.max_users;
  is_enter_restricted = some msg.is_enter_restricted;
  can_enter = some msg.can_enter;
}

unfoldable pub unpack_channel_state : ChannelStateProto → ChannelState → ChannelState
unpack_channel_state proto msg = record {
  channel_id = value_or proto.channel_id 0;
  parent = keep proto.parent msg.parent;
  name = value_or proto.name [];
  links = msg.links ++ proto.links;
  description = value_or proto.description [];
  links_add = msg.links_add ++ proto.links_add;
  links_remove = msg.links_remove ++ proto.links_remove;
  temporary = value_or proto.temporary false;
  position = value_or proto.position 0;
  description_hash = value_or proto.description_hash [];
  max_users = value_or proto.max_users 0;
  is_enter_restricted = value_or proto.is_enter_restricted false;
  can_enter = value_or proto.can_enter false;
}

pub unpack_channel_state-pack_channel_state :
    (msg : ChannelState) → unpack_channel_state (pack_channel_state msg) fresh_channel_state ≡ msg
unfolding pack_channel_state unpack_channel_state
unpack_channel_state-pack_channel_state msg = simp keep-none

-- `Message::TextMessage`.
pub record TextMessage : Type 0 where
  pub actor : ℕ
  pub session : List ℕ
  pub channel_id : List ℕ
  pub tree_id : List ℕ
  pub message : Bytes

abbrev pub fresh_text_message : TextMessage
fresh_text_message = record {
  actor = uint32_max;
  session = [];
  channel_id = [];
  tree_id = [];
  message = [];
}

pub record TextMessageProto : Type 0 where
  pub actor : Option ℕ
  pub session : List ℕ
  pub channel_id : List ℕ
  pub tree_id : List ℕ
  pub message : Option Bytes

unfoldable pub pack_text_message : TextMessage → TextMessageProto
pack_text_message msg = record {
  actor = some msg.actor;
  session = msg.session;
  channel_id = msg.channel_id;
  tree_id = msg.tree_id;
  message = some msg.message;
}

unfoldable pub unpack_text_message : TextMessageProto → TextMessage → TextMessage
unpack_text_message proto msg = record {
  actor = value_or proto.actor 0;
  session = msg.session ++ proto.session;
  channel_id = msg.channel_id ++ proto.channel_id;
  tree_id = msg.tree_id ++ proto.tree_id;
  message = value_or proto.message [];
}

pub unpack_text_message-pack_text_message :
    (msg : TextMessage) → unpack_text_message (pack_text_message msg) fresh_text_message ≡ msg
unfolding pack_text_message unpack_text_message
unpack_text_message-pack_text_message msg = refl

-- `Message::PermissionDenied`. A fresh one has the deny type `H9K`, 5.
pub record PermissionDenied : Type 0 where
  pub permission : Option ℕ
  pub channel_id : Option ℕ
  pub session : ℕ
  pub reason : Bytes
  pub deny_type : ℕ
  pub name : Option Bytes

abbrev pub fresh_permission_denied : PermissionDenied
fresh_permission_denied = record {
  permission = none;
  channel_id = none;
  session = uint32_max;
  reason = [];
  deny_type = 5;
  name = none;
}

pub record PermissionDeniedProto : Type 0 where
  pub permission : Option ℕ
  pub channel_id : Option ℕ
  pub session : Option ℕ
  pub reason : Option Bytes
  pub type : Option ℕ
  pub name : Option Bytes

unfoldable pub pack_permission_denied : PermissionDenied → PermissionDeniedProto
pack_permission_denied msg = record {
  permission = msg.permission;
  channel_id = msg.channel_id;
  session = some msg.session;
  reason = some msg.reason;
  type = some msg.deny_type;
  name = msg.name;
}

unfoldable pub unpack_permission_denied :
    PermissionDeniedProto → PermissionDenied → PermissionDenied
unpack_permission_denied proto msg = record {
  permission = keep proto.permission msg.permission;
  channel_id = keep proto.channel_id msg.channel_id;
  session = value_or proto.session 0;
  reason = value_or proto.reason [];
  deny_type = value_or proto.type 0;
  name = keep proto.name msg.name;
}

pub unpack_permission_denied-pack_permission_denied :
    (msg : PermissionDenied)
    → unpack_permission_denied (pack_permission_denied msg) fresh_permission_denied ≡ msg
unfolding pack_permission_denied unpack_permission_denied
unpack_permission_denied-pack_permission_denied msg = simp keep-none

-- `Message::PermissionQuery`.
pub record PermissionQuery : Type 0 where
  pub channel_id : ℕ
  pub permissions : ℕ
  pub flush : Bool

abbrev pub fresh_permission_query : PermissionQuery
fresh_permission_query = record { channel_id = uint32_max; permissions = 0; flush = false }

pub record PermissionQueryProto : Type 0 where
  pub channel_id : Option ℕ
  pub permissions : Option ℕ
  pub flush : Option Bool

unfoldable pub pack_permission_query : PermissionQuery → PermissionQueryProto
pack_permission_query msg = record {
  channel_id = some msg.channel_id;
  permissions = some msg.permissions;
  flush = some msg.flush;
}

unfoldable pub unpack_permission_query : PermissionQueryProto → PermissionQuery → PermissionQuery
unpack_permission_query proto msg = record {
  channel_id = value_or proto.channel_id 0;
  permissions = value_or proto.permissions 0;
  flush = value_or proto.flush false;
}

pub unpack_permission_query-pack_permission_query :
    (msg : PermissionQuery)
    → unpack_permission_query (pack_permission_query msg) fresh_permission_query ≡ msg
unfolding pack_permission_query unpack_permission_query
unpack_permission_query-pack_permission_query msg = refl
