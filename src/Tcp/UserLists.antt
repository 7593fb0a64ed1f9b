-- ===== src/Tcp/UserLists.antt =====
-- The messages about registered users and voice targets: QueryUsers, UserList and VoiceTarget of
-- include/mumble/Message.hpp, and their cases in src/Pack.cpp.
use libmumble.Prelude.{ℕ, ◌≡◌, refl, ap, Bool, false, Option, none, some}
use libmumble.Prelude.{List, [], ◌++◌, map}
use libmumble.Tcp.Fields.{Bytes, uint32_max, value_or, keep, keep-none}
use libmumble.Tcp.Fields.{map-map, map-map_self}

-- `Message::UserList::User`. The last channel is written if it is there, and always read.
pub record User : Type 0 where
  pub user_id : ℕ
  pub name : Bytes
  pub last_seen : Bytes
  pub last_channel : Option ℕ

abbrev pub fresh_user : User
fresh_user = record { user_id = uint32_max; name = []; last_seen = []; last_channel = none }

pub record UserProto : Type 0 where
  pub user_id : Option ℕ
  pub name : Option Bytes
  pub last_seen : Option Bytes
  pub last_channel : Option ℕ

unfoldable pub pack_user : User → UserProto
pack_user msg = record {
  user_id = some msg.user_id;
  name = some msg.name;
  last_seen = some msg.last_seen;
  last_channel = msg.last_channel;
}

unfoldable pub unpack_user : UserProto → User → User
unpack_user proto msg = record {
  user_id = value_or proto.user_id 0;
  name = value_or proto.name [];
  last_seen = value_or proto.last_seen [];
  last_channel = some (value_or proto.last_channel 0);
}

pub unpack_user-pack_user :
    (msg : User)
    → unpack_user (pack_user msg) fresh_user
      ≡ record msg { last_channel = some (value_or msg.last_channel 0) }
unfolding pack_user unpack_user
unpack_user-pack_user msg = refl

-- `Message::QueryUsers`.
pub record QueryUsers : Type 0 where
  pub ids : List ℕ
  pub names : List Bytes

abbrev pub fresh_query_users : QueryUsers
fresh_query_users = record { ids = []; names = [] }

pub record QueryUsersProto : Type 0 where
  pub ids : List ℕ
  pub names : List Bytes

unfoldable pub pack_query_users : QueryUsers → QueryUsersProto
pack_query_users msg = record { ids = msg.ids; names = msg.names }

unfoldable pub unpack_query_users : QueryUsersProto → QueryUsers → QueryUsers
unpack_query_users proto msg = record {
  ids = msg.ids ++ proto.ids;
  names = msg.names ++ proto.names;
}

pub unpack_query_users-pack_query_users :
    (msg : QueryUsers) → unpack_query_users (pack_query_users msg) fresh_query_users ≡ msg
unfolding pack_query_users unpack_query_users
unpack_query_users-pack_query_users msg = refl

-- `Message::VoiceTarget::Target`.
pub record Target : Type 0 where
  pub session : List ℕ
  pub channel_id : Option ℕ
  pub group : Bytes
  pub links : Bool
  pub children : Bool

abbrev pub fresh_target : Target
fresh_target = record {
  session = [];
  channel_id = none;
  group = [];
  links = false;
  children = false;
}

pub record TargetProto : Type 0 where
  pub session : List ℕ
  pub channel_id : Option ℕ
  pub group : Option Bytes
  pub links : Option Bool
  pub children : Option Bool

unfoldable pub pack_target : Target → TargetProto
pack_target msg = record {
  session = msg.session;
  channel_id = msg.channel_id;
  group = some msg.group;
  links = some msg.links;
  children = some msg.children;
}

unfoldable pub unpack_target : TargetProto → Target → Target
unpack_target proto msg = record {
  session = msg.session ++ proto.session;
  channel_id = keep proto.channel_id msg.channel_id;
  group = value_or proto.group [];
  links = value_or proto.links false;
  children = value_or proto.children false;
}

pub unpack_target-pack_target : (msg : Target) → unpack_target (pack_target msg) fresh_target ≡ msg
unfolding pack_target unpack_target
unpack_target-pack_target msg = simp keep-none

-- `Message::VoiceTarget`.
pub record VoiceTarget : Type 0 where
  pub id : ℕ
  pub targets : List Target

abbrev pub fresh_voice_target : VoiceTarget
fresh_voice_target = record { id = uint32_max; targets = [] }

pub record VoiceTargetProto : Type 0 where
  pub id : Option ℕ
  pub targets : List TargetProto

unfoldable pub pack_voice_target : VoiceTarget → VoiceTargetProto
unfolding pack_target
pack_voice_target msg = record { id = some msg.id; targets = map pack_target msg.targets }

unfoldable pub unpack_voice_target : VoiceTargetProto → VoiceTarget → VoiceTarget
unfolding unpack_target
unpack_voice_target proto msg = record {
  id = value_or proto.id 0;
  targets = msg.targets ++ map (λ p. unpack_target p fresh_target) proto.targets;
}

pub unpack_voice_target-pack_voice_target :
    (msg : VoiceTarget) → unpack_voice_target (pack_voice_target msg) fresh_voice_target ≡ msg
unfolding pack_voice_target unpack_voice_target
unpack_voice_target-pack_voice_target msg = simp (
    map-map_self pack_target (λ p. unpack_target p fresh_target) unpack_target-pack_target
      msg.targets)

-- `Message::UserList`.
pub record UserList : Type 0 where
  pub users : List User

abbrev pub fresh_user_list : UserList
fresh_user_list = record { users = [] }

pub record UserListProto : Type 0 where
  pub users : List UserProto

unfoldable pub pack_user_list : UserList → UserListProto
unfolding pack_user
pack_user_list msg = record { users = map pack_user msg.users }

unfoldable pub unpack_user_list : UserListProto → UserList → UserList
unfolding unpack_user
unpack_user_list proto msg = record {
  users = msg.users ++ map (λ p. unpack_user p fresh_user) proto.users;
}

-- A user as it is read: one with no last channel comes back in the root channel.
unfoldable pub read_user : User → User
read_user user = record user { last_channel = some (value_or user.last_channel 0) }

pub unpack_user_list-pack_user_list :
    (msg : UserList)
    → unpack_user_list (pack_user_list msg) fresh_user_list
      ≡ record { users = map read_user msg.users }
unfolding pack_user_list unpack_user_list read_user
unpack_user_list-pack_user_list msg =
    ap (λ (us : List User). record { users = us })
      (map-map pack_user (λ p. unpack_user p fresh_user) read_user unpack_user-pack_user msg.users)
