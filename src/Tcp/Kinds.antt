-- ===== src/Tcp/Kinds.antt =====
-- The kinds of TCP message that go through the protobuf library, which is all of
-- `tcp::Message::Type` but UDPTunnel, and the fields that src/Pack.cpp moves for each kind.
use libmumble.Prelude.{ℕ, ◌≡◌, refl, sym, ap, ◌∙◌, Option, none, some, List, [], ◌∷◌, get_elem?}
use libmumble.Tcp.Fields.{value_or}
use libmumble.Tcp.Externals.{Externals}
use libmumble.Tcp.Versions.{VersionMessage, VersionProto, fresh_version}
use libmumble.Tcp.Versions.{SuggestConfig, SuggestConfigProto, fresh_suggest_config}
use libmumble.Tcp.Session.{Authenticate, AuthenticateProto, fresh_authenticate}
use libmumble.Tcp.Session.{Ping, PingProto, fresh_ping}
use libmumble.Tcp.Session.{Reject, RejectProto, fresh_reject}
use libmumble.Tcp.Session.{ServerSync, ServerSyncProto, fresh_server_sync}
use libmumble.Tcp.Session.{CryptSetup, CryptSetupProto, fresh_crypt_setup}
use libmumble.Tcp.Channels.{ChannelRemove, ChannelRemoveProto, fresh_channel_remove}
use libmumble.Tcp.Channels.{ChannelState, ChannelStateProto, fresh_channel_state}
use libmumble.Tcp.Channels.{TextMessage, TextMessageProto, fresh_text_message}
use libmumble.Tcp.Channels.{PermissionDenied, PermissionDeniedProto, fresh_permission_denied}
use libmumble.Tcp.Channels.{PermissionQuery, PermissionQueryProto, fresh_permission_query}
use libmumble.Tcp.Users.{UserRemove, UserRemoveProto, fresh_user_remove}
use libmumble.Tcp.Users.{UserState, UserStateProto, fresh_user_state}
use libmumble.Tcp.UserLists.{QueryUsers, QueryUsersProto, fresh_query_users}
use libmumble.Tcp.UserLists.{UserList, UserListProto, fresh_user_list}
use libmumble.Tcp.UserLists.{VoiceTarget, VoiceTargetProto, fresh_voice_target}
use libmumble.Tcp.Bans.{BanList, BanListProto, fresh_ban_list}
use libmumble.Tcp.Access.{Acl, AclProto, fresh_acl}
use libmumble.Tcp.Server.{
  ContextActionModify, ContextActionModifyProto, fresh_context_action_modify,
}
use libmumble.Tcp.Server.{ContextAction, ContextActionProto, fresh_context_action}
use libmumble.Tcp.Server.{CodecVersion, CodecVersionProto, fresh_codec_version}
use libmumble.Tcp.Server.{RequestBlob, RequestBlobProto, fresh_request_blob}
use libmumble.Tcp.Server.{ServerConfig, ServerConfigProto, fresh_server_config}
use libmumble.Tcp.Server.{
  PluginDataTransmission, PluginDataTransmissionProto, fresh_plugin_data_transmission,
}
use libmumble.Tcp.Stats.{UserStats, UserStatsProto, fresh_user_stats}

pub data Kind : Type 0 where
  version authenticate ping reject server_sync channel_remove : Kind
  channel_state user_remove user_state ban_list text_message permission_denied : Kind
  acl query_users crypt_setup context_action_modify context_action user_list : Kind
  voice_target permission_query codec_version user_stats request_blob server_config : Kind
  suggest_config plugin_data_transmission : Kind

-- The number of a kind in `tcp::Message::Type`, and of its message in src/proto/MumbleTCP.proto.
-- UDPTunnel is number 1.
unfoldable pub index : Kind → ℕ
index version = 0
index authenticate = 2
index ping = 3
index reject = 4
index server_sync = 5
index channel_remove = 6
index channel_state = 7
index user_remove = 8
index user_state = 9
index ban_list = 10
index text_message = 11
index permission_denied = 12
index acl = 13
index query_users = 14
index crypt_setup = 15
index context_action_modify = 16
index context_action = 17
index user_list = 18
index voice_target = 19
index permission_query = 20
index codec_version = 21
index user_stats = 22
index request_blob = 23
index server_config = 24
index suggest_config = 25
index plugin_data_transmission = 26

kinds : List (Option Kind)
kinds =
    some version
    ∷ none
    ∷ some authenticate
    ∷ some ping
    ∷ some reject
    ∷ some server_sync
    ∷ some channel_remove
    ∷ some channel_state
    ∷ some user_remove
    ∷ some user_state
    ∷ some ban_list
    ∷ some text_message
    ∷ some permission_denied
    ∷ some acl
    ∷ some query_users
    ∷ some crypt_setup
    ∷ some context_action_modify
    ∷ some context_action
    ∷ some user_list
    ∷ some voice_target
    ∷ some permission_query
    ∷ some codec_version
    ∷ some user_stats
    ∷ some request_blob
    ∷ some server_config
    ∷ some suggest_config
    ∷ some plugin_data_transmission
    ∷ []

kinds-index : (k : Kind) → get_elem? kinds (index k) ≡ some (some k)
unfolding kinds index
kinds-index version = refl
kinds-index authenticate = refl
kinds-index ping = refl
kinds-index reject = refl
kinds-index server_sync = refl
kinds-index channel_remove = refl
kinds-index channel_state = refl
kinds-index user_remove = refl
kinds-index user_state = refl
kinds-index ban_list = refl
kinds-index text_message = refl
kinds-index permission_denied = refl
kinds-index acl = refl
kinds-index query_users = refl
kinds-index crypt_setup = refl
kinds-index context_action_modify = refl
kinds-index context_action = refl
kinds-index user_list = refl
kinds-index voice_target = refl
kinds-index permission_query = refl
kinds-index codec_version = refl
kinds-index user_stats = refl
kinds-index request_blob = refl
kinds-index server_config = refl
kinds-index suggest_config = refl
kinds-index plugin_data_transmission = refl

some-back : {A : Type 0} (d x y : A) → some x ≡ some y → x ≡ y
some-back d x y e = ap (λ o. value_or o d) e

pub index-injective : (j k : Kind) → index j ≡ index k → j ≡ k
index-injective j k e = some-back j j k (
    some-back none (some j) (some k)
      (sym (kinds-index j) ∙ ap (λ (i : ℕ). get_elem? kinds i) e ∙ kinds-index k))

module _ (ext : Externals) where
  abbrev pub MessageOf : Kind → Type 0
  MessageOf version = VersionMessage
  MessageOf authenticate = Authenticate
  MessageOf ping = Ping
  MessageOf reject = Reject
  MessageOf server_sync = ServerSync
  MessageOf channel_remove = ChannelRemove
  MessageOf channel_state = ChannelState
  MessageOf user_remove = UserRemove
  MessageOf user_state = UserState
  MessageOf ban_list = BanList ext
  MessageOf text_message = TextMessage
  MessageOf permission_denied = PermissionDenied
  MessageOf acl = Acl
  MessageOf query_users = QueryUsers
  MessageOf crypt_setup = CryptSetup
  MessageOf context_action_modify = ContextActionModify
  MessageOf context_action = ContextAction
  MessageOf user_list = UserList
  MessageOf voice_target = VoiceTarget
  MessageOf permission_query = PermissionQuery
  MessageOf codec_version = CodecVersion
  MessageOf user_stats = UserStats ext
  MessageOf request_blob = RequestBlob
  MessageOf server_config = ServerConfig
  MessageOf suggest_config = SuggestConfig
  MessageOf plugin_data_transmission = PluginDataTransmission

  abbrev pub ProtoOf : Kind → Type 0
  ProtoOf version = VersionProto
  ProtoOf authenticate = AuthenticateProto
  ProtoOf ping = PingProto
  ProtoOf reject = RejectProto
  ProtoOf server_sync = ServerSyncProto
  ProtoOf channel_remove = ChannelRemoveProto
  ProtoOf channel_state = ChannelStateProto
  ProtoOf user_remove = UserRemoveProto
  ProtoOf user_state = UserStateProto
  ProtoOf ban_list = BanListProto
  ProtoOf text_message = TextMessageProto
  ProtoOf permission_denied = PermissionDeniedProto
  ProtoOf acl = AclProto
  ProtoOf query_users = QueryUsersProto
  ProtoOf crypt_setup = CryptSetupProto
  ProtoOf context_action_modify = ContextActionModifyProto
  ProtoOf context_action = ContextActionProto
  ProtoOf user_list = UserListProto
  ProtoOf voice_target = VoiceTargetProto
  ProtoOf permission_query = PermissionQueryProto
  ProtoOf codec_version = CodecVersionProto
  ProtoOf user_stats = UserStatsProto
  ProtoOf request_blob = RequestBlobProto
  ProtoOf server_config = ServerConfigProto
  ProtoOf suggest_config = SuggestConfigProto
  ProtoOf plugin_data_transmission = PluginDataTransmissionProto

  abbrev pub fresh : (k : Kind) → MessageOf k
  fresh version = fresh_version
  fresh authenticate = fresh_authenticate
  fresh ping = fresh_ping
  fresh reject = fresh_reject
  fresh server_sync = fresh_server_sync
  fresh channel_remove = fresh_channel_remove
  fresh channel_state = fresh_channel_state
  fresh user_remove = fresh_user_remove
  fresh user_state = fresh_user_state
  fresh ban_list = fresh_ban_list ext
  fresh text_message = fresh_text_message
  fresh permission_denied = fresh_permission_denied
  fresh acl = fresh_acl
  fresh query_users = fresh_query_users
  fresh crypt_setup = fresh_crypt_setup
  fresh context_action_modify = fresh_context_action_modify
  fresh context_action = fresh_context_action
  fresh user_list = fresh_user_list
  fresh voice_target = fresh_voice_target
  fresh permission_query = fresh_permission_query
  fresh codec_version = fresh_codec_version
  fresh user_stats = fresh_user_stats ext
  fresh request_blob = fresh_request_blob
  fresh server_config = fresh_server_config
  fresh suggest_config = fresh_suggest_config
  fresh plugin_data_transmission = fresh_plugin_data_transmission
