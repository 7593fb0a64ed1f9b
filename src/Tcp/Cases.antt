-- ===== src/Tcp/Cases.antt =====
-- The fields that src/Pack.cpp moves for each kind of TCP message: the cases of `TCP::Pack` and of
-- `TCP::operator()`, put together.
use libmumble.Prelude.{◌≡◌, some, map}
use libmumble.Version.Blobs.{IsVersion}
use libmumble.Tcp.Fields.{value_or}
use libmumble.Tcp.Externals.{Externals}
use libmumble.Tcp.Versions.{pack_version, unpack_version}
use libmumble.Tcp.Versions.{unpack_version-pack_version}
use libmumble.Tcp.Versions.{pack_suggest_config, unpack_suggest_config}
use libmumble.Tcp.Versions.{unpack_suggest_config-pack_suggest_config}
use libmumble.Tcp.Session.{pack_authenticate, unpack_authenticate}
use libmumble.Tcp.Session.{unpack_authenticate-pack_authenticate}
use libmumble.Tcp.Session.{pack_ping, unpack_ping}
use libmumble.Tcp.Session.{unpack_ping-pack_ping}
use libmumble.Tcp.Session.{pack_reject, unpack_reject}
use libmumble.Tcp.Session.{unpack_reject-pack_reject}
use libmumble.Tcp.Session.{pack_server_sync, unpack_server_sync}
use libmumble.Tcp.Session.{unpack_server_sync-pack_server_sync}
use libmumble.Tcp.Session.{pack_crypt_setup, unpack_crypt_setup}
use libmumble.Tcp.Session.{unpack_crypt_setup-pack_crypt_setup}
use libmumble.Tcp.Channels.{pack_channel_remove, unpack_channel_remove}
use libmumble.Tcp.Channels.{unpack_channel_remove-pack_channel_remove}
use libmumble.Tcp.Channels.{pack_channel_state, unpack_channel_state}
use libmumble.Tcp.Channels.{unpack_channel_state-pack_channel_state}
use libmumble.Tcp.Channels.{pack_text_message, unpack_text_message}
use libmumble.Tcp.Channels.{unpack_text_message-pack_text_message}
use libmumble.Tcp.Channels.{pack_permission_denied, unpack_permission_denied}
use libmumble.Tcp.Channels.{unpack_permission_denied-pack_permission_denied}
use libmumble.Tcp.Channels.{pack_permission_query, unpack_permission_query}
use libmumble.Tcp.Channels.{unpack_permission_query-pack_permission_query}
use libmumble.Tcp.Users.{pack_user_remove, unpack_user_remove}
use libmumble.Tcp.Users.{unpack_user_remove-pack_user_remove}
use libmumble.Tcp.Users.{pack_user_state, unpack_user_state}
use libmumble.Tcp.Users.{unpack_user_state-pack_user_state}
use libmumble.Tcp.UserLists.{pack_query_users, unpack_query_users}
use libmumble.Tcp.UserLists.{unpack_query_users-pack_query_users}
use libmumble.Tcp.UserLists.{pack_user_list, unpack_user_list}
use libmumble.Tcp.UserLists.{unpack_user_list-pack_user_list}
use libmumble.Tcp.UserLists.{pack_voice_target, unpack_voice_target}
use libmumble.Tcp.UserLists.{unpack_voice_target-pack_voice_target}
use libmumble.Tcp.Bans.{pack_ban_list, unpack_ban_list, received_ban}
use libmumble.Tcp.Bans.{unpack_ban_list-pack_ban_list}
use libmumble.Tcp.Access.{pack_acl, unpack_acl}
use libmumble.Tcp.Access.{unpack_acl-pack_acl}
use libmumble.Tcp.Server.{pack_context_action_modify, unpack_context_action_modify}
use libmumble.Tcp.Server.{unpack_context_action_modify-pack_context_action_modify}
use libmumble.Tcp.Server.{pack_context_action, unpack_context_action}
use libmumble.Tcp.Server.{unpack_context_action-pack_context_action}
use libmumble.Tcp.Server.{pack_codec_version, unpack_codec_version}
use libmumble.Tcp.Server.{unpack_codec_version-pack_codec_version}
use libmumble.Tcp.Server.{pack_request_blob, unpack_request_blob}
use libmumble.Tcp.Server.{unpack_request_blob-pack_request_blob}
use libmumble.Tcp.Server.{pack_server_config, unpack_server_config}
use libmumble.Tcp.Server.{unpack_server_config-pack_server_config}
use libmumble.Tcp.Server.{pack_plugin_data_transmission, unpack_plugin_data_transmission}
use libmumble.Tcp.Server.{unpack_plugin_data_transmission-pack_plugin_data_transmission}
use libmumble.Tcp.Stats.{pack_user_stats, unpack_user_stats, received_user_stats}
use libmumble.Tcp.Stats.{unpack_user_stats-pack_user_stats}
use libmumble.Tcp.UserLists.{read_user}
use libmumble.Tcp.Versions.{if_valid, FitsIfAny}
use libmumble.Tcp.Kinds.{Kind, MessageOf, ProtoOf, fresh}
use libmumble.Tcp.Kinds.{version, authenticate, ping, reject, server_sync}
use libmumble.Tcp.Kinds.{channel_remove, channel_state, user_remove, user_state, ban_list}
use libmumble.Tcp.Kinds.{text_message, permission_denied, acl, query_users, crypt_setup}
use libmumble.Tcp.Kinds.{
  context_action_modify, context_action, user_list, voice_target, permission_query,
}
use libmumble.Tcp.Kinds.{codec_version, user_stats, request_blob, server_config, suggest_config}
use libmumble.Tcp.Kinds.{plugin_data_transmission}

module _ (ext : Externals) where
  -- The cases of `TCP::Pack(const Message &)`.
  unfoldable pub pack_fields : (k : Kind) → MessageOf ext k → ProtoOf ext k
  pack_fields version msg = pack_version msg
  pack_fields authenticate msg = pack_authenticate msg
  pack_fields ping msg = pack_ping msg
  pack_fields reject msg = pack_reject msg
  pack_fields server_sync msg = pack_server_sync msg
  pack_fields channel_remove msg = pack_channel_remove msg
  pack_fields channel_state msg = pack_channel_state msg
  pack_fields user_remove msg = pack_user_remove msg
  pack_fields user_state msg = pack_user_state msg
  pack_fields ban_list msg = pack_ban_list ext msg
  pack_fields text_message msg = pack_text_message msg
  pack_fields permission_denied msg = pack_permission_denied msg
  pack_fields acl msg = pack_acl msg
  pack_fields query_users msg = pack_query_users msg
  pack_fields crypt_setup msg = pack_crypt_setup msg
  pack_fields context_action_modify msg = pack_context_action_modify msg
  pack_fields context_action msg = pack_context_action msg
  pack_fields user_list msg = pack_user_list msg
  pack_fields voice_target msg = pack_voice_target msg
  pack_fields permission_query msg = pack_permission_query msg
  pack_fields codec_version msg = pack_codec_version msg
  pack_fields user_stats msg = pack_user_stats ext msg
  pack_fields request_blob msg = pack_request_blob msg
  pack_fields server_config msg = pack_server_config msg
  pack_fields suggest_config msg = pack_suggest_config msg
  pack_fields plugin_data_transmission msg = pack_plugin_data_transmission msg

  -- The cases of `TCP::operator()`, on the message that is handed in.
  unfoldable pub unpack_fields : (k : Kind) → ProtoOf ext k → MessageOf ext k → MessageOf ext k
  unpack_fields version proto msg = unpack_version proto msg
  unpack_fields authenticate proto msg = unpack_authenticate proto msg
  unpack_fields ping proto msg = unpack_ping proto msg
  unpack_fields reject proto msg = unpack_reject proto msg
  unpack_fields server_sync proto msg = unpack_server_sync proto msg
  unpack_fields channel_remove proto msg = unpack_channel_remove proto msg
  unpack_fields channel_state proto msg = unpack_channel_state proto msg
  unpack_fields user_remove proto msg = unpack_user_remove proto msg
  unpack_fields user_state proto msg = unpack_user_state proto msg
  unpack_fields ban_list proto msg = unpack_ban_list ext proto msg
  unpack_fields text_message proto msg = unpack_text_message proto msg
  unpack_fields permission_denied proto msg = unpack_permission_denied proto msg
  unpack_fields acl proto msg = unpack_acl proto msg
  unpack_fields query_users proto msg = unpack_query_users proto msg
  unpack_fields crypt_setup proto msg = unpack_crypt_setup proto msg
  unpack_fields context_action_modify proto msg = unpack_context_action_modify proto msg
  unpack_fields context_action proto msg = unpack_context_action proto msg
  unpack_fields user_list proto msg = unpack_user_list proto msg
  unpack_fields voice_target proto msg = unpack_voice_target proto msg
  unpack_fields permission_query proto msg = unpack_permission_query proto msg
  unpack_fields codec_version proto msg = unpack_codec_version proto msg
  unpack_fields user_stats proto msg = unpack_user_stats ext proto msg
  unpack_fields request_blob proto msg = unpack_request_blob proto msg
  unpack_fields server_config proto msg = unpack_server_config proto msg
  unpack_fields suggest_config proto msg = unpack_suggest_config proto msg
  unpack_fields plugin_data_transmission proto msg = unpack_plugin_data_transmission proto msg

  -- What is left of a message: an absent user ID and an absent last channel come back as 0, and a
  -- suggested version that is not valid as none.
  unfoldable pub received : (k : Kind) → MessageOf ext k → MessageOf ext k
  received user_state msg = record msg { user_id = some (value_or msg.user_id 0) }
  received user_list msg = record { users = map read_user msg.users }
  received suggest_config msg = record msg { version = if_valid msg.version }
  received version msg = msg
  received authenticate msg = msg
  received ping msg = msg
  received reject msg = msg
  received server_sync msg = msg
  received channel_remove msg = msg
  received channel_state msg = msg
  received user_remove msg = msg
  received ban_list msg = record msg { bans = map (received_ban ext) msg.bans }
  received text_message msg = msg
  received permission_denied msg = msg
  received acl msg = msg
  received query_users msg = msg
  received crypt_setup msg = msg
  received context_action_modify msg = msg
  received context_action msg = msg
  received voice_target msg = msg
  received permission_query msg = msg
  received codec_version msg = msg
  received user_stats msg = received_user_stats ext msg
  received request_blob msg = msg
  received server_config msg = msg
  received plugin_data_transmission msg = msg

  -- The versions in a message fit their parts.
  abbrev pub VersionsFit : (k : Kind) → MessageOf ext k → Type 0
  VersionsFit version msg = IsVersion msg.version
  VersionsFit user_stats msg = IsVersion msg.version.version
  VersionsFit suggest_config msg = FitsIfAny msg.version
  VersionsFit authenticate msg = Unit {0}
  VersionsFit ping msg = Unit {0}
  VersionsFit reject msg = Unit {0}
  VersionsFit server_sync msg = Unit {0}
  VersionsFit channel_remove msg = Unit {0}
  VersionsFit channel_state msg = Unit {0}
  VersionsFit user_remove msg = Unit {0}
  VersionsFit user_state msg = Unit {0}
  VersionsFit ban_list msg = Unit {0}
  VersionsFit text_message msg = Unit {0}
  VersionsFit permission_denied msg = Unit {0}
  VersionsFit acl msg = Unit {0}
  VersionsFit query_users msg = Unit {0}
  VersionsFit crypt_setup msg = Unit {0}
  VersionsFit context_action_modify msg = Unit {0}
  VersionsFit context_action msg = Unit {0}
  VersionsFit user_list msg = Unit {0}
  VersionsFit voice_target msg = Unit {0}
  VersionsFit permission_query msg = Unit {0}
  VersionsFit codec_version msg = Unit {0}
  VersionsFit request_blob msg = Unit {0}
  VersionsFit server_config msg = Unit {0}
  VersionsFit plugin_data_transmission msg = Unit {0}

  pub unpack_fields-pack_fields :
      (k : Kind) (msg : MessageOf ext k)
      → VersionsFit k msg
      → unpack_fields k (pack_fields k msg) (fresh ext k) ≡ received k msg
  unfolding unpack_fields pack_fields received
  unpack_fields-pack_fields version msg h = unpack_version-pack_version msg h
  unpack_fields-pack_fields authenticate msg h = unpack_authenticate-pack_authenticate msg
  unpack_fields-pack_fields ping msg h = unpack_ping-pack_ping msg
  unpack_fields-pack_fields reject msg h = unpack_reject-pack_reject msg
  unpack_fields-pack_fields server_sync msg h = unpack_server_sync-pack_server_sync msg
  unpack_fields-pack_fields channel_remove msg h = unpack_channel_remove-pack_channel_remove msg
  unpack_fields-pack_fields channel_state msg h = unpack_channel_state-pack_channel_state msg
  unpack_fields-pack_fields user_remove msg h = unpack_user_remove-pack_user_remove msg
  unpack_fields-pack_fields user_state msg h = unpack_user_state-pack_user_state msg
  unpack_fields-pack_fields ban_list msg h = unpack_ban_list-pack_ban_list ext msg
  unpack_fields-pack_fields text_message msg h = unpack_text_message-pack_text_message msg
  unpack_fields-pack_fields permission_denied msg h =
      unpack_permission_denied-pack_permission_denied msg
  unpack_fields-pack_fields acl msg h = unpack_acl-pack_acl msg
  unpack_fields-pack_fields query_users msg h = unpack_query_users-pack_query_users msg
  unpack_fields-pack_fields crypt_setup msg h = unpack_crypt_setup-pack_crypt_setup msg
  unpack_fields-pack_fields context_action_modify msg h =
      unpack_context_action_modify-pack_context_action_modify msg
  unpack_fields-pack_fields context_action msg h = unpack_context_action-pack_context_action msg
  unpack_fields-pack_fields user_list msg h = unpack_user_list-pack_user_list msg
  unpack_fields-pack_fields voice_target msg h = unpack_voice_target-pack_voice_target msg
  unpack_fields-pack_fields permission_query msg h =
      unpack_permission_query-pack_permission_query msg
  unpack_fields-pack_fields codec_version msg h = unpack_codec_version-pack_codec_version msg
  unpack_fields-pack_fields user_stats msg h = unpack_user_stats-pack_user_stats ext msg h
  unpack_fields-pack_fields request_blob msg h = unpack_request_blob-pack_request_blob msg
  unpack_fields-pack_fields server_config msg h = unpack_server_config-pack_server_config msg
  unpack_fields-pack_fields suggest_config msg h = unpack_suggest_config-pack_suggest_config msg h
  unpack_fields-pack_fields plugin_data_transmission msg h =
      unpack_plugin_data_transmission-pack_plugin_data_transmission msg
