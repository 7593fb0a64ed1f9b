-- ===== src/Tcp/Access.antt =====
-- The access lists of a channel: ACL of include/mumble/Message.hpp, and its cases in src/Pack.cpp.
use libmumble.Prelude.{ℕ, ◌≡◌, refl, Bool, true, false, Option, none, some}
use libmumble.Prelude.{List, [], ◌++◌, map}
use libmumble.Tcp.Fields.{Bytes, value_or, keep, keep-none}
use libmumble.Tcp.Fields.{map-map_self}

-- `Message::ACL::ChanGroup`.
pub record ChanGroup : Type 0 where
  pub name : Bytes
  pub inherited : Bool
  pub inherit : Bool
  pub inheritable : Bool
  pub add : List ℕ
  pub remove : List ℕ
  pub inherited_members : List ℕ

abbrev pub fresh_chan_group : ChanGroup
fresh_chan_group = record {
  name = [];
  inherited = true;
  inherit = true;
  inheritable = true;
  add = [];
  remove = [];
  inherited_members = [];
}

pub record ChanGroupProto : Type 0 where
  pub name : Option Bytes
  pub inherited : Option Bool
  pub inherit : Option Bool
  pub inheritable : Option Bool
  pub add : List ℕ
  pub remove : List ℕ
  pub inherited_members : List ℕ

unfoldable pub pack_chan_group : ChanGroup → ChanGroupProto
pack_chan_group msg = record {
  name = some msg.name;
  inherited = some msg.inherited;
  inherit = some msg.inherit;
  inheritable = some msg.inheritable;
  add = msg.add;
  remove = msg.remove;
  inherited_members = msg.inherited_members;
}

unfoldable pub unpack_chan_group : ChanGroupProto → ChanGroup → ChanGroup
unpack_chan_group proto msg = record {
  name = value_or proto.name [];
  inherited = value_or proto.inherited true;
  inherit = value_or proto.inherit true;
  inheritable = value_or proto.inheritable true;
  add = msg.add ++ proto.add;
  remove = msg.remove ++ proto.remove;
  inherited_members = msg.inherited_members ++ proto.inherited_members;
}

pub unpack_chan_group-pack_chan_group :
    (msg : ChanGroup) → unpack_chan_group (pack_chan_group msg) fresh_chan_group ≡ msg
unfolding pack_chan_group unpack_chan_group
unpack_chan_group-pack_chan_group msg = refl

-- `Message::ACL::ChanACL`.
pub record ChanAcl : Type 0 where
  pub apply_here : Bool
  pub apply_subs : Bool
  pub inherited : Bool
  pub user_id : Option ℕ
  pub group : Bytes
  pub grant : ℕ
  pub deny : ℕ

abbrev pub fresh_chan_acl : ChanAcl
fresh_chan_acl = record {
  apply_here = true;
  apply_subs = true;
  inherited = true;
  user_id = none;
  group = [];
  grant = 0;
  deny = 0;
}

pub record ChanAclProto : Type 0 where
  pub apply_here : Option Bool
  pub apply_subs : Option Bool
  pub inherited : Option Bool
  pub user_id : Option ℕ
  pub group : Option Bytes
  pub grant : Option ℕ
  pub deny : Option ℕ

unfoldable pub pack_chan_acl : ChanAcl → ChanAclProto
pack_chan_acl msg = record {
  apply_here = some msg.apply_here;
  apply_subs = some msg.apply_subs;
  inherited = some msg.inherited;
  user_id = msg.user_id;
  group = some msg.group;
  grant = some msg.grant;
  deny = some msg.deny;
}

unfoldable pub unpack_chan_acl : ChanAclProto → ChanAcl → ChanAcl
unpack_chan_acl proto msg = record {
  apply_here = value_or proto.apply_here true;
  apply_subs = value_or proto.apply_subs true;
  inherited = value_or proto.inherited true;
  user_id = keep proto.user_id msg.user_id;
  group = value_or proto.group [];
  grant = value_or proto.grant 0;
  deny = value_or proto.deny 0;
}

pub unpack_chan_acl-pack_chan_acl :
    (msg : ChanAcl) → unpack_chan_acl (pack_chan_acl msg) fresh_chan_acl ≡ msg
unfolding pack_chan_acl unpack_chan_acl
unpack_chan_acl-pack_chan_acl msg = simp keep-none

-- `Message::ACL`.
pub record Acl : Type 0 where
  pub channel_id : ℕ
  pub inherit_acls : Bool
  pub groups : List ChanGroup
  pub acls : List ChanAcl
  pub query : Bool

abbrev pub fresh_acl : Acl
fresh_acl = record { channel_id = 0; inherit_acls = true; groups = []; acls = []; query = false }

pub record AclProto : Type 0 where
  pub channel_id : Option ℕ
  pub inherit_acls : Option Bool
  pub groups : List ChanGroupProto
  pub acls : List ChanAclProto
  pub query : Option Bool

unfoldable pub pack_acl : Acl → AclProto
unfolding pack_chan_group pack_chan_acl
pack_acl msg = record {
  channel_id = some msg.channel_id;
  inherit_acls = some msg.inherit_acls;
  groups = map pack_chan_group msg.groups;
  acls = map pack_chan_acl msg.acls;
  query = some msg.query;
}

unfoldable pub unpack_acl : AclProto → Acl → Acl
unfolding unpack_chan_group unpack_chan_acl
unpack_acl proto msg = record {
  channel_id = value_or proto.channel_id 0;
  inherit_acls = value_or proto.inherit_acls true;
  groups = msg.groups ++ map (λ p. unpack_chan_group p fresh_chan_group) proto.groups;
  acls = msg.acls ++ map (λ p. unpack_chan_acl p fresh_chan_acl) proto.acls;
  query = value_or proto.query false;
}

pub unpack_acl-pack_acl : (msg : Acl) → unpack_acl (pack_acl msg) fresh_acl ≡ msg
unfolding pack_acl unpack_acl
unpack_acl-pack_acl msg = simp (
  map-map_self pack_chan_group (λ p. unpack_chan_group p fresh_chan_group)
      unpack_chan_group-pack_chan_group msg.groups,
  map-map_self pack_chan_acl (λ p. unpack_chan_acl p fresh_chan_acl) unpack_chan_acl-pack_chan_acl
      msg.acls,
)
