-- ===== src/Tcp/Bans.antt =====
-- BanList of include/mumble/Message.hpp, and its cases in src/Pack.cpp.
use libmumble.Prelude.{◌≡◌, refl, ap, Bool, false, Option, some, ℕ, List, [], ◌++◌, map}
use libmumble.Tcp.Fields.{Bytes, value_or, map-map}
use libmumble.Tcp.Externals.{Externals}

-- `Message::BanList::BanEntry`.
pub record BanEntry (ext : Externals) : Type 0 where
  pub address : ext.Ip
  pub mask : ℕ
  pub name : Bytes
  pub hash : Bytes
  pub reason : Bytes
  pub start : Bytes
  pub duration : ℕ

-- `Message::BanList`.
pub record BanList (ext : Externals) : Type 0 where
  pub bans : List (BanEntry ext)
  pub query : Bool

pub record BanEntryProto : Type 0 where
  pub address : Option Bytes
  pub mask : Option ℕ
  pub name : Option Bytes
  pub hash : Option Bytes
  pub reason : Option Bytes
  pub start : Option Bytes
  pub duration : Option ℕ

pub record BanListProto : Type 0 where
  pub bans : List BanEntryProto
  pub query : Option Bool

module _ (ext : Externals) where
  abbrev pub fresh_ban_list : BanList ext
  fresh_ban_list = record { bans = []; query = false }

  unfoldable pub pack_ban : BanEntry ext → BanEntryProto
  pack_ban ban = record {
    address = some (ext.v6 ban.address);
    mask = some ban.mask;
    name = some ban.name;
    hash = some ban.hash;
    reason = some ban.reason;
    start = some ban.start;
    duration = some ban.duration;
  }

  unfoldable pub unpack_ban : BanEntryProto → BanEntry ext
  unpack_ban ban = record {
    address = ext.of_string (value_or ban.address []);
    mask = value_or ban.mask 0;
    name = value_or ban.name [];
    hash = value_or ban.hash [];
    reason = value_or ban.reason [];
    start = value_or ban.start [];
    duration = value_or ban.duration 0;
  }

  unfoldable pub pack_ban_list : BanList ext → BanListProto
  unfolding pack_ban
  pack_ban_list msg = record { bans = map pack_ban msg.bans; query = some msg.query }

  unfoldable pub unpack_ban_list : BanListProto → BanList ext → BanList ext
  unfolding unpack_ban
  unpack_ban_list proto msg = record {
    bans = msg.bans ++ map unpack_ban proto.bans;
    query = value_or proto.query false;
  }

  -- A ban as it comes back: its address is what the constructor from a string makes of the sixteen
  -- bytes.
  unfoldable pub received_ban : BanEntry ext → BanEntry ext
  received_ban ban = record ban { address = ext.of_string (ext.v6 ban.address) }

  unpack_ban-pack_ban : (ban : BanEntry ext) → unpack_ban (pack_ban ban) ≡ received_ban ban
  unfolding unpack_ban pack_ban received_ban
  unpack_ban-pack_ban ban = refl

  pub unpack_ban_list-pack_ban_list :
      (msg : BanList ext)
      → unpack_ban_list (pack_ban_list msg) fresh_ban_list
        ≡ record msg { bans = map received_ban msg.bans }
  unfolding unpack_ban_list pack_ban_list
  unpack_ban_list-pack_ban_list msg =
      ap (λ (bs : List (BanEntry ext)). record { bans = bs; query = msg.query })
        (map-map pack_ban unpack_ban received_ban unpack_ban-pack_ban msg.bans)
