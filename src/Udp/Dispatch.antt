-- ===== src/Udp/Dispatch.antt =====
-- What `PeerUDP::P::threadFunc` of src/Peer.cpp does with a packet: the branch on `Code::Success`.
use libmumble.Prelude.{ℕ, ◌+◌, ◌^◌, ◌-◌, ◌≡◌}
use libmumble.Prelude.{Bool, true, false, some, ◌∷◌, ◌++◌, ap, ◌∙◌}
use libmumble.Prelude.{◌==◌, if◌then◌else◌, length, take, u32, arith, append-nil}
use libmumble.Prelude.{length-append, take-append_length, le→leb}
use libmumble.Tcp.Fields.{Bytes, value_or}
use libmumble.Tcp.Versions.{no_version, if_valid, FitsIfAny}
use libmumble.Tcp.Pack.{parsed_size}
use libmumble.Udp.Messages.{Ping, pack_ping, unpack_ping, unpack_ping-pack_ping}
use libmumble.Udp.Pack.{ping, Protobuf, Carries, pack_fields, unpack_fields, message_type, number}
use libmumble.Udp.Pack.{is_plain_ping, pack, parsed, answer, unpack, packed}

-- The callback that gets the packet, where it is set.
pub data Callback : Type 0 where
  on_ping : Ping → Callback
  on_legacy_ping on_encrypted : Bytes → Callback

unfoldable pub plain_or_encrypted : Bytes → Callback
plain_or_encrypted packet =
    if is_plain_ping packet then on_legacy_ping packet else on_encrypted packet

unfoldable pub if_parsed : Bool × Ping → Callback → Callback
if_parsed (true, m) other = on_ping m
if_parsed (false, m) other = other

-- The buffer `buf` holds the packet in its first `size` bytes, and whatever was there before
-- behind; `fresh` is the message that the source declares.
unfoldable pub dispatch : Protobuf → Ping → Bytes → ℕ → Callback
unfolding plain_or_encrypted if_parsed
dispatch pb fresh buf size =
    let other = plain_or_encrypted (take size buf) in
    if message_type buf == number ping
    then if_parsed (unpack pb ping buf fresh (u32 (size + (2 ^ 64 - 1)))) other
    else other

module _ (pb : Protobuf) (msg : Ping) (c : Carries pb ping (pack_fields ping msg)) where
  front_size : (rest : Bytes) → parsed_size (c.bytes ++ rest) (length c.bytes) ≡ length c.bytes
  unfolding parsed_size
  front_size rest = ground (arith, c.small, length-append c.bytes rest)

  parsed_front :
      (rest : Bytes)
      → parsed pb ping (c.bytes ++ rest) (parsed_size (c.bytes ++ rest) (length c.bytes))
        ≡ some (pack_fields ping msg)
  unfolding parsed
  parsed_front rest =
      rw (front_size rest, le→leb _ _ c.small, take-append_length c.bytes rest, c.parsed)

  whole : (rest : Bytes) → pack pb ping msg 0 ++ rest ≡ 1 ∷ (c.bytes ++ rest)
  unfolding number
  whole rest =
      ap (λ (b : Bytes). b ++ rest) (packed pb ping msg 0 c)
      ∙ ap (λ (b : Bytes). 1 ∷ (b ++ rest)) (append-nil c.bytes)

  size_behind_header : u32 (length (pack pb ping msg 0) + (2 ^ 64 - 1)) ≡ length c.bytes
  unfolding number
  size_behind_header =
      let all = ap (λ (b : Bytes). length b) (packed pb ping msg 0 c) in
      let back = ap (λ (b : Bytes). length b) (append-nil c.bytes) in
      ground (arith, all, back, c.small)

  unpacked :
      (fresh : Ping) (rest : Bytes)
      → unpack pb ping (1 ∷ (c.bytes ++ rest)) fresh (length c.bytes)
        ≡ (true, unpack_ping (pack_ping msg) fresh)
  unfolding unpack message_type number answer unpack_fields pack_fields
  unpacked fresh rest = ap (λ o. answer pb ping fresh o) (parsed_front rest)

  -- A packed ping that arrives over a buffer with any bytes left in it reaches the ping callback,
  -- with an absent or invalid version read as 0.0.0 and absent counts as 0. The version fits its parts.
  pub dispatch-pack_ping :
      FitsIfAny msg.version
      → (fresh : Ping) (rest : Bytes)
      → dispatch pb fresh (pack pb ping msg 0 ++ rest) (length (pack pb ping msg 0))
        ≡ on_ping (record msg {
          version = some (value_or (if_valid msg.version) no_version);
          user_count = some (value_or msg.user_count 0);
          max_user_count = some (value_or msg.max_user_count 0);
          max_bandwidth_per_user = some (value_or msg.max_bandwidth_per_user 0);
        })
  unfolding dispatch message_type number if_parsed
  dispatch-pack_ping fits fresh rest =
      rw (size_behind_header, whole rest, unpacked fresh rest, unpack_ping-pack_ping msg fresh fits)
