-- ===== src/Tcp/Tests.antt =====
-- Tests of the TCP messages at concrete values, over a protobuf library that knows one message of
-- each kind.
use libmumble.Prelude.{◌≡◌, refl, ap, ◌≢◌, inl, true, false, some, [], ◌∷◌, arith}
use libmumble.Tcp.Fields.{Bytes}
use libmumble.Tcp.Externals.{Externals}
use libmumble.Tcp.Users.{UserState, fresh_user_state}
use libmumble.Tcp.Kinds.{Kind, MessageOf, fresh, index, user_state, user_remove}
use libmumble.Tcp.Cases.{pack_fields, received}
use libmumble.Tcp.Pack.{Protobuf, Carries, pack, unpack}
use libmumble.Tcp.Pack.{net_header}
use libmumble.Tcp.Tunnel.{pack_tunnel, unpack_tunnel, new_pack, done, overrun}
use libmumble.Tcp.Tunnel.{unpack-pack_tunnel, unpack_tunnel_overrun}
use libmumble.Tcp.Pack.RoundTrip.{unpack-pack, unpack_other}

abbrev bytes_ext : Externals
bytes_ext = record {
  Ip = Bytes;
  no_ip = [];
  v6 = λ a. a;
  of_string = λ b. [];
  Cert = Bytes;
  der = λ c. c;
  of_der = λ b. b;
}

abbrev muted : UserState
muted = record fresh_user_state { session = 7; name = 65 ∷ 66 ∷ []; mute = true }

abbrev sample : (k : Kind) → MessageOf bytes_ext k
sample user_state = muted
sample k = fresh bytes_ext k

abbrev one_message : Protobuf bytes_ext
one_message = record {
  byte_size = λ k proto. 3;
  serialize = λ k proto n. some (8 ∷ 7 ∷ 32 ∷ []);
  parse = λ k b. some (pack_fields bytes_ext k (sample k));
}

abbrev carries_muted : Carries one_message user_state (pack_fields bytes_ext user_state muted)
carries_muted = record {
  bytes = 8 ∷ 7 ∷ 32 ∷ [];
  sized = refl;
  small = omega arith;
  written = refl;
  parsed = refl;
}

unpack-pack_example :
    unpack bytes_ext one_message user_state
      (pack bytes_ext one_message user_state muted 2)
      fresh_user_state
      3
    ≡ (true, record muted { user_id = some 0 })
unfolding received
unpack-pack_example =
    unpack-pack bytes_ext one_message user_state muted 2 carries_muted tt 3 (inl refl)

not_removed : user_remove ≢ user_state
unfolding index
not_removed e = let apart : index user_remove ≡ index user_state = ap index e in ground arith

unpack_other_example :
    unpack bytes_ext one_message user_remove
      (pack bytes_ext one_message user_state muted 2)
      (fresh bytes_ext user_remove)
      3
    ≡ (false, fresh bytes_ext user_remove)
unpack_other_example =
    unpack_other bytes_ext one_message user_state muted 2 carries_muted user_remove
      (fresh bytes_ext user_remove) 3 not_removed

unpack-pack_tunnel_example :
    (buf : Bytes) × (pack_tunnel (32 ∷ 9 ∷ 8 ∷ []) 1 ≡ done true buf)
    × (unpack_tunnel buf new_pack 100 ≡ done true (32 ∷ 9 ∷ 8 ∷ 0 ∷ []))
unpack-pack_tunnel_example =
    unpack-pack_tunnel 32 (9 ∷ 8 ∷ []) new_pack 1 100 (omega arith) (omega arith)

unpack_tunnel_overrun_example :
    unpack_tunnel (0 ∷ 1 ∷ 0 ∷ 0 ∷ 0 ∷ 3 ∷ 32 ∷ 9 ∷ 8 ∷ []) new_pack 2 ≡ overrun
unfolding net_header
unpack_tunnel_overrun_example =
    unpack_tunnel_overrun 32 (9 ∷ 8 ∷ []) new_pack 3 2 (omega arith) (omega arith)
