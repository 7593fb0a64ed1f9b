-- ===== src/Peer/UdpTests.antt =====
-- Tests of the UDP thread of a peer.
use libmumble.Prelude.{true, false, none, List, [], ◌∷◌, ◌++◌, replicate, ◌≡◌, refl}
use libmumble.Tcp.Fields.{Bytes}
use libmumble.Connection.Tls.{success, retry, refuse}
use libmumble.Monitor.{Flags}
use libmumble.Udp.Messages.{Ping}
use libmumble.Udp.Pack.{Protobuf, is_plain_ping, message_type, number}
use libmumble.Udp.Dispatch.{dispatch, plain_or_encrypted, on_legacy_ping, on_encrypted}
use libmumble.Peer.UdpThread.{
  udp_starts, asks_timeout, udp_stops, receives, Read, Pass, udp_thread, EndsOnce,
  udp_thread-EndsOnce,
}
use libmumble.Peer.UdpDelivery.{all_calls, pass_packets, packets, goes_on, udp_thread_delivers}

abbrev new_ping : Ping
new_ping = record {
  timestamp = 0;
  request_extended_information = false;
  version = none;
  user_count = none;
  max_user_count = none;
  max_bandwidth_per_user = none;
}

-- A library that parses nothing.
abbrev deaf : Protobuf
deaf = record { byte_size = λ k proto. 0; serialize = λ k proto n. none; parse = λ k b. none }

abbrev readable : Flags
readable = record {
  triggered = false;
  in_ready = true;
  out_ready = false;
  disconnected = false;
  error = false;
}

-- A plain ping of twelve bytes, and a packet of five in the same buffer.
abbrev twelve : Bytes
twelve = replicate 12 0

abbrev two_packets : List Read
two_packets =
    record { code = success; buf = twelve; size = 12 }
    ∷ record { code = success; buf = twelve; size = 5 }
    ∷ []

-- A pass over two packets, and one that finds nothing.
abbrev passes : List Pass
passes =
    record {
      flags = readable;
      reads = two_packets ++ (record { code = retry; buf = []; size = 0 } ∷ []);
    }
    ∷ record { flags = record readable { in_ready = false }; reads = [] }
    ∷ []

udp_thread_delivers_example :
    udp_thread deaf new_ping passes
    ≡ udp_starts
      ∷ receives (on_legacy_ping (replicate 12 0))
      ∷ receives (on_encrypted (replicate 5 0))
      ∷ asks_timeout
      ∷ asks_timeout
      ∷ udp_stops
      ∷ []
unfolding all_calls pass_packets packets goes_on dispatch plain_or_encrypted is_plain_ping
    message_type number
udp_thread_delivers_example =
    udp_thread_delivers deaf new_ping passes ((refl, (refl, (refl, (refl, tt)))), ((refl, tt), tt))

-- The second read is refused.
abbrev refused : List Pass
refused =
    record {
      flags = readable;
      reads =
          record { code = success; buf = twelve; size = 12 }
          ∷ record { code = refuse; buf = []; size = 0 }
          ∷ [];
    }
    ∷ passes

udp_thread-EndsOnce_example : EndsOnce (udp_thread deaf new_ping refused)
udp_thread-EndsOnce_example = udp_thread-EndsOnce deaf new_ping refused
