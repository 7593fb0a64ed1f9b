-- ===== src/Lib.antt =====
-- A verification library for libmumble, the protocol library of the Mumble voice chat.
--
-- The library packs messages for a TLS connection and for UDP, reads and writes the older voice
-- format, and drives connections with callbacks. A message goes from `tcp::Message` or
-- `udp::Message` (include/mumble/Message.hpp) through `Pack` (src/Pack.cpp) into the bytes that
-- `Connection` (src/Connection.cpp) writes over `SocketTLS` (src/TLS.cpp), and back through
-- `Connection::process`, which cuts the stream into packs. UDP packets are sorted by the loop of
-- `PeerUDP` (src/Peer.cpp).
--
-- Which file models which part:
--   Prelude             shared names, tests, lists, machine words, and the laws of the bit operations
--   PacketDataStream    `PacketDataStream` of include/mumble/PacketDataStream.hpp: the cursor as what
--                       stands before and ahead of it (`before`, `ahead`), `append`, `next`, `skip`,
--                       and the operators `<<` and `>>` as `write_x` and `read_x`; Encoding says what
--                       the bytes of an integer are, apart from the code
--   Version             `Version` of include/mumble/Types.hpp, `blob32`, `blob64` and the constructors
--   Tcp                 the messages of include/mumble/Message.hpp and their cases in src/Pack.cpp, by
--                       groups: `X` is the struct, `XProto` the message of src/proto/MumbleTCP.proto,
--                       `pack_x` and `unpack_x` the two cases; Kinds and Cases put them together, Pack
--                       is the buffer with its header, `tcp::Pack(const Message &)` and `operator()`,
--                       Tunnel the kind UDPTunnel
--   Udp                 the same for the UDP messages, the plain pings of older clients
--                       (`legacy::udp`), and the branch of src/Peer.cpp that sorts a packet
--   Monitor             src/Monitor.cpp: its events and its trigger, the form with poll (Poll) and the
--                       form with epoll (Epoll); Watchers is what a peer uses of either
--   Connection          Tls: the codes of src/TLS.cpp; State: `handleCode`, `handleState`, `handleWait`
--                       and the callbacks; Loops: `read`, `write`, `operator()` and `process`;
--                       PackTurns and Stream: packs that arrive over turns; Unwaited: `process` without
--                       waiting
--   Peer                the sockets, threads and connections of src/Peer.cpp, over the monitor as
--                       Monitor.Watchers has it; Dispatch is what the TCP thread does with an event,
--                       UdpThread the UDP thread, and UdpDelivery is about its packets
--   Base64              src/Base64.cpp
--   Ocb2                src/CryptOCB2.cpp: blocks with `xorBlock`, `s2` and `s3` (Blocks), the loops of
--                       `encrypt` and `decrypt` (Loops), the check of `decrypt` on the last block
--                       (LastBlock), and both functions as a whole (Crypt); Sent says what the loop of
--                       `encrypt` comes to, Ends what stands behind it, Altered what the peer gets,
--                       and Unaltered when that is the input; Object is the object with its key and
--                       nonce, and Process is `P::process`, whose calls Stateless and EcbCipher
--                       compare with a function without state
--   Evp                 the interface of OpenSSL that Crypt and Ocb2 take as a parameter
--   Crypt               `Crypt` of src/Crypt.cpp: its operations, and `encrypt` and `decrypt` (Process);
--                       Keys is about its key and nonce, Aead says what an authenticated cipher does
--
-- Parameters. The protobuf library is a pair of functions with a size; where a theorem needs them to
-- fit, `Carries` says so of one message. Addresses and certificates are types with conversions, of
-- which nothing is assumed. What the TLS library, the monitors and the system answer to a connection is
-- a list of turns, one for each try; it may be any list. OpenSSL is the record `Evp` of its calls;
-- `IsEcb` and `IsAead` say what is documented of a context with such a cipher. `encrypt` and `decrypt`
-- of OCB2 take `P::process` on one block as a function, and `IsCipher` says that it is a block cipher.
--
-- Bounds and fuel. A w-bit integer is a number below 2 ^ w with its wrap-around written out. The host
-- is little-endian with a 64-bit `size_t`. Operands of `|` are taken from left to right. Floats are
-- their bits. The loops of a connection are structural in the list of turns; `process` has as many
-- passes as there are turns and one more, and every pass that goes on uses a turn. The loops of OCB2
-- have as many passes as there are bytes, and every pass takes sixteen.
--
-- A size that Crypt hands to OpenSSL is below 2 ^ 31; Base64 and `keySize` have their casts. A buffer
-- that is too small is an answer of its own in OCB2, in Base64 and in the tunnel, and a hypothesis says
-- that there is room where Crypt writes. What the system answers to a monitor is an argument.
--
-- Not modelled: what only calls OpenSSL, Opus or the system (src/Cert.cpp, src/Hash.cpp, src/Key.cpp,
-- src/Opus.cpp, the sockets and src/Lib.cpp), the examples and the tests. The operations of a connection
-- are single steps, as its mutex makes them, and a callback does not call back; the threads of the pool
-- of a peer do not share an event.
pub mod Prelude
pub mod PacketDataStream
pub mod Version
pub mod Tcp
pub mod Udp
pub mod Monitor
pub mod Connection
pub mod Peer
pub mod Base64
pub mod Evp
pub mod Crypt
pub mod Ocb2
