-- ===== src/PacketDataStream.antt =====
-- `PacketDataStream` of include/mumble/PacketDataStream.hpp: a cursor over a caller's buffer with
-- variable-length integers, raw blocks and strings. A byte is a number.
--
-- `m_buf` and `m_seek` are spans of one memory, and `m_seek` is a suffix of `m_buf`. The state
-- holds the bytes of `m_buf` in front of `m_seek` as `before` and those of `m_seek` as `ahead`.
pub mod Encoding
pub mod Write
pub mod Read
pub mod RoundTrip
pub mod Values
pub mod Buffers
pub mod ValueTrips
pub mod Keeps
mod Tests
use libmumble.Prelude.{ℕ, ◌+◌, ◌-◌, bit_and, bit_or}
use libmumble.Prelude.{Bool, true, false, ◌&&◌, not, List, [], ◌∷◌, ◌++◌}
use libmumble.Prelude.{ltb, leb, ◌==◌, if◌then◌else◌, length, take, drop, replicate}
use libmumble.Prelude.{u8, u32, shl64, shr, not64}

pub record PacketDataStream : Type 0 where
  pub ok : Bool
  pub before : List ℕ
  pub ahead : List ℕ
  pub overshoot : ℕ

-- The constructor.
unfoldable pub open_buf : List ℕ → PacketDataStream
open_buf memory = record { ok = true; before = []; ahead = memory; overshoot = 0 }

unfoldable pub buf : PacketDataStream → List ℕ
buf s = s.before ++ s.ahead

-- `data()`: as many bytes from the start of `m_buf` as the cursor has passed.
unfoldable pub passed : PacketDataStream → List ℕ
unfolding buf
passed s = take (length (buf s) - length s.ahead) (buf s)

unfoldable pub undersize : PacketDataStream → ℕ
undersize s = s.overshoot

unfoldable pub rewind : PacketDataStream → PacketDataStream
unfolding buf
rewind s = record s { before = []; ahead = buf s }

unfoldable pub truncate : PacketDataStream → PacketDataStream
truncate s = record s { before = [] }

abbrev fault : PacketDataStream → PacketDataStream
fault s = record s { ok = false }

-- `m_seek = m_seek.subspan(n)`, for `n` at most its size.
abbrev advance : ℕ → PacketDataStream → PacketDataStream
advance n s = record s { before = s.before ++ take n s.ahead; ahead = drop n s.ahead }

unfoldable pub skip : ℕ → PacketDataStream → PacketDataStream
skip size s = if leb size (length s.ahead) then advance size s else fault s

-- `append(uint64_t)`: `std::byte(value)` keeps the low eight bits; `m_overshoot` is a `uint32_t`.
append_seek : ℕ → List ℕ → PacketDataStream → PacketDataStream
append_seek value [] s = record s { ok = false; overshoot = u32 (s.overshoot + 1) }
append_seek value (old ∷ rest) s = record s { before = s.before ++ (u8 value ∷ []); ahead = rest }

pub append : ℕ → PacketDataStream → PacketDataStream
unfolding append_seek
append value s = append_seek value s.ahead s

-- `append(BufViewConst)`: all of the block, or zeros to the end.
pub append_block : List ℕ → PacketDataStream → PacketDataStream
append_block block s =
    if leb (length block) (length s.ahead)
    then record s { before = s.before ++ block; ahead = drop (length block) s.ahead }
    else record {
      ok = false;
      before = s.before ++ replicate (length s.ahead) 0;
      ahead = [];
      overshoot = u32 (s.overshoot + u32 (length block - length s.ahead));
    }

-- `next()`, and `next8()`, which differs in its result type alone.
next_seek : List ℕ → PacketDataStream → ℕ × PacketDataStream
next_seek [] s = (0, fault s)
next_seek (b ∷ rest) s = (b, record s { before = s.before ++ (b ∷ []); ahead = rest })

pub next : PacketDataStream → ℕ × PacketDataStream
unfolding next_seek
next s = next_seek s.ahead s

-- The magnitude part of `operator<<(uint64_t)`, from the shortest form to the longest.
pub write_magnitude : ℕ → PacketDataStream → PacketDataStream
write_magnitude tmp s =
    if ltb tmp 0x80
    then append tmp s
    else if ltb tmp 0x4000
    then append (bit_and tmp 0xff) (append (bit_or (shr tmp 8) 0x80) s)
    else if ltb tmp 0x200000
    then append (bit_and tmp 0xff)
        (append (bit_and (shr tmp 8) 0xff) (append (bit_or (shr tmp 16) 0xc0) s))
    else if ltb tmp 0x10000000
    then append (bit_and tmp 0xff) (
        append (bit_and (shr tmp 8) 0xff)
          (append (bit_and (shr tmp 16) 0xff) (append (bit_or (shr tmp 24) 0xe0) s)))
    else if ltb tmp 0x100000000
    then append (bit_and tmp 0xff) (
        append (bit_and (shr tmp 8) 0xff)
          (append (bit_and (shr tmp 16) 0xff) (append (bit_and (shr tmp 24) 0xff) (append 0xf0 s))))
    else append (bit_and tmp 0xff) (
        append (bit_and (shr tmp 8) 0xff) (
          append (bit_and (shr tmp 16) 0xff) (
            append (bit_and (shr tmp 24) 0xff) (
              append (bit_and (shr tmp 32) 0xff) (
                append (bit_and (shr tmp 40) 0xff) (
                  append (bit_and (shr tmp 48) 0xff)
                    (append (bit_and (shr tmp 56) 0xff) (append 0xf4 s))))))))

-- `operator<<(uint64_t)`: a number whose complement fits 32 bits is written as a negative one.
unfoldable pub write_u64 : ℕ → PacketDataStream → PacketDataStream
write_u64 value s =
    if not (bit_and value 0x8000000000000000 == 0) && ltb (not64 value) 0x100000000
    then (if leb (not64 value) 0x3
        then append (bit_or 0xfc (not64 value)) s
        else write_magnitude (not64 value) (append 0xf8 s))
    else write_magnitude value s

-- One operand `next() << shift` of a row of `|`, taken from left to right.
pub or_next : ℕ → ℕ × PacketDataStream → ℕ × PacketDataStream
unfolding next
or_next shift (value, s) = let (b, s') = next s in (bit_or value (shl64 b shift), s')

-- `operator>>(uint64_t &)` once `tmp` is read. `value` is what the argument held before, and
-- `nested` is what the call `*this >> value` in the case 0xF8 gives.
pub read_case : ℕ → ℕ → PacketDataStream → ℕ × PacketDataStream → ℕ × PacketDataStream
unfolding or_next
read_case value tmp s nested =
    if bit_and tmp 0x80 == 0
    then (bit_and tmp 0x7f, s)
    else if bit_and tmp 0xc0 == 0x80
    then or_next 0 (shl64 (bit_and tmp 0x3f) 8, s)
    else if bit_and tmp 0xf0 == 0xf0
    then (if bit_and tmp 0xfc == 0xf0
        then or_next 0 (or_next 8 (or_next 16 (or_next 24 (0, s))))
        else if bit_and tmp 0xfc == 0xf4
        then or_next 0 (
            or_next 8
              (or_next 16 (or_next 24 (or_next 32 (or_next 40 (or_next 48 (or_next 56 (0, s))))))))
        else if bit_and tmp 0xfc == 0xf8
        then (not64 nested.0, nested.1)
        else if bit_and tmp 0xfc == 0xfc
        then (not64 (bit_and tmp 0x03), s)
        else (0, fault s))
    else if bit_and tmp 0xf0 == 0xe0
    then or_next 0 (or_next 8 (or_next 16 (shl64 (bit_and tmp 0x0f) 24, s)))
    else if bit_and tmp 0xe0 == 0xc0
    then or_next 0 (or_next 8 (shl64 (bit_and tmp 0x1f) 16, s))
    else (value, s)

-- `operator>>(uint64_t &)`. Each nested call has read one byte more, so the list of the bytes
-- ahead bounds their depth; at the end of the buffer `next` gives 0 and no call is made.
pub read_ahead : ℕ → List ℕ → PacketDataStream → ℕ × PacketDataStream
unfolding read_case next
read_ahead value [] s = let (tmp, s') = next s in read_case value tmp s' (value, s')
read_ahead value (b ∷ bs) s =
    let (tmp, s') = next s in read_case value tmp s' (read_ahead value bs s')

unfoldable pub read_u64 : ℕ → PacketDataStream → ℕ × PacketDataStream
unfolding read_ahead
read_u64 value s = read_ahead value s.ahead s
