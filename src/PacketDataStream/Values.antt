-- ===== src/PacketDataStream/Values.antt =====
-- The operators of include/mumble/PacketDataStream.hpp on narrower integers, bool, floats, blocks
-- and strings. A signed integer is its bit pattern, a `double` the 64 bits and a `float` the four
-- bytes that the unions give it, and a string is its bytes.
use libmumble.Prelude.{ℕ, ◌+◌, ◌-◌, ◌%◌, ◌^◌, Bool, false, not}
use libmumble.Prelude.{List, ◌++◌, ltb, ◌==◌, if◌then◌else◌, length, take, drop, u32}
use libmumble.PacketDataStream.{PacketDataStream, append, append_block, next, write_u64, read_u64}

-- The conversion of a `w`-bit two's complement pattern to `uint64_t`.
unfoldable pub sign_extend : ℕ → ℕ → ℕ
sign_extend w x = if ltb x (2 ^ (w - 1)) then x else x + (2 ^ 64 - 2 ^ w)

-- `INTMAPOPERATOR` at an unsigned and at a signed type of `w` bits.
unfoldable pub write_uint : ℕ → PacketDataStream → PacketDataStream
write_uint value s = write_u64 value s

unfoldable pub write_int : ℕ → ℕ → PacketDataStream → PacketDataStream
unfolding sign_extend
write_int w value s = write_u64 (sign_extend w value) s

-- `static_cast<type>(tmp)` keeps the low `w` bits, at a signed type too.
unfoldable pub read_int : ℕ → PacketDataStream → ℕ × PacketDataStream
read_int w s = let (tmp, s') = read_u64 0 s in (tmp % 2 ^ w, s')

unfoldable pub write_bool : Bool → PacketDataStream → PacketDataStream
unfolding write_uint
write_bool value s = write_uint (if value then 1 else 0) s

unfoldable pub read_bool : PacketDataStream → Bool × PacketDataStream
unfolding read_int
read_bool s = let (tmp, s') = read_int 32 s in (not (tmp == 0), s')

unfoldable pub write_double : ℕ → PacketDataStream → PacketDataStream
write_double bits s = write_u64 bits s

-- `garbage` is what the union holds before it is read into.
unfoldable pub read_double : ℕ → PacketDataStream → ℕ × PacketDataStream
read_double garbage s = read_u64 garbage s

unfoldable pub write_float : ℕ × ℕ × ℕ × ℕ → PacketDataStream → PacketDataStream
write_float (b0, b1, b2, b3) s = append b3 (append b2 (append b1 (append b0 s)))

-- Too short a rest makes the stream bad; the four bytes are read all the same.
unfoldable pub read_float : PacketDataStream → (ℕ × ℕ × ℕ × ℕ) × PacketDataStream
read_float s =
    let s0 = if ltb (length s.ahead) 4 then record s { ok = false } else s in
    let (b0, s1) = next s0 in
    let (b1, s2) = next s1 in
    let (b2, s3) = next s2 in let (b3, s4) = next s3 in ((b0, b1, b2, b3), s4)

-- `operator<<(BufViewConst)`: the size goes as a `uint64_t`.
unfoldable pub write_block : List ℕ → PacketDataStream → PacketDataStream
write_block block s = append_block block (write_u64 (length block) s)

-- `operator<<(std::string_view)`: the size goes as a `uint32_t`.
unfoldable pub write_string : List ℕ → PacketDataStream → PacketDataStream
unfolding write_uint
write_string str s = append_block str (write_uint (u32 (length str)) s)

-- The common part of `operator>>(Buf &)` and `operator>>(std::string &)`, which copy the bytes to
-- a vector and to a string: a size beyond the rest is cut to the rest.
unfoldable pub read_block : PacketDataStream → List ℕ × PacketDataStream
unfolding read_int
read_block s =
    let (size, s') = read_int 32 s in
    let room = length s'.ahead in
    let cut = ltb room size in
    let count = if cut then u32 room else size in
    (
      take count s'.ahead,
      record s' {
        ok = if cut then false else s'.ok;
        before = s'.before ++ take count s'.ahead;
        ahead = drop count s'.ahead;
      },
    )
