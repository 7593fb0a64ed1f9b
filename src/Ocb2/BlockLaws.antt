-- ===== src/Ocb2/BlockLaws.antt =====
-- Laws of the blocks of src/CryptOCB2.cpp: bytes and blocks, and `xorBlock`.
use libmumble.Prelude.{
  ℕ, ◌≡◌, refl, sym, ap, ap₂, ◌∙◌, Bool, true, false, ◌++◌, u8, bit_xor, IsU64, arith, get_or,
}
use libmumble.Prelude.Bits.{xor_self, xor_assoc, zero-xor}
use libmumble.Tcp.Fields.{Bytes}
use libmumble.Ocb2.Swap.{of_bytes8, byte_at, split8, swap64-IsU64}
use libmumble.Ocb2.Blocks.{Block, IsBlock, xor_block, s2, xor-IsU64, doubled_first, doubled_second}
use libmumble.Ocb2.Loops.{block_of, bytes_of, flip_if, byte_of}

of_bytes8-IsU64 :
    (a b c d e f g h : ℕ)
    → IsU64 (of_bytes8 (u8 a) (u8 b) (u8 c) (u8 d) (u8 e) (u8 f) (u8 g) (u8 h))
unfolding of_bytes8
of_bytes8-IsU64 a b c d e f g h = omega arith

pub block_of-IsBlock : (bytes : Bytes) → IsBlock (block_of bytes)
unfolding block_of byte_of
block_of-IsBlock bytes =
    let b : ℕ → ℕ = λ i. get_or bytes i 0 in
    (
      of_bytes8-IsU64 (b 7) (b 6) (b 5) (b 4) (b 3) (b 2) (b 1) (b 0),
      of_bytes8-IsU64 (b 15) (b 14) (b 13) (b 12) (b 11) (b 10) (b 9) (b 8),
    )

byte_is_u8 : (k x : ℕ) → u8 (byte_at k x) ≡ byte_at k x
unfolding byte_at
byte_is_u8 k x = omega arith

word_back :
    (x : ℕ)
    → IsU64 x
    → of_bytes8
        (u8 (byte_at 7 x))
        (u8 (byte_at 6 x))
        (u8 (byte_at 5 x))
        (u8 (byte_at 4 x))
        (u8 (byte_at 3 x))
        (u8 (byte_at 2 x))
        (u8 (byte_at 1 x))
        (u8 (byte_at 0 x))
      ≡ x
word_back x h =
    rw
      (
        byte_is_u8 7 x,
        byte_is_u8 6 x,
        byte_is_u8 5 x,
        byte_is_u8 4 x,
        byte_is_u8 3 x,
        byte_is_u8 2 x,
        byte_is_u8 1 x,
        byte_is_u8 0 x,
      )
      (split8 x h)

-- The bytes of a block are read as the block.
pub block_of-bytes_of : (b : Block) (rest : Bytes) → IsBlock b → block_of (bytes_of b ++ rest) ≡ b
unfolding block_of bytes_of
block_of-bytes_of b rest h =
    ap₂ (λ (x y : ℕ). record { first = x; second = y }) (word_back b.first h.0)
      (word_back b.second h.1)

xor_cancel : (a b : ℕ) → bit_xor a (bit_xor a b) ≡ b
xor_cancel a b = sym (xor_assoc a a b) ∙ ap (λ (n : ℕ). bit_xor n b) (xor_self a) ∙ zero-xor b

pub xor_block_cancel : (a b : Block) → xor_block a (xor_block a b) ≡ b
unfolding xor_block
xor_block_cancel a b =
    ap₂ (λ (x y : ℕ). record { first = x; second = y }) (xor_cancel a.first b.first)
      (xor_cancel a.second b.second)

-- Flipping what was added is adding what was flipped.
pub flip_if-xor_block :
    (f : Bool) (a b : Block) → flip_if f (xor_block a b) ≡ xor_block a (flip_if f b)
unfolding flip_if xor_block
flip_if-xor_block true a b =
    ap (λ (x : ℕ). record { first = x; second = bit_xor a.second b.second })
      (xor_assoc a.first b.first 1)
flip_if-xor_block false a b = refl

pub xor_block-IsBlock : (a b : Block) → IsBlock a → IsBlock b → IsBlock (xor_block a b)
unfolding xor_block
xor_block-IsBlock a b ha hb =
    (xor-IsU64 a.first b.first ha.0 hb.0, xor-IsU64 a.second b.second ha.1 hb.1)

pub flip_if-IsBlock : (f : Bool) (b : Block) → IsBlock b → IsBlock (flip_if f b)
unfolding flip_if
flip_if-IsBlock true b h = (xor-IsU64 b.first 1 h.0 (omega arith), h.1)
flip_if-IsBlock false b h = h

pub s2-IsBlock : (b : Block) → IsBlock (s2 b)
unfolding s2 doubled_first doubled_second
s2-IsBlock b = (swap64-IsU64 _, swap64-IsU64 _)
