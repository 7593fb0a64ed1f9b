-- ===== src/Ocb2/Blocks.antt =====
-- A block of src/CryptOCB2.cpp: two words as they stand in the memory of a little-endian host with
-- 64 bits, and the functions on it. `Endian::swap` gives the number that a word is on the wire.
use libmumble.Prelude.{
  ℕ, ◌+◌, ◌*◌, ◌/◌, ◌%◌, ◌^◌, ◌≡◌, ap, ap₂, ◌∙◌, sym, arith, bit_xor, bit_or, IsU64, u64, shl64,
  shr,
}
use libmumble.Prelude.Bits.{or_sum, xor_div, xor-zero, xor-join}
use libmumble.Ocb2.Swap.{swap64, swap64-IsU64, swap_self, swap64-xor}

-- `KeyBlock` with two words.
pub record Block : Type 0 where
  pub first : ℕ
  pub second : ℕ

abbrev pub IsBlock : Block → Type 0
IsBlock b = IsU64 b.first × IsU64 b.second

-- `P::xorBlock`.
unfoldable pub xor_block : Block → Block → Block
xor_block a b = record { first = bit_xor a.first b.first; second = bit_xor a.second b.second }

-- `Endian::swap(block[0]) >> shiftBits`.
unfoldable pub carry_of : Block → ℕ
carry_of block = shr (swap64 block.first) 63

-- The two words that `s2` writes and `s3` adds.
unfoldable pub doubled_first : Block → ℕ
doubled_first block = swap64 (bit_or (shl64 (swap64 block.first) 1) (shr (swap64 block.second) 63))

unfoldable pub doubled_second : ℕ → Block → ℕ
doubled_second carry block = swap64 (bit_xor (shl64 (swap64 block.second) 1) (u64 (carry * 0x87)))

-- `P::s2`.
unfoldable pub s2 : Block → Block
unfolding carry_of doubled_first doubled_second
s2 block =
    let carry = carry_of block in
    record { first = doubled_first block; second = doubled_second carry block }

-- `P::s3`. The loop over the first word leaves the second as it was.
unfoldable pub s3 : Block → Block
unfolding carry_of doubled_first doubled_second
s3 block =
    let carry = carry_of block in
    record {
      first = bit_xor block.first (doubled_first block);
      second = bit_xor block.second (doubled_second carry block);
    }

-- The number that a block is on the wire, the first byte at the top.
unfoldable pub value : Block → ℕ
value block = swap64 block.first * 2 ^ 64 + swap64 block.second

-- Doubling among the numbers below 2 ^ 128, as the polynomials modulo x^128 + x^7 + x^2 + x + 1.
unfoldable pub double : ℕ → ℕ
double v = bit_xor (v * 2 % 2 ^ 128) (v / 2 ^ 127 * 0x87)

word_double : (x y : ℕ) → IsU64 y → bit_or (shl64 x 1) (shr y 63) ≡ x * 2 % 2 ^ 64 + y / 2 ^ 63
word_double x y hy =
    let even : x * 2 % 2 ^ 64 ≡ x % 2 ^ 63 * 2 ^ 1 = omega arith in
    ap (λ (n : ℕ). bit_or n (y / 2 ^ 63)) even
    ∙ or_sum 1 (x % 2 ^ 63) (y / 2 ^ 63) (omega (arith, hy))
    ∙ omega arith

-- Below the sum, the two halves of a number are doubled on their own.
double_halves :
    (x y : ℕ)
    → IsU64 x
    → IsU64 y
    → double (x * 2 ^ 64 + y)
      ≡ (x * 2 % 2 ^ 64 + y / 2 ^ 63) * 2 ^ 64 + bit_xor (y * 2 % 2 ^ 64) (x / 2 ^ 63 * 0x87)
unfolding double
double_halves x y hx hy =
    let top : (x * 2 ^ 64 + y) / 2 ^ 127 * 0x87 ≡ 0 * 2 ^ 64 + x / 2 ^ 63 * 0x87 = omega arith in
    let all : (x * 2 ^ 64 + y) * 2 % 2 ^ 128
        ≡ (x * 2 % 2 ^ 64 + y / 2 ^ 63) * 2 ^ 64 + y * 2 % 2 ^ 64 =
      omega arith in
    ap₂ (λ (m n : ℕ). bit_xor m n) all top
    ∙ xor-join 64 (x * 2 % 2 ^ 64 + y / 2 ^ 63) (y * 2 % 2 ^ 64) 0 (x / 2 ^ 63 * 0x87) (omega arith)
        (omega (arith, hx))
    ∙ ap (λ (n : ℕ). n * 2 ^ 64 + bit_xor (y * 2 % 2 ^ 64) (x / 2 ^ 63 * 0x87))
        (xor-zero (x * 2 % 2 ^ 64 + y / 2 ^ 63))

pub xor-IsU64 : (a b : ℕ) → IsU64 a → IsU64 b → IsU64 (bit_xor a b)
xor-IsU64 a b ha hb =
    let ea : a / 2 ^ 64 ≡ 0 = omega (arith, ha) in
    let eb : b / 2 ^ 64 ≡ 0 = omega (arith, hb) in
    let none : bit_xor a b / 2 ^ 64 ≡ 0 = xor_div 64 a b ∙ ap₂ bit_xor ea eb ∙ xor-zero 0 in
    omega (arith, none)

-- What the words of `s2` are on the wire.
module _ (block : Block) where
  swap-doubled_first :
      swap64 (doubled_first block) ≡ swap64 block.first * 2 % 2 ^ 64 + swap64 block.second / 2 ^ 63
  unfolding doubled_first
  swap-doubled_first =
      let x = swap64 block.first in
      let y = swap64 block.second in
      let hy = swap64-IsU64 block.second in
      let word = word_double x y hy in
      swap_self (bit_or (shl64 x 1) (shr y 63)) (ground (arith, word, hy)) ∙ word

  swap-doubled_second :
      swap64 (doubled_second (carry_of block) block)
      ≡ bit_xor (swap64 block.second * 2 % 2 ^ 64) (swap64 block.first / 2 ^ 63 * 0x87)
  unfolding doubled_second carry_of
  swap-doubled_second =
      let x = swap64 block.first in
      let y = swap64 block.second in
      let hx = swap64-IsU64 block.first in
      let small : u64 (x / 2 ^ 63 * 0x87) ≡ x / 2 ^ 63 * 0x87 = omega (arith, hx) in
      swap_self (bit_xor (shl64 y 1) (u64 (x / 2 ^ 63 * 0x87)))
        (xor-IsU64 (shl64 y 1) (u64 (x / 2 ^ 63 * 0x87)) (omega arith) (omega arith))
      ∙ ap (λ (n : ℕ). bit_xor (y * 2 % 2 ^ 64) n) small

-- `s2` doubles the number that the block is on the wire, in the field of 2 ^ 128 elements.
pub value-s2 : (b : Block) → value (s2 b) ≡ double (value b)
unfolding value s2
value-s2 b =
    ap₂ (λ (m n : ℕ). m * 2 ^ 64 + n) (swap-doubled_first b) (swap-doubled_second b)
    ∙ sym (
        double_halves (swap64 b.first) (swap64 b.second) (swap64-IsU64 b.first)
          (swap64-IsU64 b.second))

value-xor_block : (a b : Block) → value (xor_block a b) ≡ bit_xor (value a) (value b)
unfolding value xor_block
value-xor_block a b =
    ap₂ (λ (m n : ℕ). m * 2 ^ 64 + n) (swap64-xor a.first b.first) (swap64-xor a.second b.second)
    ∙ sym (
        xor-join 64 (swap64 a.first) (swap64 a.second) (swap64 b.first) (swap64 b.second)
          (swap64-IsU64 a.second) (swap64-IsU64 b.second))

-- `s3` triples it: the number is added to its double.
pub value-s3 : (b : Block) → value (s3 b) ≡ bit_xor (value b) (double (value b))
unfolding s3 s2 xor_block
value-s3 b = value-xor_block b (s2 b) ∙ ap (λ (n : ℕ). bit_xor (value b) n) (value-s2 b)
