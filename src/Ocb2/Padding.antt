-- ===== src/Ocb2/Padding.antt =====
-- Bytes and blocks of src/CryptOCB2.cpp where a block is filled up: with the bytes of a pad, or with
-- zeros.
use libmumble.Prelude.{ℕ, zero, suc, ◌-◌, ◌^◌, ◌≤◌, ◌≡◌, refl, sym, ap, ap₂, ◌∙◌, [], ◌∷◌, ◌++◌}
use libmumble.Prelude.{length, take, drop, replicate, get_or, u8, IsByte, All, bit_xor, arith}
use libmumble.Prelude.Bits.{xor_self}
use native.Mathlib.Nat.{mod-eq_of_lt}
use mathlib.Core.Path.{fun_ext}
use libmumble.Tcp.Fields.{Bytes}
use libmumble.Ocb2.Swap.{of_bytes8, byte_at, byte_at-xor}
use libmumble.Ocb2.Blocks.{Block, xor_block}
use libmumble.Ocb2.Loops.{block_of, bytes_of, byte_of}

-- The bytes that a function of the place gives.
collect : ℕ → (ℕ → ℕ) → Bytes
collect zero f = []
collect (suc n) f = f 0 ∷ collect n (λ i. f (suc i))

collect-byte_of :
    (bytes : Bytes) → All IsByte bytes → collect (length bytes) (byte_of bytes) ≡ bytes
unfolding collect byte_of
collect-byte_of [] h = refl
collect-byte_of (b ∷ bytes) h =
    ap₂ ◌∷◌ (mod-eq_of_lt {n = b} {m = 2 ^ 8} h.0) (collect-byte_of bytes h.1)

module _ (a b c d e f g h : ℕ) where
  word : ℕ
  word = of_bytes8 (u8 a) (u8 b) (u8 c) (u8 d) (u8 e) (u8 f) (u8 g) (u8 h)

  at0 : byte_at 0 word ≡ u8 h
  unfolding word byte_at of_bytes8
  at0 = omega arith

  at1 : byte_at 1 word ≡ u8 g
  unfolding word byte_at of_bytes8
  at1 = omega arith

  at2 : byte_at 2 word ≡ u8 f
  unfolding word byte_at of_bytes8
  at2 = omega arith

  at3 : byte_at 3 word ≡ u8 e
  unfolding word byte_at of_bytes8
  at3 = omega arith

  at4 : byte_at 4 word ≡ u8 d
  unfolding word byte_at of_bytes8
  at4 = omega arith

  at5 : byte_at 5 word ≡ u8 c
  unfolding word byte_at of_bytes8
  at5 = omega arith

  at6 : byte_at 6 word ≡ u8 b
  unfolding word byte_at of_bytes8
  at6 = omega arith

  at7 : byte_at 7 word ≡ u8 a
  unfolding word byte_at of_bytes8
  at7 = omega arith

  all_at :
      (rest : Bytes)
      → byte_at 0 word
          ∷ byte_at 1 word
          ∷ byte_at 2 word
          ∷ byte_at 3 word
          ∷ byte_at 4 word
          ∷ byte_at 5 word
          ∷ byte_at 6 word
          ∷ byte_at 7 word
          ∷ rest
        ≡ u8 h ∷ u8 g ∷ u8 f ∷ u8 e ∷ u8 d ∷ u8 c ∷ u8 b ∷ u8 a ∷ rest
  all_at rest = rw (at0, at1, at2, at3, at4, at5, at6, at7) refl

bytes_of-block_of : (bytes : Bytes) → bytes_of (block_of bytes) ≡ collect 16 (byte_of bytes)
unfolding bytes_of block_of collect byte_of word
bytes_of-block_of bytes =
    let b : ℕ → ℕ = λ i. get_or bytes i 0 in
    all_at (b 7) (b 6) (b 5) (b 4) (b 3) (b 2) (b 1) (b 0) _
    ∙ ap
        (λ (l : Bytes).
          u8 (b 0) ∷ u8 (b 1) ∷ u8 (b 2) ∷ u8 (b 3) ∷ u8 (b 4) ∷ u8 (b 5) ∷ u8 (b 6) ∷ u8 (b 7) ∷ l)
        (all_at (b 15) (b 14) (b 13) (b 12) (b 11) (b 10) (b 9) (b 8) [])

-- Sixteen bytes are those of the block that they make.
pub bytes_of-block_of_all :
    (bytes : Bytes) → All IsByte bytes → length bytes ≡ 16 → bytes_of (block_of bytes) ≡ bytes
bytes_of-block_of_all bytes h sixteen =
    bytes_of-block_of bytes
    ∙ ap (λ (n : ℕ). collect n (byte_of bytes)) (sym sixteen)
    ∙ collect-byte_of bytes h

collect-take :
    (n : ℕ) (bytes : Bytes)
    → All IsByte bytes
    → n ≤ length bytes
    → collect n (byte_of bytes) ≡ take n bytes
unfolding collect byte_of
collect-take zero bytes h long = refl
collect-take (suc n) [] h long = absurd (omega (arith, long))
collect-take (suc n) (b ∷ bytes) h long =
    ap₂ ◌∷◌ (mod-eq_of_lt {n = b} {m = 2 ^ 8} h.0) (collect-take n bytes h.1 (omega (arith, long)))

-- The bytes of the first block of an input that is long enough.
pub bytes_of-block_of-take :
    (bytes : Bytes)
    → All IsByte bytes
    → 16 ≤ length bytes
    → bytes_of (block_of bytes) ≡ take 16 bytes
bytes_of-block_of-take bytes h long = bytes_of-block_of bytes ∙ collect-take 16 bytes h long

-- Zeros behind the bytes do not change the block.
get_or-replicate : (n i : ℕ) → get_or {A = ℕ} (replicate {A = ℕ} n 0) i 0 ≡ 0
get_or-replicate zero i = refl
get_or-replicate (suc n) zero = refl
get_or-replicate (suc n) (suc i) = get_or-replicate n i

get_or-zeros : (bytes : Bytes) (n i : ℕ) → get_or (bytes ++ replicate n 0) i 0 ≡ get_or bytes i 0
get_or-zeros [] n i = get_or-replicate n i
get_or-zeros (b ∷ bytes) n zero = refl
get_or-zeros (b ∷ bytes) n (suc i) = get_or-zeros bytes n i

pub block_of-zeros : (bytes : Bytes) (n : ℕ) → block_of (bytes ++ replicate n 0) ≡ block_of bytes
unfolding block_of byte_of
block_of-zeros bytes n =
    let same : byte_of (bytes ++ replicate n 0) ≡ byte_of bytes =
      fun_ext (λ i. ap (λ (b : ℕ). u8 b) (get_or-zeros bytes n i)) in
    ap
      (λ (b : ℕ → ℕ). record {
        first = of_bytes8 (b 7) (b 6) (b 5) (b 4) (b 3) (b 2) (b 1) (b 0);
        second = of_bytes8 (b 15) (b 14) (b 13) (b 12) (b 11) (b 10) (b 9) (b 8);
      })
      same

-- `^` of bytes in place, as far as both go.
pub zip_xor : Bytes → Bytes → Bytes
zip_xor [] ys = []
zip_xor (x ∷ xs) [] = []
zip_xor (x ∷ xs) (y ∷ ys) = bit_xor x y ∷ zip_xor xs ys

pub bytes_of-xor_block :
    (a b : Block) → bytes_of (xor_block a b) ≡ zip_xor (bytes_of a) (bytes_of b)
unfolding bytes_of xor_block zip_xor
bytes_of-xor_block a b =
    let f = byte_at-xor in
    let x = a.first in
    let y = b.first in
    let z = a.second in
    let w = b.second in
    rw
      (
        f 0 x y,
        f 1 x y,
        f 2 x y,
        f 3 x y,
        f 4 x y,
        f 5 x y,
        f 6 x y,
        f 7 x y,
        f 0 z w,
        f 1 z w,
        f 2 z w,
        f 3 z w,
        f 4 z w,
        f 5 z w,
        f 6 z w,
        f 7 z w,
      )
      refl

zip_xor_self : (pad : Bytes) → zip_xor pad pad ≡ replicate (length pad) 0
unfolding zip_xor
zip_xor_self [] = refl
zip_xor_self (p ∷ pad) = ap₂ ◌∷◌ (xor_self p) (zip_xor_self pad)

-- Against itself behind a prefix, it is zeros behind the prefix.
pub zip_xor-pad :
    (pad input : Bytes)
    → length input ≤ length pad
    → zip_xor pad (input ++ drop (length input) pad)
      ≡ zip_xor pad input ++ replicate (length pad - length input) 0
unfolding zip_xor
zip_xor-pad [] [] h = refl
zip_xor-pad [] (i ∷ input) h = absurd (omega (arith, h))
zip_xor-pad (p ∷ pad) [] h =
    let same : suc (length pad) ≡ suc (length pad) - 0 = omega arith in
    ap₂ ◌∷◌ (xor_self p) (zip_xor_self pad) ∙ ap (λ (n : ℕ). replicate n 0) same
zip_xor-pad (p ∷ pad) (i ∷ input) h =
    let same : length pad - length input ≡ suc (length pad) - suc (length input) = omega arith in
    ap (λ (l : Bytes). bit_xor p i ∷ l)
      (zip_xor-pad pad input (omega (arith, h))
        ∙ ap (λ (n : ℕ). zip_xor pad input ++ replicate n 0) same)

pub length-zip_xor :
    (pad input : Bytes) → length input ≤ length pad → length (zip_xor pad input) ≡ length input
unfolding zip_xor
length-zip_xor [] [] h = refl
length-zip_xor [] (i ∷ input) h = absurd (omega (arith, h))
length-zip_xor (p ∷ pad) [] h = refl
length-zip_xor (p ∷ pad) (i ∷ input) h =
    ap (λ (n : ℕ). suc n) (length-zip_xor pad input (omega (arith, h)))
