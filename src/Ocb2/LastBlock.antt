-- ===== src/Ocb2/LastBlock.antt =====
-- The check of the last block in `CryptOCB2::decrypt` of src/CryptOCB2.cpp, against the attack of
-- https://eprint.iacr.org/2019/311.
use libmumble.Prelude.{
  ℕ, ◌*◌, ◌≡◌, ◌≢◌, refl, sym, ap, ◌∙◌, Bool, true, false, ◌&&◌, [], ◌∷◌, ◌==◌, u64, bit_xor, arith,
  Bool-cases, inl, inr, length, take, ◌++◌, ap₂,
}
use libmumble.Prelude.Bits.{xor_self, xor_assoc, xor_comm, xor-zero}
use libmumble.Tcp.Fields.{Bytes}
use libmumble.Ocb2.Swap.{swap64, of_bytes8, byte_at, byte_at-xor}
use libmumble.Ocb2.Blocks.{Block, xor_block}
use libmumble.Ocb2.Loops.{bytes_of}

-- `tmp = {}; tmp.back() = Endian::swap(static_cast<SubBlock>(in.size() * 8));`
unfoldable pub length_block : ℕ → Block
length_block size = record { first = 0; second = swap64 (u64 (size * 8)) }

-- `std::equal` of the bytes of two blocks.
unfoldable pub same_bytes : Bytes → Bytes → Bool
same_bytes (a ∷ xs) (b ∷ ys) = (a == b) && same_bytes xs ys
same_bytes xs ys = true

-- The condition on which `decrypt` gives up a last block `tmp`.
unfoldable pub is_refused : Block → Block → Bool
unfolding same_bytes
is_refused tmp delta = same_bytes (bytes_of tmp) (bytes_of delta)

and-true : (a b : Bool) → (a && b) ≡ true → b ≡ true
and-true true b h = h
and-true false true h = refl
and-true false false h = h

top_bit : (b : ℕ) → bit_xor b 0x80 ≢ b
top_bit b h =
    let none : 0x80 ≡ 0 =
      sym (ap (λ (n : ℕ). bit_xor n 0x80) (xor_self b) ∙ xor_comm 0 0x80 ∙ xor-zero 0x80)
      ∙ xor_assoc b b 0x80
      ∙ ap (λ (n : ℕ). bit_xor b n) h
      ∙ xor_self b in
    ground (arith, none)

last_same :
    (xs ys : Bytes) (a b : ℕ)
    → length xs ≡ length ys
    → same_bytes (xs ++ (a ∷ [])) (ys ++ (b ∷ [])) ≡ true
    → a ≡ b
unfolding same_bytes
last_same [] [] a b e h = ground arith
last_same (x ∷ xs) [] a b e h = ground arith
last_same [] (y ∷ ys) a b e h = ground arith
last_same (x ∷ xs) (y ∷ ys) a b e h = last_same xs ys a b (omega (arith, e)) (and-true (x == y) _ h)

-- All bytes of a block but the last.
first_bytes : Block → Bytes
first_bytes block = take 15 (bytes_of block)

split_last : (block : Block) → bytes_of block ≡ first_bytes block ++ (byte_at 7 block.second ∷ [])
unfolding first_bytes bytes_of
split_last block = refl

length-first_bytes : (block : Block) → length (first_bytes block) ≡ 15
unfolding first_bytes bytes_of
length-first_bytes block = refl

attack_byte :
    (delta : Block)
    → byte_at 7 (xor_block delta (length_block 16)).second ≡ bit_xor (byte_at 7 delta.second) 0x80
unfolding xor_block length_block
attack_byte delta =
    byte_at-xor 7 delta.second (swap64 128)
    ∙ (unfold swap64 byte_at of_bytes8 in ap (λ (n : ℕ). bit_xor (byte_at 7 delta.second) n) refl)

-- The block of the attack, delta with the length of a whole block added, is not refused: it differs
-- from delta in the last byte.
pub attack_is_not_refused :
    (delta : Block) → is_refused (xor_block delta (length_block 16)) delta ≡ false
attack_is_not_refused delta =
    let tmp = xor_block delta (length_block 16) in
    elim (Bool-cases (is_refused tmp delta)) [
      | inl e ↦
          let split : same_bytes (first_bytes tmp ++ (byte_at 7 tmp.second ∷ []))
                (first_bytes delta ++ (byte_at 7 delta.second ∷ []))
              ≡ true =
            sym (ap₂ same_bytes (split_last tmp) (split_last delta)) ∙ (unfold is_refused in e) in
          let same =
            last_same (first_bytes tmp) (first_bytes delta) (byte_at 7 tmp.second)
              (byte_at 7 delta.second) (length-first_bytes tmp ∙ sym (length-first_bytes delta))
              split in
          absurd (top_bit (byte_at 7 delta.second) (sym (attack_byte delta) ∙ same))
      | inr e ↦ e
    ]
