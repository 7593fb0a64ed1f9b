-- ===== src/Ocb2/Loops.antt =====
-- The loops of `CryptOCB2::encrypt` and `decrypt` in src/CryptOCB2.cpp, which run while more than one
-- block is left, over `P::process` on one block: it gives none where it returns zero.
use libmumble.Prelude.{
  ℕ, zero, suc, ◌-◌, Bool, true, false, ◌&&◌, Option, none, some, [], ◌∷◌, ◌++◌,
}
use libmumble.Prelude.{
  ltb, leb, ◌==◌, if◌then◌else◌, length, take, drop, get_or, bit_or, bit_xor, u8,
}
use libmumble.Tcp.Fields.{Bytes}
use libmumble.Ocb2.Swap.{of_bytes8, byte_at}
use libmumble.Ocb2.Blocks.{Block, xor_block, s2}

-- A byte of memory; zeros stand behind what is copied.
unfoldable pub byte_of : Bytes → ℕ → ℕ
byte_of bytes i = u8 (get_or bytes i 0)

-- `toBlockView` of the first sixteen bytes.
unfoldable pub block_of : Bytes → Block
unfolding byte_of
block_of bytes =
    let b = byte_of bytes in
    record {
      first = of_bytes8 (b 7) (b 6) (b 5) (b 4) (b 3) (b 2) (b 1) (b 0);
      second = of_bytes8 (b 15) (b 14) (b 13) (b 12) (b 11) (b 10) (b 9) (b 8);
    }

-- `std::as_writable_bytes` of a block.
unfoldable pub bytes_of : Block → Bytes
bytes_of block =
    let x = block.first in
    let y = block.second in
    byte_at 0 x
    ∷ byte_at 1 x
    ∷ byte_at 2 x
    ∷ byte_at 3 x
    ∷ byte_at 4 x
    ∷ byte_at 5 x
    ∷ byte_at 6 x
    ∷ byte_at 7 x
    ∷ byte_at 0 y
    ∷ byte_at 1 y
    ∷ byte_at 2 y
    ∷ byte_at 3 y
    ∷ byte_at 4 y
    ∷ byte_at 5 y
    ∷ byte_at 6 y
    ∷ byte_at 7 y
    ∷ []

unfoldable pub or_all : ℕ → Bytes → ℕ
or_all sum [] = sum
or_all sum (b ∷ bytes) = or_all (bit_or sum b) bytes

-- `flipABit`: the second to last block is zero but for its last byte.
unfoldable pub is_critical : Bytes → Bool
unfolding or_all
is_critical input = leb (length input - 16) 16 && (or_all 0 (take 15 input) == 0)

-- `*reinterpret_cast<uint8_t *>(block.data()) ^= 1` where `flip` holds.
unfoldable pub flip_if : Bool → Block → Block
flip_if true block = record block { first = bit_xor block.first 1 }
flip_if false block = block

-- Delta, checksum, and what is left of the input, after a loop that wrote `output`.
pub record Ended : Type 0 where
  pub delta : Block
  pub checksum : Block
  pub input : Bytes
  pub output : Bytes

unfoldable pub if_run : Option Block → (Block → Option Ended) → Option Ended
if_run none next = none
if_run (some block) next = next block

unfoldable pub written : Bytes → Option Ended → Option Ended
written bytes none = none
written bytes (some e) = some (record e { output = bytes ++ e.output })

module _ (run : Bool → Block → Option Block) where
  -- The loop of `encrypt`. Each pass takes sixteen bytes, so that the length of the input is enough.
  unfoldable pub encrypt_loop : ℕ → Block → Block → Bytes → Option Ended
  unfolding if_run written flip_if is_critical block_of xor_block s2
  encrypt_loop zero delta checksum input =
      some (record { delta = delta; checksum = checksum; input = input; output = [] })
  encrypt_loop (suc fuel) delta checksum input =
      let flip = is_critical input in
      let next = s2 delta in
      let tmp = flip_if flip (xor_block next (block_of input)) in
      let sum = flip_if flip (xor_block checksum (block_of input)) in
      let later = encrypt_loop fuel next sum (drop 16 input) in
      if ltb 16 (length input)
      then if_run (run true tmp) (λ c. written (bytes_of (xor_block next c)) later)
      else some (record { delta = delta; checksum = checksum; input = input; output = [] })

  -- The loop of `decrypt`.
  unfoldable pub decrypt_loop : ℕ → Block → Block → Bytes → Option Ended
  unfolding if_run written block_of xor_block s2
  decrypt_loop zero delta checksum input =
      some (record { delta = delta; checksum = checksum; input = input; output = [] })
  decrypt_loop (suc fuel) delta checksum input =
      let next = s2 delta in
      let pass : Block → Option Ended = λ tmp.
        (let plain = xor_block next tmp in
          written (bytes_of plain)
            (decrypt_loop fuel next (xor_block checksum plain) (drop 16 input))) in
      if ltb 16 (length input)
      then if_run (run false (xor_block next (block_of input))) pass
      else some (record { delta = delta; checksum = checksum; input = input; output = [] })
