-- ===== src/Ocb2/Sent.antt =====
-- What the loop of `CryptOCB2::encrypt` in src/CryptOCB2.cpp comes to over a block cipher.
use libmumble.Prelude.{
  ℕ, zero, suc, ◌+◌, ◌≤◌, ◌≡◌, refl, Bool, true, false, [], ◌++◌, length, arith,
}
use libmumble.Prelude.{
  Option, some, ltb, if◌then◌else◌, drop, length-drop, Bool-cases, inl, inr, ltb_false→le, ltb→lt,
}
use libmumble.Tcp.Fields.{Bytes}
use libmumble.Ocb2.Blocks.{Block, IsBlock, xor_block, s2}
use libmumble.Ocb2.Loops.{
  block_of, bytes_of, flip_if, is_critical, Ended, if_run, written, encrypt_loop,
}
use libmumble.Ocb2.BlockLaws.{block_of-IsBlock, flip_if-xor_block}
use libmumble.Ocb2.BlockLaws.{xor_block-IsBlock, flip_if-IsBlock, s2-IsBlock}

-- What a block cipher does: the decryption of what a block is encrypted to is the block.
pub record IsCipher (run : Bool → Block → Option Block) : Type 0 where
  pub enciphered : Block → Block
  pub runs : (b : Block) → IsBlock b → run true b ≡ some (enciphered b)
  pub keeps : (b : Block) → IsBlock b → IsBlock (enciphered b)
  pub back : (b : Block) → IsBlock b → run false (enciphered b) ≡ some b

-- The block that is sent for the first block of the input.
unfoldable pub sent_block : Bytes → Block
sent_block input = flip_if (is_critical input) (block_of input)

-- The bytes that are sent while more than a block is left, with the bit that is flipped.
unfoldable pub sent : ℕ → Bytes → Bytes
unfolding sent_block
sent zero input = []
sent (suc fuel) input =
    let later = sent fuel (drop 16 input) in
    if ltb 16 (length input) then bytes_of (sent_block input) ++ later else []

module _ (run : Bool → Block → Option Block) (cipher : IsCipher run) where
  -- What the loop of `encrypt` comes to.
  unfoldable pub crypt : ℕ → Block → Block → Bytes → Ended
  unfolding sent_block
  crypt zero delta checksum input = record {
    delta = delta;
    checksum = checksum;
    input = input;
    output = [];
  }
  crypt (suc fuel) delta checksum input =
      let next = s2 delta in
      let block = xor_block next (cipher.enciphered (xor_block next (sent_block input))) in
      let later = crypt fuel next (xor_block checksum (sent_block input)) (drop 16 input) in
      if ltb 16 (length input)
      then record later { output = bytes_of block ++ later.output }
      else record { delta = delta; checksum = checksum; input = input; output = [] }

  pub encrypt_loop-crypt :
      (fuel : ℕ) (delta checksum : Block) (input : Bytes)
      → encrypt_loop run fuel delta checksum input ≡ some (crypt fuel delta checksum input)
  unfolding encrypt_loop crypt sent_block written if_run
  encrypt_loop-crypt zero delta checksum input = refl
  encrypt_loop-crypt (suc fuel) delta checksum input =
      let next = s2 delta in
      let flip = is_critical input in
      let tmp = flip_if-xor_block flip next (block_of input) in
      let sum = flip_if-xor_block flip checksum (block_of input) in
      let block = xor_block next (flip_if flip (block_of input)) in
      let whole : IsBlock block =
        xor_block-IsBlock next (flip_if flip (block_of input)) (s2-IsBlock delta)
          (flip_if-IsBlock flip (block_of input) (block_of-IsBlock input)) in
      elim (Bool-cases (ltb 16 (length input))) [
        | inl e ↦ rw (
          e,
          tmp,
          sum,
          cipher.runs block whole,
          encrypt_loop-crypt fuel next (xor_block checksum (flip_if flip (block_of input)))
              (drop 16 input),
        )
        | inr e ↦ rw e
      ]

  pub length-crypt :
      (fuel : ℕ) (delta checksum : Block) (input : Bytes)
      → length (crypt fuel delta checksum input).output
          + length (crypt fuel delta checksum input).input
        ≡ length input
  unfolding crypt bytes_of
  length-crypt zero delta checksum input = omega arith
  length-crypt (suc fuel) delta checksum input =
      let rest =
        length-crypt fuel (s2 delta) (xor_block checksum (sent_block input)) (drop 16 input) in
      elim (Bool-cases (ltb 16 (length input))) [
        | inl e ↦
            let long = ltb→lt 16 (length input) e in
            rw e (ground (arith, rest, length-drop 16 input, long))
        | inr e ↦ rw e (omega arith)
      ]

  pub crypt-left :
      (fuel : ℕ) (delta checksum : Block) (input : Bytes)
      → length input ≤ fuel
      → length (crypt fuel delta checksum input).input ≤ 16
  unfolding crypt
  crypt-left zero delta checksum input h = omega (arith, h)
  crypt-left (suc fuel) delta checksum input h =
      let cut = length-drop 16 input in
      elim (Bool-cases (ltb 16 (length input))) [
        | inl e ↦ rw e (
            crypt-left fuel (s2 delta) (xor_block checksum (sent_block input)) (drop 16 input)
              (omega (arith, cut, h)))
        | inr e ↦ rw e (ltb_false→le 16 (length input) e)
      ]

-- Over a block cipher, the loop of `encrypt` comes to an end with at most one block left, and has
-- written or left as many bytes as it was given.
pub encrypt_loop_ends :
    (run : Bool → Block → Option Block) (cipher : IsCipher run) (delta checksum : Block)
    (input : Bytes)
    → (e : Ended) × (encrypt_loop run (length input) delta checksum input ≡ some e)
      × (length e.input ≤ 16)
      × (length e.output + length e.input ≡ length input)
encrypt_loop_ends run cipher delta checksum input = (
  crypt run cipher (length input) delta checksum input,
  encrypt_loop-crypt run cipher (length input) delta checksum input,
  crypt-left run cipher (length input) delta checksum input (omega arith),
  length-crypt run cipher (length input) delta checksum input,
)
