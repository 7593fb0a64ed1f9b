-- ===== src/Ocb2/Crypt.antt =====
-- `CryptOCB2::encrypt` and `decrypt` of src/CryptOCB2.cpp as a whole, over `P::process` on one block.
use libmumble.Prelude.{ℕ, Bool, true, false, not, ◌&&◌, Option, none, some, [], ◌∷◌, ◌++◌}
use libmumble.Prelude.{◌==◌, ltb, if◌then◌else◌, length, take, drop}
use libmumble.Tcp.Fields.{Bytes}
use libmumble.Ocb2.Blocks.{Block, xor_block, s2, s3}
use libmumble.Ocb2.Loops.{block_of, bytes_of, Ended, encrypt_loop, decrypt_loop}
use libmumble.Ocb2.LastBlock.{length_block, is_refused}

-- The size that is returned, with what was written to the output and the tag; and the comparison of a
-- tag with memory behind the computed one; and an output that is shorter than the input but not empty,
-- past whose end the loop and what stands behind it would write.
pub data Answer : Type 0 where
  answer : ℕ → Bytes → Bytes → Answer
  overread : Answer
  overrun : Answer

-- `return {};`
abbrev pub failed : Answer
failed = answer 0 [] []

abbrev pub no_bits : Block
no_bits = record { first = 0; second = 0 }

unfoldable pub on_block : Option Block → (Block → Answer) → Answer
on_block none next = failed
on_block (some block) next = next block

unfoldable pub on_ended : Option Ended → (Ended → Answer) → Answer
on_ended none next = failed
on_ended (some e) next = next e

-- `std::equal(tag.begin(), tag.end(), retrievedTag.cbegin())`: none where it runs over the end.
unfoldable pub tag_equal : Bytes → Bytes → Option Bool
tag_equal [] retrieved = some true
tag_equal (a ∷ tag) [] = none
tag_equal (a ∷ tag) (b ∷ retrieved) = if a == b then tag_equal tag retrieved else some false

unfoldable pub by_tag : Option Bool → Answer → Answer
by_tag none good = overread
by_tag (some true) good = good
by_tag (some false) good = failed

-- The last block filled up with the bytes of the pad.
unfoldable pub filled : Block → Bytes → Block
filled pad input = block_of (input ++ drop (length input) (bytes_of pad))

module _ (run : Bool → Block → Option Block) where
  -- What `encrypt` does behind its loop.
  unfoldable pub encrypt_end : ℕ → Ended → Answer
  unfolding on_block filled length_block
  encrypt_end tag_size e =
      let delta = s2 e.delta in
      let size = length e.input in
      on_block (run true (xor_block (length_block size) delta)) (λ pad.
        let last = filled pad e.input in
        let checksum = xor_block e.checksum last in
        let output = e.output ++ take size (bytes_of (xor_block pad last)) in
        if tag_size == 0
        then answer (length output) output []
        else on_block (run true (xor_block (s3 delta) checksum))
            (λ tag. answer (length output) output (bytes_of tag)))

  -- `encrypt`: whether the object is usable, the nonce, the sizes of both buffers, and the input.
  unfoldable pub encrypt : Bool → Bytes → ℕ → ℕ → Bytes → Answer
  unfolding on_block on_ended encrypt_end encrypt_loop
  encrypt ok nonce out_size tag_size input =
      if not ok
      then failed
      else if out_size == 0
      then answer (length input) [] []
      else if not (tag_size == 0) && not (tag_size == 16)
      then failed
      else on_block (run true (block_of nonce)) (λ delta.
        if ltb out_size (length input)
        then overrun
        else on_ended (encrypt_loop run (length input) delta no_bits input) (encrypt_end tag_size))

  -- What `decrypt` does with its last block.
  unfoldable pub decrypt_last : Bytes → Ended → Block → Answer
  unfolding on_block by_tag tag_equal is_refused
  decrypt_last tag e last =
      let delta = s2 e.delta in
      let checksum = xor_block e.checksum last in
      let output = e.output ++ take (length e.input) (bytes_of last) in
      let good = answer (length output) output [] in
      if is_refused last delta
      then failed
      else if length tag == 0
      then good
      else on_block (run true (xor_block (s3 delta) checksum))
          (λ retrieved. by_tag (tag_equal tag (bytes_of retrieved)) good)

  -- What `decrypt` does behind its loop.
  unfoldable pub decrypt_end : Bytes → Ended → Answer
  unfolding on_block decrypt_last length_block
  decrypt_end tag e =
      on_block (run true (xor_block (length_block (length e.input)) (s2 e.delta)))
        (λ pad. decrypt_last tag e (xor_block (block_of e.input) pad))

  unfoldable pub decrypt : Bool → Bytes → ℕ → Bytes → Bytes → Answer
  unfolding on_block on_ended decrypt_end decrypt_loop
  decrypt ok nonce out_size tag input =
      if not ok
      then failed
      else if out_size == 0
      then answer (length input) [] []
      else on_block (run true (block_of nonce)) (λ delta.
        if ltb out_size (length input)
        then overrun
        else on_ended (decrypt_loop run (length input) delta no_bits input) (decrypt_end tag))
