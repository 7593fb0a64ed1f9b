-- ===== src/Ocb2/CryptTrips.antt =====
-- `CryptOCB2::decrypt` of src/CryptOCB2.cpp takes back `encrypt`.
use libmumble.Prelude.{
  ℕ, zero, suc, ◌+◌, ◌≤◌, ◌≡◌, ◌⊎◌, inl, inr, refl, ap, ap₂, ◌∙◌, Bool, true, false, Option, some,
  [], ◌++◌,
}
use libmumble.Prelude.{
  ◌==◌, ltb, if◌then◌else◌, length, take, drop, IsByte, All, arith, length-append, Bool-cases,
  ==-false,
}
use libmumble.Tcp.Fields.{Bytes}
use libmumble.Ocb2.Blocks.{Block, IsBlock, xor_block, s2}
use libmumble.Ocb2.BlockLaws.{block_of-IsBlock, xor_block-IsBlock, flip_if-IsBlock}
use libmumble.Ocb2.Loops.{
  block_of, bytes_of, Ended, encrypt_loop, decrypt_loop, is_critical, flip_if,
}
use libmumble.Ocb2.Sent.{
  IsCipher, sent_block, sent, crypt, encrypt_loop-crypt, length-crypt, crypt-left,
}
use libmumble.Ocb2.LoopTrips.{decrypt_loop-encrypt_loop}
use libmumble.Ocb2.LastBlock.{is_refused}
use libmumble.Ocb2.Crypt.{
  answer, failed, no_bits, on_block, on_ended, filled, encrypt_end, encrypt, decrypt,
}
use libmumble.Ocb2.Altered.{altered, length-altered, sent-altered}
use libmumble.Ocb2.Ends.{
  last_delta, pad, last_block, tag, text, whole_pad, encrypt_end_gives, decrypt_end_gives,
}
use libmumble.Ocb2.LastTrips.{All-drop, last_sent, length-last_sent}

module _ (run : Bool → Block → Option Block) (cipher : IsCipher run) where
  sum-IsBlock :
      (fuel : ℕ) (delta checksum : Block) (input : Bytes)
      → IsBlock checksum
      → IsBlock (crypt run cipher fuel delta checksum input).checksum
  unfolding crypt sent_block
  sum-IsBlock zero delta checksum input h = h
  sum-IsBlock (suc fuel) delta checksum input h =
      let block = flip_if (is_critical input) (block_of input) in
      let next =
        xor_block-IsBlock checksum block h
          (flip_if-IsBlock (is_critical input) (block_of input) (block_of-IsBlock input)) in
      elim (Bool-cases (ltb 16 (length input))) [
        | inl e ↦ rw e (sum-IsBlock fuel (s2 delta) (xor_block checksum block) (drop 16 input) next)
        | inr e ↦ rw e h
      ]

  left-IsByte :
      (fuel : ℕ) (delta checksum : Block) (input : Bytes)
      → All IsByte input
      → All IsByte (crypt run cipher fuel delta checksum input).input
  unfolding crypt
  left-IsByte zero delta checksum input h = h
  left-IsByte (suc fuel) delta checksum input h = elim (Bool-cases (ltb 16 (length input))) [
    | inl e ↦ rw e (
        left-IsByte fuel (s2 delta) (xor_block checksum (sent_block input)) (drop 16 input)
          (All-drop 16 input h))
    | inr e ↦ rw e h
  ]

if-answer :
    (b : Bool) (m n : ℕ) (out kept : Bytes)
    → m ≡ n
    → (if b then answer m out [] else answer m out kept) ≡ answer n out (if b then [] else kept)
if-answer true m n out kept h = ap (λ (k : ℕ). answer k out []) h
if-answer false m n out kept h = ap (λ (k : ℕ). answer k out kept) h

tag_of :
    (tag_size : ℕ) (block : Block)
    → tag_size ≡ 0 ⊎ tag_size ≡ 16
    → (length (if◌then◌else◌ {A = Bytes} (tag_size == 0) [] (bytes_of block)) ≡ tag_size)
      × ((if◌then◌else◌ {A = Bytes} (tag_size == 0) [] (bytes_of block)) ≡ []
          ⊎ (if◌then◌else◌ {A = Bytes} (tag_size == 0) [] (bytes_of block)) ≡ bytes_of block)
unfolding bytes_of
tag_of tag_size block (inl h) = rw h (refl, inl refl)
tag_of tag_size block (inr h) = rw h (refl, inr refl)

-- The state behind the loop of `encrypt`, over a cipher.
unfoldable pub loop_end : (run : Bool → Block → Option Block) → IsCipher run → Bytes → Bytes → Ended
unfolding crypt block_of
loop_end run cipher nonce input =
    crypt run cipher (length input) (cipher.enciphered (block_of nonce)) no_bits input

-- Whether the last block of an input is one that `decrypt` refuses.
unfoldable pub is_unlucky :
    (run : Bool → Block → Option Block) → IsCipher run → Bytes → Bytes → Bool
unfolding loop_end is_refused filled
is_unlucky run cipher nonce input =
    let e = loop_end run cipher nonce input in
    is_refused (last_block run cipher e) (last_delta run cipher e)

module _ (run : Bool → Block → Option Block) (cipher : IsCipher run) (nonce input : Bytes)
    (bytes : All IsByte input) where
  first : Block
  first = cipher.enciphered (block_of nonce)

  e : Ended
  unfolding loop_end
  e = loop_end run cipher nonce input

  sum : IsBlock e.checksum
  unfolding loop_end e
  sum =
      sum-IsBlock run cipher (length input) (cipher.enciphered (block_of nonce)) no_bits input
        (omega arith, omega arith)

  left : All IsByte e.input
  unfolding loop_end e
  left =
      left-IsByte run cipher (length input) (cipher.enciphered (block_of nonce)) no_bits input bytes

  short : length e.input ≤ 16
  unfolding loop_end e
  short =
      crypt-left run cipher (length input) (cipher.enciphered (block_of nonce)) no_bits input
        (omega arith)

  total : length e.output + length e.input ≡ length input
  unfolding loop_end e
  total = length-crypt run cipher (length input) (cipher.enciphered (block_of nonce)) no_bits input

  abbrev sealed : Bytes
  sealed = text run cipher e

  length-sealed : length sealed ≡ length input
  length-sealed = omega (
    arith,
    length-append e.output
        (take (length e.input) (bytes_of (xor_block (pad run cipher e) (last_block run cipher e)))),
    length-last_sent (pad run cipher e) e.input (whole_pad run cipher e sum left short) left short,
    total,
  )

  nonce_runs : run true (block_of nonce) ≡ some first
  unfolding first
  nonce_runs = cipher.runs (block_of nonce) (block_of-IsBlock nonce)

  loop_runs : encrypt_loop run (length input) first no_bits input ≡ some e
  unfolding first loop_end e
  loop_runs =
      encrypt_loop-crypt run cipher (length input) (cipher.enciphered (block_of nonce)) no_bits
        input

  ends_in_answer :
      (tag_size : ℕ)
      → encrypt_end run tag_size e
        ≡ answer (length input) sealed (if tag_size == 0 then [] else bytes_of (tag run cipher e))
  ends_in_answer tag_size =
      encrypt_end_gives run cipher e sum left short tag_size
      ∙ if-answer (tag_size == 0) (length sealed) (length input) sealed
          (bytes_of (tag run cipher e)) length-sealed

  encrypt_gives :
      (out tag_size : ℕ)
      → 1 ≤ out
      → length input ≤ out
      → tag_size ≡ 0 ⊎ tag_size ≡ 16
      → encrypt run true nonce out tag_size input
        ≡ answer (length input) sealed (if tag_size == 0 then [] else bytes_of (tag run cipher e))
  unfolding encrypt on_block on_ended
  encrypt_gives out tag_size ho room h =
      let out_is : (out == 0) ≡ false = ==-false out 0 (λ none. omega (arith, none, ho)) in
      let fits : ltb out (length input) ≡ false = ground (arith, room) in
      elim h [
        | inl no_tag ↦ rw (out_is, no_tag, nonce_runs, fits, loop_runs) (ends_in_answer 0)
        | inr whole ↦ rw (out_is, whole, nonce_runs, fits, loop_runs) (ends_in_answer 16)
      ]

  plain_is : sent (length input) input ++ e.input ≡ altered (length input) input
  unfolding loop_end e
  plain_is =
      sent-altered run cipher (length input) (cipher.enciphered (block_of nonce)) no_bits input

  loop_back :
      decrypt_loop run (length sealed) first no_bits sealed
      ≡ some (record e {
        input =
            last_sent (pad run cipher e) e.input (whole_pad run cipher e sum left short) left short;
        output = sent (length input) input;
      })
  loop_back =
      let whole = whole_pad run cipher e sum left short in
      ap (λ (n : ℕ). decrypt_loop run n first no_bits sealed) length-sealed
      ∙ decrypt_loop-encrypt_loop run cipher first no_bits input
          (last_sent (pad run cipher e) e.input whole left short) e loop_runs
          (length-last_sent (pad run cipher e) e.input whole left short)

  decrypt_gives :
      (back : ℕ) (given : Bytes)
      → 1 ≤ back
      → length input ≤ back
      → given ≡ [] ⊎ given ≡ bytes_of (tag run cipher e)
      → decrypt run true nonce back given sealed ≡ (
          if is_unlucky run cipher nonce input
          then failed
          else answer (length input) (altered (length input) input) [])
  unfolding decrypt on_block on_ended is_unlucky e
  decrypt_gives back given hb room h =
      let back_is : (back == 0) ≡ false = ==-false back 0 (λ nothing. omega (arith, nothing, hb)) in
      let fits : ltb back (length sealed) ≡ false = ground (arith, room, length-sealed) in
      let plain : Bytes = sent (length input) input in
      let size : length (plain ++ e.input) ≡ length input =
        ap (λ (l : Bytes). length l) plain_is ∙ length-altered (length input) input in
      let ends = decrypt_end_gives run cipher e sum left short plain given h in
      rw (back_is, nonce_runs, fits, loop_back)
        (ends
          ∙ ap₂
              (λ (n : ℕ) (l : Bytes).
                if is_refused (last_block run cipher e) (last_delta run cipher e)
                then failed
                else answer n l [])
              size plain_is)

-- Over a block cipher, `encrypt` and then `decrypt` with the same nonce: for an input of bytes, outputs
-- that are not empty nor shorter than the input, and a tag of no or sixteen bytes, `encrypt` gives a
-- text and a tag, the text as long as the input, and `decrypt` gives the altered input back in full unless its last block is one
-- that is refused, and then it fails.
pub decrypt-encrypt :
    (run : Bool → Block → Option Block) (cipher : IsCipher run) (nonce input : Bytes)
    (out back tag_size : ℕ)
    → All IsByte input
    → 1 ≤ out
    → length input ≤ out
    → 1 ≤ back
    → length input ≤ back
    → tag_size ≡ 0 ⊎ tag_size ≡ 16
    → (text : Bytes) × (tag : Bytes) × (encrypt run true nonce out tag_size input
        ≡ answer (length input) text tag)
      × (length text ≡ length input)
      × (length tag ≡ tag_size)
      × (decrypt run true nonce back tag text ≡ (
          if is_unlucky run cipher nonce input
          then failed
          else answer (length input) (altered (length input) input) []))
decrypt-encrypt run cipher nonce input out back tag_size bytes ho room hb room_back ht =
    let block = tag run cipher (e run cipher nonce input bytes) in
    let tag_is = tag_of tag_size block ht in
    (
      sealed run cipher nonce input bytes,
      if tag_size == 0 then [] else bytes_of block,
      encrypt_gives run cipher nonce input bytes out tag_size ho room ht,
      length-sealed run cipher nonce input bytes,
      tag_is.0,
      decrypt_gives run cipher nonce input bytes back (if tag_size == 0 then [] else bytes_of block)
          hb room_back tag_is.1,
    )
