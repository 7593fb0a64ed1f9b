-- ===== src/Ocb2/Ends.antt =====
-- What `encrypt` and `decrypt` of src/CryptOCB2.cpp come to behind their loops.
use libmumble.Prelude.{
  ℕ, ◌≤◌, ◌≡◌, ◌⊎◌, inl, inr, refl, ap, ◌∙◌, Bool, true, Option, some, [], ◌∷◌, ◌++◌,
}
use libmumble.Prelude.{◌==◌, if◌then◌else◌, length, take, drop, IsByte, All, arith, ==-refl}
use libmumble.Tcp.Fields.{Bytes}
use libmumble.Ocb2.Swap.{swap64-IsU64}
use libmumble.Ocb2.Blocks.{
  Block, IsBlock, xor_block, s2, s3, doubled_first, doubled_second, xor-IsU64,
}
use libmumble.Ocb2.BlockLaws.{block_of-IsBlock, xor_block-IsBlock, s2-IsBlock}
use libmumble.Ocb2.Loops.{block_of, bytes_of, Ended}
use libmumble.Ocb2.Sent.{IsCipher}
use libmumble.Ocb2.LastBlock.{length_block, is_refused}
use libmumble.Ocb2.Crypt.{
  answer, failed, on_block, tag_equal, by_tag, filled, encrypt_end, decrypt_end, decrypt_last,
}
use libmumble.Ocb2.LastTrips.{take-filled, last_sent, length-last_sent, last_back}

s3-IsBlock : (b : Block) → IsBlock b → IsBlock (s3 b)
unfolding s3 doubled_first doubled_second
s3-IsBlock b h =
    (xor-IsU64 b.first _ h.0 (swap64-IsU64 _), xor-IsU64 b.second _ h.1 (swap64-IsU64 _))

length_block-IsBlock : (n : ℕ) → IsBlock (length_block n)
unfolding length_block
length_block-IsBlock n = (omega arith, swap64-IsU64 _)

tag_equal_self : (tag : Bytes) → tag_equal tag tag ≡ some true
unfolding tag_equal
tag_equal_self [] = refl
tag_equal_self (b ∷ tag) = rw (==-refl b) (tag_equal_self tag)

decrypt_last_is :
    (run : Bool → Block → Option Block) (e : Ended) (last tag : Block) (rest given : Bytes)
    → take (length e.input) (bytes_of last) ≡ rest
    → run true (xor_block (s3 (s2 e.delta)) (xor_block e.checksum last)) ≡ some tag
    → given ≡ [] ⊎ given ≡ bytes_of tag
    → decrypt_last run given e last ≡ (
        if is_refused last (s2 e.delta)
        then failed
        else answer (length (e.output ++ rest)) (e.output ++ rest) [])
unfolding decrypt_last on_block by_tag bytes_of
decrypt_last_is run e last tag rest given hr ht (inl hg) = rw (hg, hr) refl
decrypt_last_is run e last tag rest given hr ht (inr hg) =
    rw (hg, ht, hr, tag_equal_self (bytes_of tag)) refl

-- What `decrypt` gives where its pad, the last block and the tag are these.
decrypt_end_is :
    (run : Bool → Block → Option Block) (e : Ended) (pad last tag : Block) (rest given : Bytes)
    → run true (xor_block (length_block (length e.input)) (s2 e.delta)) ≡ some pad
    → xor_block (block_of e.input) pad ≡ last
    → take (length e.input) (bytes_of last) ≡ rest
    → run true (xor_block (s3 (s2 e.delta)) (xor_block e.checksum last)) ≡ some tag
    → given ≡ [] ⊎ given ≡ bytes_of tag
    → decrypt_end run given e ≡ (
        if is_refused last (s2 e.delta)
        then failed
        else answer (length (e.output ++ rest)) (e.output ++ rest) [])
decrypt_end_is run e pad last tag rest given hp hl hr ht hg =
    unfold decrypt_end on_block in
    (ap
        (λ (o : Option Block).
          on_block o (λ p. decrypt_last run given e (xor_block (block_of e.input) p)))
        hp
      ∙ ap (λ (b : Block). decrypt_last run given e b) hl
      ∙ decrypt_last_is run e last tag rest given hr ht hg)

-- Behind the loops, with the delta, the checksum and the bytes that are left.
module _ (run : Bool → Block → Option Block) (cipher : IsCipher run) (e : Ended) where
  abbrev pub last_delta : Block
  last_delta = s2 e.delta

  abbrev pub pad_source : Block
  pad_source = xor_block (length_block (length e.input)) last_delta

  abbrev pub pad : Block
  pad = cipher.enciphered pad_source

  abbrev pub last_block : Block
  last_block = filled pad e.input

  abbrev pub tag_source : Block
  tag_source = xor_block (s3 last_delta) (xor_block e.checksum last_block)

  abbrev pub tag : Block
  tag = cipher.enciphered tag_source

  pad_source-IsBlock : IsBlock pad_source
  pad_source-IsBlock =
      xor_block-IsBlock _ _ (length_block-IsBlock (length e.input)) (s2-IsBlock e.delta)

  abbrev pub text : Bytes
  text = e.output ++ take (length e.input) (bytes_of (xor_block pad last_block))

  module _ (sum : IsBlock e.checksum) (bytes : All IsByte e.input)
      (short : length e.input ≤ 16) where
    pub whole_pad : IsBlock pad
    whole_pad = cipher.keeps pad_source pad_source-IsBlock

    tag_source-IsBlock : IsBlock tag_source
    unfolding filled
    tag_source-IsBlock = xor_block-IsBlock _ _ (s3-IsBlock last_delta (s2-IsBlock e.delta)) (
        xor_block-IsBlock e.checksum _ sum
          (block_of-IsBlock (e.input ++ drop (length e.input) (bytes_of pad))))

    pub encrypt_end_gives :
        (tag_size : ℕ)
        → encrypt_end run tag_size e ≡ (
            if tag_size == 0
            then answer (length text) text []
            else answer (length text) text (bytes_of tag))
    unfolding encrypt_end on_block
    encrypt_end_gives tag_size =
        rw (cipher.runs pad_source pad_source-IsBlock, cipher.runs tag_source tag_source-IsBlock)
          refl

    pub decrypt_end_gives :
        (plain given : Bytes)
        → given ≡ [] ⊎ given ≡ bytes_of tag
        → decrypt_end run given
            (record e { input = last_sent pad e.input whole_pad bytes short; output = plain })
          ≡ (if is_refused last_block last_delta
              then failed
              else answer (length (plain ++ e.input)) (plain ++ e.input) [])
    decrypt_end_gives plain given h =
        let size = length-last_sent pad e.input whole_pad bytes short in
        decrypt_end_is run
          (record e { input = last_sent pad e.input whole_pad bytes short; output = plain }) pad
          last_block tag e.input given
          (ap (λ (n : ℕ). run true (xor_block (length_block n) last_delta)) size
            ∙ cipher.runs pad_source pad_source-IsBlock)
          (last_back pad e.input whole_pad bytes short)
          (ap (λ (n : ℕ). take n (bytes_of last_block)) size
            ∙ take-filled pad e.input whole_pad bytes short)
          (cipher.runs tag_source tag_source-IsBlock) h
