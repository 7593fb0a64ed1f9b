-- ===== src/Ocb2/LastTrips.antt =====
-- The last block of src/CryptOCB2.cpp: what `encrypt` makes of it, `decrypt` takes back.
use libmumble.Prelude.{ℕ, zero, suc, ◌-◌, ◌≤◌, ◌≡◌, refl, sym, ap, ap₂, ◌∙◌, [], ◌∷◌, ◌++◌}
use libmumble.Prelude.{
  length, take, drop, replicate, IsByte, All, arith, length-append, length-drop, take-append_length,
}
use libmumble.Prelude.Bits.{xor_comm}
use libmumble.Tcp.Fields.{Bytes}
use libmumble.Ocb2.Swap.{byte_at-IsByte}
use libmumble.Ocb2.Blocks.{Block, IsBlock, xor_block}
use libmumble.Ocb2.Loops.{block_of, bytes_of}
use libmumble.Ocb2.BlockLaws.{
  block_of-bytes_of, block_of-IsBlock, xor_block-IsBlock, xor_block_cancel,
}
use libmumble.Ocb2.Crypt.{filled}
use libmumble.Ocb2.Padding.{
  zip_xor, zip_xor-pad, length-zip_xor, bytes_of-xor_block, bytes_of-block_of_all, block_of-zeros,
}

All-append : (xs ys : Bytes) → All IsByte xs → All IsByte ys → All IsByte (xs ++ ys)
All-append [] ys hx hy = hy
All-append (x ∷ xs) ys hx hy = (hx.0, All-append xs ys hx.1 hy)

pub All-drop : (n : ℕ) (xs : Bytes) → All IsByte xs → All IsByte (drop n xs)
All-drop zero xs h = h
All-drop (suc n) [] h = h
All-drop (suc n) (x ∷ xs) h = All-drop n xs h.1

pub bytes_of-IsByte : (b : Block) → All IsByte (bytes_of b)
unfolding bytes_of
bytes_of-IsByte b =
    let x = b.first in
    let y = b.second in
    let f = byte_at-IsByte in
    (
      f 0 x,
      (
        f 1 x,
        (
          f 2 x,
          (
            f 3 x,
            (
              f 4 x,
              (
                f 5 x,
                (
                  f 6 x,
                  (
                    f 7 x,
                    (f 0 y, (f 1 y, (f 2 y, (f 3 y, (f 4 y, (f 5 y, (f 6 y, (f 7 y, tt)))))))),
                  ),
                ),
              ),
            ),
          ),
        ),
      ),
    )

pub length-block : (b : Block) → length (bytes_of b) ≡ 16
unfolding bytes_of
length-block b = refl

pub block_back : (b : Block) → IsBlock b → block_of (bytes_of b) ≡ b
unfolding bytes_of
block_back b h = block_of-bytes_of b [] h

xor_block_comm : (a b : Block) → xor_block a b ≡ xor_block b a
unfolding xor_block
xor_block_comm a b =
    ap₂ (λ (x y : ℕ). record { first = x; second = y }) (xor_comm a.first b.first)
      (xor_comm a.second b.second)

module _ (pad : Block) (rest : Bytes) (whole : IsBlock pad) (bytes : All IsByte rest)
    (short : length rest ≤ 16) where
  bytes_of-filled : bytes_of (filled pad rest) ≡ rest ++ drop (length rest) (bytes_of pad)
  unfolding filled
  bytes_of-filled =
      let tail = drop (length rest) (bytes_of pad) in
      bytes_of-block_of_all (rest ++ tail)
        (All-append rest tail bytes (All-drop (length rest) (bytes_of pad) (bytes_of-IsByte pad)))
        (omega (
          arith,
          length-append rest tail,
          length-drop (length rest) (bytes_of pad),
          length-block pad,
          short,
        ))

  pub take-filled : take (length rest) (bytes_of (filled pad rest)) ≡ rest
  take-filled =
      ap (λ (l : Bytes). take (length rest) l) bytes_of-filled
      ∙ take-append_length rest (drop (length rest) (bytes_of pad))

  -- The bytes that are sent for the last block.
  abbrev pub last_sent : Bytes
  last_sent = take (length rest) (bytes_of (xor_block pad (filled pad rest)))

  fits : length rest ≤ length (bytes_of pad)
  fits = omega (arith, length-block pad, short)

  sent_bytes :
      bytes_of (xor_block pad (filled pad rest))
      ≡ zip_xor (bytes_of pad) rest ++ replicate (length (bytes_of pad) - length rest) 0
  sent_bytes =
      bytes_of-xor_block pad (filled pad rest)
      ∙ ap (λ (l : Bytes). zip_xor (bytes_of pad) l) bytes_of-filled
      ∙ zip_xor-pad (bytes_of pad) rest fits

  last_sent-zip_xor : last_sent ≡ zip_xor (bytes_of pad) rest
  last_sent-zip_xor =
      let xored = zip_xor (bytes_of pad) rest in
      let more : Bytes = replicate (length (bytes_of pad) - length rest) 0 in
      ap (λ (l : Bytes). take (length rest) l) sent_bytes
      ∙ ap (λ (n : ℕ). take n (xored ++ more)) (sym (length-zip_xor (bytes_of pad) rest fits))
      ∙ take-append_length xored more

  pub length-last_sent : length last_sent ≡ length rest
  length-last_sent =
      ap (λ (l : Bytes). length l) last_sent-zip_xor ∙ length-zip_xor (bytes_of pad) rest fits

  -- The block that `decrypt` reads from them is the whole one, of which only a part is sent.
  pub block_of-last_sent : block_of last_sent ≡ xor_block pad (filled pad rest)
  block_of-last_sent =
      let xored = zip_xor (bytes_of pad) rest in
      let n = length (bytes_of pad) - length rest in
      let last : IsBlock (filled pad rest) =
        unfold filled in block_of-IsBlock (rest ++ drop (length rest) (bytes_of pad)) in
      ap block_of last_sent-zip_xor
      ∙ sym (block_of-zeros xored n)
      ∙ ap block_of (sym sent_bytes)
      ∙ block_back (xor_block pad (filled pad rest))
          (xor_block-IsBlock pad (filled pad rest) whole last)

  pub last_back : xor_block (block_of last_sent) pad ≡ filled pad rest
  last_back =
      ap (λ (b : Block). xor_block b pad) block_of-last_sent
      ∙ xor_block_comm (xor_block pad (filled pad rest)) pad
      ∙ xor_block_cancel pad (filled pad rest)
