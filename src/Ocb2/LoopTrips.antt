-- ===== src/Ocb2/LoopTrips.antt =====
-- The loop of `CryptOCB2::decrypt` takes back that of `encrypt` in src/CryptOCB2.cpp.
use mathlib.Core.Path.{subst}
use libmumble.Prelude.{
  ℕ, zero, suc, ◌+◌, ◌≤◌, ◌≡◌, refl, sym, ap, ◌∙◌, Bool, true, false, [], ◌++◌, length, arith,
}
use libmumble.Prelude.{
  Option, some, ltb, if◌then◌else◌, drop, length-append, length-drop, append_assoc, Bool-cases, inl,
  inr, ltb_false→le, ltb→lt, lt→ltb, le→ltb_false,
}
use libmumble.Tcp.Fields.{Bytes, value_or}
use libmumble.Ocb2.Blocks.{Block, IsBlock, xor_block, s2}
use libmumble.Ocb2.Loops.{
  block_of, bytes_of, is_critical, Ended, if_run, written, encrypt_loop, decrypt_loop,
}
use libmumble.Ocb2.BlockLaws.{block_of-IsBlock, block_of-bytes_of, xor_block_cancel}
use libmumble.Ocb2.BlockLaws.{xor_block-IsBlock, flip_if-IsBlock, s2-IsBlock}
use libmumble.Ocb2.Sent.{IsCipher, sent_block, sent, crypt, encrypt_loop-crypt, length-crypt}

module _ (run : Bool → Block → Option Block) (cipher : IsCipher run) where
  sent_block-IsBlock : (input : Bytes) → IsBlock (sent_block input)
  unfolding sent_block
  sent_block-IsBlock input =
      flip_if-IsBlock (is_critical input) (block_of input) (block_of-IsBlock input)

  length-bytes_of : (b : Block) (rest : Bytes) → length (bytes_of b ++ rest) ≡ 16 + length rest
  unfolding bytes_of
  length-bytes_of b rest = omega arith

  drop-bytes_of : (b : Block) (rest : Bytes) → drop 16 (bytes_of b ++ rest) ≡ rest
  unfolding bytes_of
  drop-bytes_of b rest = refl

  -- A pass of `decrypt` over a block that is not the last.
  decrypt_pass :
      (fuel : ℕ) (delta checksum block tmp : Block) (rest : Bytes)
      → IsBlock block
      → 1 ≤ length rest
      → run false (xor_block (s2 delta) block) ≡ some tmp
      → decrypt_loop run (suc fuel) delta checksum (bytes_of block ++ rest)
        ≡ written
            (bytes_of (xor_block (s2 delta) tmp))
            (decrypt_loop run fuel (s2 delta) (xor_block checksum (xor_block (s2 delta) tmp)) rest)
  decrypt_pass fuel delta checksum block tmp rest whole more h =
      let all = length-bytes_of block rest in
      let long : ltb 16 (length (bytes_of block ++ rest)) ≡ true =
        lt→ltb 16 (length (bytes_of block ++ rest)) (ground (arith, all, more)) in
      let next = s2 delta in
      let go : Block → Bytes → Option Ended = λ t r.
        (let plain = xor_block next t in
          written (bytes_of plain) (decrypt_loop run fuel next (xor_block checksum plain) r)) in
      let input = bytes_of block ++ rest in
      let stop : Option Ended =
        some (record { delta = delta; checksum = checksum; input = input; output = [] }) in
      let pass : Block → Option Ended = λ t. go t (drop 16 input) in
      unfold decrypt_loop if_run in
      (ap
          (λ (b : Bool).
            if b then if_run (run false (xor_block next (block_of input))) pass else stop)
          long
        ∙ ap (λ (b : Block). if_run (run false (xor_block next b)) pass)
            (block_of-bytes_of block rest whole)
        ∙ ap (λ (o : Option Block). if_run o pass) h
        ∙ ap (λ (r : Bytes). go tmp r) (drop-bytes_of block rest))

  -- `decrypt` comes from what was written to what was sent, whatever follows of the right length.
  abbrev Back : ℕ → Block → Block → Ended → Bytes → Type 0
  Back fuel delta checksum e out =
      (tail : Bytes)
      → length tail ≡ length e.input
      → decrypt_loop run fuel delta checksum (e.output ++ tail)
        ≡ some (record e { input = tail; output = out })

  long_pass-Back :
      (fuel : ℕ) (delta checksum plain : Block) (later : Ended) (out : Bytes)
      → IsBlock plain
      → 1 ≤ length later.output + length later.input
      → Back fuel (s2 delta) (xor_block checksum plain) later out
      → Back
          (suc fuel)
          delta
          checksum
          (record later {
            output =
                bytes_of (xor_block (s2 delta) (cipher.enciphered (xor_block (s2 delta) plain)))
                ++ later.output;
          })
          (bytes_of plain ++ out)
  long_pass-Back fuel delta checksum plain later out whole more back tail h =
      let next = s2 delta in
      let tmp = xor_block next plain in
      let tmp_whole : IsBlock tmp = xor_block-IsBlock next plain (s2-IsBlock delta) whole in
      let c = cipher.enciphered tmp in
      let block = xor_block next c in
      let rest = later.output ++ tail in
      let size = length-append later.output tail in
      let run_back : run false (xor_block next block) ≡ some tmp =
        ap (λ (b : Block). run false b) (xor_block_cancel next c) ∙ cipher.back tmp tmp_whole in
      ap (λ (b : Bytes). decrypt_loop run (suc fuel) delta checksum b)
        (append_assoc (bytes_of block) later.output tail)
      ∙ decrypt_pass fuel delta checksum block tmp rest
          (xor_block-IsBlock next c (s2-IsBlock delta) (cipher.keeps tmp tmp_whole))
          (ground (arith, size, h, more)) run_back
      ∙ ap
          (λ (p : Block).
            written (bytes_of p) (decrypt_loop run fuel next (xor_block checksum p) rest))
          (xor_block_cancel next plain)
      ∙ (unfold written in ap (λ o. written (bytes_of plain) o) (back tail h))

  short_end-Back :
      (fuel : ℕ) (delta checksum : Block) (input : Bytes)
      → length input ≤ 16
      → Back
          (suc fuel)
          delta
          checksum
          (record { delta = delta; checksum = checksum; input = input; output = [] })
          []
  unfolding decrypt_loop
  short_end-Back fuel delta checksum input short tail h =
      rw (le→ltb_false 16 (length tail) (omega (arith, h, short)))

  decrypt_loop-crypt :
      (fuel : ℕ) (delta checksum : Block) (input : Bytes)
      → Back fuel delta checksum (crypt run cipher fuel delta checksum input) (sent fuel input)
  unfolding crypt sent
  decrypt_loop-crypt zero delta checksum input = unfold decrypt_loop in (λ tail h. refl)
  decrypt_loop-crypt (suc fuel) delta checksum input =
      let rest = drop 16 input in
      let sum = xor_block checksum (sent_block input) in
      let later = crypt run cipher fuel (s2 delta) sum rest in
      let size = length-crypt run cipher fuel (s2 delta) sum rest in
      let cut = length-drop 16 input in
      elim (Bool-cases (ltb 16 (length input))) [
        | inl e ↦
            let long = ltb→lt 16 (length input) e in
            rw e (
              long_pass-Back fuel delta checksum (sent_block input) later (sent fuel rest)
                (sent_block-IsBlock input) (ground (arith, size, cut, long))
                (decrypt_loop-crypt fuel (s2 delta) sum rest))
        | inr e ↦ rw e (short_end-Back fuel delta checksum input (ltb_false→le 16 (length input) e))
      ]

-- Over a block cipher, the loop of `decrypt` takes back that of `encrypt`: over what was written, and
-- any bytes of the length of what was left, it comes to the same delta and checksum, and gives the
-- input with the bit that was flipped.
pub decrypt_loop-encrypt_loop :
    (run : Bool → Block → Option Block) (cipher : IsCipher run) (delta checksum : Block)
    (input tail : Bytes) (e : Ended)
    → encrypt_loop run (length input) delta checksum input ≡ some e
    → length tail ≡ length e.input
    → decrypt_loop run (length input) delta checksum (e.output ++ tail)
      ≡ some (record e { input = tail; output = sent (length input) input })
decrypt_loop-encrypt_loop run cipher delta checksum input tail e ends h =
    let comes = crypt run cipher (length input) delta checksum input in
    let same : comes ≡ e =
      ap (λ (o : Option Ended). value_or o e)
        (sym (encrypt_loop-crypt run cipher (length input) delta checksum input) ∙ ends) in
    let back = decrypt_loop-crypt run cipher (length input) delta checksum input tail in
    subst
      (λ (x : Ended).
        length tail ≡ length x.input
        → decrypt_loop run (length input) delta checksum (x.output ++ tail)
          ≡ some (record x { input = tail; output = sent (length input) input }))
      same back h
