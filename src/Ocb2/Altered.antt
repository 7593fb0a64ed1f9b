-- ===== src/Ocb2/Altered.antt =====
-- The bytes that reach the receiver through `encrypt` and `decrypt` of src/CryptOCB2.cpp.
use libmumble.Prelude.{
  or_is_false, ℕ, zero, suc, ◌≡◌, inl, inr, refl, sym, ap, ap₂, ◌∙◌, Bool, false, ◌||◌, Option,
  ◌++◌,
}
use libmumble.Prelude.{
  ltb, if◌then◌else◌, length, drop, IsByte, All, arith, append_assoc, Bool-cases, ltb→lt,
  length-drop, take-append-drop,
}
use libmumble.Tcp.Fields.{Bytes}
use libmumble.Ocb2.Blocks.{Block, xor_block, s2}
use libmumble.Ocb2.Loops.{bytes_of, is_critical, flip_if}
use libmumble.Ocb2.Sent.{IsCipher, sent_block, sent, crypt}
use libmumble.Ocb2.Padding.{bytes_of-block_of-take}
use libmumble.Ocb2.LastTrips.{All-drop}

-- What the receiver gets of an input: the input, with a bit flipped where its second to last block is
-- critical.
unfoldable pub altered : ℕ → Bytes → Bytes
unfolding sent_block
altered zero input = input
altered (suc fuel) input =
    let later = altered fuel (drop 16 input) in
    if ltb 16 (length input) then bytes_of (sent_block input) ++ later else input

pub length-altered : (fuel : ℕ) (input : Bytes) → length (altered fuel input) ≡ length input
unfolding altered bytes_of
length-altered zero input = refl
length-altered (suc fuel) input =
    let rest = length-altered fuel (drop 16 input) in
    elim (Bool-cases (ltb 16 (length input))) [
      | inl e ↦
          let long = ltb→lt 16 (length input) e in
          rw e (omega (arith, rest, length-drop 16 input, long))
      | inr e ↦ rw e refl
    ]

module _ (run : Bool → Block → Option Block) (cipher : IsCipher run) where
  pub sent-altered :
      (fuel : ℕ) (delta checksum : Block) (input : Bytes)
      → sent fuel input ++ (crypt run cipher fuel delta checksum input).input ≡ altered fuel input
  unfolding crypt sent altered
  sent-altered zero delta checksum input = refl
  sent-altered (suc fuel) delta checksum input =
      let sum = xor_block checksum (sent_block input) in
      let rest = sent-altered fuel (s2 delta) sum (drop 16 input) in
      elim (Bool-cases (ltb 16 (length input))) [
        | inl e ↦ rw e (
            append_assoc (bytes_of (sent_block input)) (sent fuel (drop 16 input)) _
            ∙ ap (λ (l : Bytes). bytes_of (sent_block input) ++ l) rest)
        | inr e ↦ rw e refl
      ]

-- Whether `encrypt` flips a bit of the input.
unfoldable pub has_flip : ℕ → Bytes → Bool
unfolding is_critical
has_flip zero input = false
has_flip (suc fuel) input =
    let later = has_flip fuel (drop 16 input) in
    if ltb 16 (length input) then is_critical input || later else false

-- An input of bytes in which no bit is flipped is not altered.
pub altered-has_flip :
    (fuel : ℕ) (input : Bytes)
    → All IsByte input
    → has_flip fuel input ≡ false
    → altered fuel input ≡ input
unfolding altered has_flip sent_block flip_if
altered-has_flip zero input bytes h = refl
altered-has_flip (suc fuel) input bytes h = elim (Bool-cases (ltb 16 (length input))) [
  | inl e ↦
      let long = ltb→lt 16 (length input) e in
      let calm = or_is_false (is_critical input) (has_flip fuel (drop 16 input)) (
        sym (
          ap (λ (b : Bool). if b then is_critical input || has_flip fuel (drop 16 input) else false)
            e)
        ∙ h) in
      rw (e, calm.0)
        (ap₂ ◌++◌ (bytes_of-block_of-take input bytes (omega (arith, long)))
            (altered-has_flip fuel (drop 16 input) (All-drop 16 input bytes) calm.1)
          ∙ take-append-drop 16 input)
  | inr e ↦ rw e refl
]
