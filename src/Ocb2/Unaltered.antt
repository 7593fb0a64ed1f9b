-- ===== src/Ocb2/Unaltered.antt =====
-- When `CryptOCB2::decrypt` of src/CryptOCB2.cpp gives the input of `encrypt` back as it was.
use libmumble.Prelude.{
  ℕ, ◌≤◌, ◌≡◌, ◌⊎◌, ap, ◌∙◌, Bool, true, false, Option, [], length, IsByte, All, if◌then◌else◌,
}
use libmumble.Tcp.Fields.{Bytes}
use libmumble.Ocb2.Blocks.{Block}
use libmumble.Ocb2.Sent.{IsCipher}
use libmumble.Ocb2.Crypt.{Answer, answer, failed, encrypt, decrypt}
use libmumble.Ocb2.Altered.{altered, has_flip, altered-has_flip}
use libmumble.Ocb2.CryptTrips.{is_unlucky, decrypt-encrypt}

-- Over a block cipher, `encrypt` and then `decrypt` with the same nonce: for an input of bytes of which
-- `encrypt` flips no bit and whose last block is not one that is refused, outputs that are not empty nor
-- shorter than the input, and a tag of no or sixteen bytes, `encrypt` gives a text and a tag, and
-- `decrypt` gives the very input back.
pub decrypt-encrypt_unaltered :
    (run : Bool → Block → Option Block) (cipher : IsCipher run) (nonce input : Bytes)
    (out back tag_size : ℕ)
    → All IsByte input
    → 1 ≤ out
    → length input ≤ out
    → 1 ≤ back
    → length input ≤ back
    → tag_size ≡ 0 ⊎ tag_size ≡ 16
    → has_flip (length input) input ≡ false
    → is_unlucky run cipher nonce input ≡ false
    → (text : Bytes) × (tag : Bytes) × (encrypt run true nonce out tag_size input
        ≡ answer (length input) text tag)
      × (length tag ≡ tag_size)
      × (decrypt run true nonce back tag text ≡ answer (length input) input [])
decrypt-encrypt_unaltered run cipher nonce input out back tag_size bytes ho room hb room_back ht
      calm lucky =
    let r =
      decrypt-encrypt run cipher nonce input out back tag_size bytes ho room hb room_back ht in
    let given : Bytes → Answer = λ l. answer (length input) l [] in
    (
      r.0,
      r.1,
      r.2,
      r.4,
      r.5
          ∙ ap (λ (b : Bool). if b then failed else given (altered (length input) input)) lucky
          ∙ ap given (altered-has_flip (length input) input bytes calm),
    )
