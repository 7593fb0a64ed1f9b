-- ===== src/Ocb2/Tests.antt =====
-- Tests of the blocks at concrete values, and of the loops over a cipher that adds a constant.
use libmumble.Prelude.{
  ◌≡◌, ◌≤◌, inr, if◌then◌else◌, All, IsByte, ℕ, zero, suc, refl, ap, Bool, true, false, Option,
  some, [], ◌∷◌, ◌++◌, ◌+◌, length, replicate, arith,
}
use libmumble.Tcp.Fields.{Bytes, value_or}
use libmumble.Ocb2.Swap.{swap64, byte_at, of_bytes8}
use libmumble.Ocb2.Blocks.{Block, s2, s3, value, double, xor_block, value-s2, value-s3}
use libmumble.Ocb2.Loops.{
  Ended, encrypt_loop, decrypt_loop, block_of, bytes_of, flip_if, is_critical,
}
use libmumble.Ocb2.BlockLaws.{xor_block-IsBlock, xor_block_cancel}
use libmumble.Ocb2.Sent.{IsCipher, sent, sent_block, encrypt_loop_ends}
use libmumble.Ocb2.LastBlock.{is_refused, length_block, attack_is_not_refused}
use libmumble.Ocb2.LoopTrips.{decrypt_loop-encrypt_loop}
use libmumble.Ocb2.Crypt.{answer, failed, overrun, on_block, encrypt, decrypt}
use libmumble.Ocb2.Altered.{altered, has_flip}
use libmumble.Ocb2.Unaltered.{decrypt-encrypt_unaltered}
use libmumble.Ocb2.CryptTrips.{is_unlucky, loop_end, decrypt-encrypt}

-- The bytes 0x80, then zeros, then 0x01 in the memory of the host.
abbrev top_and_bottom : Block
top_and_bottom = record { first = 0x80; second = 0x0100000000000000 }

value-s2_example : value (s2 top_and_bottom) ≡ 0x85
unfolding value double swap64
value-s2_example = value-s2 top_and_bottom

value-s3_example : value (s3 top_and_bottom) ≡ 0x80000000000000000000000000000084
unfolding value double swap64
value-s3_example = value-s3 top_and_bottom

-- A cipher that adds a constant.
abbrev add_key : Bool → Block → Option Block
add_key encrypt b = some (xor_block (record { first = 0x1234; second = 0x99 }) b)

abbrev key_cipher : IsCipher add_key
key_cipher = record {
  enciphered = λ b. xor_block (record { first = 0x1234; second = 0x99 }) b;
  runs = λ b h. refl;
  keeps = λ b h.
      xor_block-IsBlock (record { first = 0x1234; second = 0x99 }) b (omega arith, omega arith) h;
  back = λ b h.
      ap (λ (p : Block). some p) (xor_block_cancel (record { first = 0x1234; second = 0x99 }) b);
}

-- A critical block of zeros, and a rest.
abbrev silence : Bytes
silence = replicate 18 0

abbrev no_sum : Block
no_sum = record { first = 0; second = 0 }

zeros-IsBytes : (n : ℕ) → All IsByte (replicate n 0)
zeros-IsBytes zero = tt
zeros-IsBytes (suc n) = (omega arith, zeros-IsBytes n)

silence-IsBytes : All IsByte silence
silence-IsBytes = zeros-IsBytes 18

encrypt_loop_ends_example :
    (e : Ended) × (encrypt_loop add_key 18 top_and_bottom no_sum silence ≡ some e)
    × (length e.input ≤ 16)
    × (length e.output + length e.input ≡ 18)
encrypt_loop_ends_example = encrypt_loop_ends add_key key_cipher top_and_bottom no_sum silence

-- What the loop of `encrypt` makes of the zeros.
ended : Ended
unfolding encrypt_loop
ended =
    value_or (encrypt_loop add_key 18 top_and_bottom no_sum silence)
      (record { delta = no_sum; checksum = no_sum; input = []; output = [] })

silence_ends : encrypt_loop add_key 18 top_and_bottom no_sum silence ≡ some ended
unfolding ended
silence_ends = refl

silence_is_decrypted :
    decrypt_loop add_key 18 top_and_bottom no_sum (ended.output ++ (7 ∷ 8 ∷ []))
    ≡ some (record ended { input = 7 ∷ 8 ∷ []; output = 1 ∷ replicate 15 0 })
unfolding sent block_of bytes_of flip_if is_critical sent_block byte_at of_bytes8 ended
silence_is_decrypted =
    decrypt_loop-encrypt_loop add_key key_cipher top_and_bottom no_sum silence (7 ∷ 8 ∷ []) ended
      silence_ends refl

attack_is_not_refused_example :
    is_refused (xor_block top_and_bottom (length_block 16)) top_and_bottom ≡ false
attack_is_not_refused_example = attack_is_not_refused top_and_bottom

delta_is_refused : is_refused top_and_bottom top_and_bottom ≡ true
unfolding is_refused bytes_of byte_at
delta_is_refused = refl

-- The zeros encrypted with a tag, and decrypted.
decrypt-encrypt_example :
    (text : Bytes) × (tag : Bytes) × (encrypt add_key true [] 18 16 silence ≡ answer 18 text tag)
    × (length text ≡ 18)
    × (length tag ≡ 16)
    × (decrypt add_key true [] 18 tag text ≡ (
        if is_unlucky add_key key_cipher [] silence
        then failed
        else answer 18 (altered 18 silence) []))
decrypt-encrypt_example =
    decrypt-encrypt add_key key_cipher [] silence 18 18 16 silence-IsBytes (omega arith)
      (omega arith) (omega arith) (omega arith) (inr refl)

silence_is_lucky : is_unlucky add_key key_cipher [] silence ≡ false
unfolding is_unlucky loop_end bytes_of byte_at of_bytes8 xor_block length_block s2 swap64
silence_is_lucky = refl

-- A byte that is not zero at the start, and no bit is flipped.
abbrev calm : Bytes
calm = 5 ∷ replicate 17 0

calm_is_lucky : is_unlucky add_key key_cipher [] calm ≡ false
unfolding is_unlucky loop_end bytes_of byte_at of_bytes8 xor_block length_block s2 swap64
calm_is_lucky = refl

decrypt-encrypt_unaltered_example :
    (text : Bytes) × (tag : Bytes) × (encrypt add_key true [] 18 16 calm ≡ answer 18 text tag)
    × (length tag ≡ 16)
    × (decrypt add_key true [] 18 tag text ≡ answer 18 calm [])
unfolding has_flip is_critical
decrypt-encrypt_unaltered_example =
    decrypt-encrypt_unaltered add_key key_cipher [] calm 18 18 16 (omega arith, silence-IsBytes.1)
      (omega arith) (omega arith) (omega arith) (omega arith) (inr refl) refl calm_is_lucky

-- An output that is too small is written past its end.
short_is_overrun : encrypt add_key true [] 17 16 silence ≡ overrun
unfolding encrypt on_block
short_is_overrun = refl
