-- ===== src/Ocb2/ProcessTests.antt =====
-- Tests of `P::process` and the key of src/CryptOCB2.cpp.
use libmumble.Prelude.{
  ℕ, suc, ◌+◌, ◌∙◌, Bool, true, false, some, List, [], ◌∷◌, length, replicate, ◌≡◌, refl, ap, ap₂,
  map, u8, if◌then◌else◌, All, IsByte, arith,
}
use libmumble.Tcp.Fields.{Bytes}
use libmumble.Evp.Toy.{ToyCtx, toy_evp, toy_cipher, shift_all}
use libmumble.Ocb2.Object.{set_key, new_ocb2, try_cipher, has_size}
use libmumble.Ocb2.Process.{process_all}
use libmumble.Ocb2.Blocks.{Block}
use libmumble.Ocb2.Loops.{bytes_of}
use libmumble.Ocb2.Sent.{IsCipher}
use libmumble.Ocb2.Stateless.{IsEcb}
use libmumble.Ocb2.EcbCipher.{IsInvertible, ecb_run, taken, process_all-ecb_run}

abbrev toy_ecb : IsEcb toy_evp
toy_ecb = record {
  cipher = λ key mode input. toy_cipher key mode input;
  IsReady = λ c. length c.1 ≡ length c.1;
  Holds = λ key mode c. (c.0 ≡ mode) × (c.1 ≡ key);
  ready = λ key mode c h. refl;
  mode_is = λ key mode c h. h.0;
  keyed = λ key c long h. (refl, (refl, refl));
  keyed_mode = λ key mode c long h. (refl, (refl, refl));
  again = λ key mode c h. (refl, (refl, h.1));
  unpadded = λ key mode c h. (refl, h);
  updated = λ key mode input c long h.
      (ap₂ (λ (k : Bytes) (m : Bool). some (toy_cipher k m input)) h.1 h.0, h);
  ended = λ key mode c h. (refl, h);
}

-- A key of ones.
abbrev ones : Bytes
ones = replicate 16 1

length-shift_all : (n : ℕ) (x : Bytes) → length (shift_all n x) ≡ length x
length-shift_all n [] = refl
length-shift_all n (b ∷ x) = ap suc (length-shift_all n x)

shift_all-IsByte : (n : ℕ) (x : Bytes) → All IsByte (shift_all n x)
shift_all-IsByte n [] = tt
shift_all-IsByte n (b ∷ x) = (omega arith, shift_all-IsByte n x)

shift_back : (x : Bytes) → All IsByte x → shift_all 255 (shift_all 1 x) ≡ x
shift_back [] h = refl
shift_back (b ∷ x) h =
    let small = h.0 in
    let here : u8 (u8 (b + 1) + 255) ≡ b = omega (arith, small) in ap₂ ◌∷◌ here (shift_back x h.1)

ones_laws : IsInvertible (toy_ecb.cipher ones)
ones_laws = record {
  sized = λ mode x h. length-shift_all (if mode then 1 else 255) x ∙ h;
  bytes = λ mode x h. shift_all-IsByte (if mode then 1 else 255) x;
  inverse = λ x long h. shift_back x h;
}

abbrev block_of_ones : Block
block_of_ones = record { first = 0x0101010101010101; second = 0x0101010101010101 }

abbrev calls : List (Bool × Block)
calls = (true, record { first = 0; second = 0 }) ∷ (false, block_of_ones) ∷ []

process_all-ecb_run_example :
    (c' : ToyCtx) × (set_key toy_evp ones (new_ocb2 toy_evp)
      ≡ (true, record { is_ok = true; p_key = ones; p_nonce = replicate 16 0; ctx = some c' }))
    × (map taken (process_all toy_evp ones (map (λ call. (call.0, bytes_of call.1)) calls) c').0
        ≡ map (λ call. ecb_run (toy_ecb.cipher ones) call.0 call.1) calls)
    × IsCipher (ecb_run (toy_ecb.cipher ones))
unfolding new_ocb2 try_cipher has_size
process_all-ecb_run_example =
    process_all-ecb_run toy_evp toy_ecb ones (new_ocb2 toy_evp) (false, []) calls refl refl refl
      refl ones_laws
