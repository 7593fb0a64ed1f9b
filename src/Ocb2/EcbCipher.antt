-- ===== src/Ocb2/EcbCipher.antt =====
-- `P::process` of src/CryptOCB2.cpp on blocks, as `encrypt` and `decrypt` use it.
use libmumble.Prelude.{
  Bool, true, false, Option, none, some, List, [], ◌∷◌, length, ◌≡◌, refl, ap, ap₂, ◌∙◌, All,
  IsByte, map, arith,
}
use libmumble.Tcp.Fields.{Bytes}
use libmumble.Evp.{Evp}
use libmumble.Ocb2.Blocks.{Block}
use libmumble.Ocb2.Loops.{block_of, bytes_of}
use libmumble.Ocb2.BlockLaws.{block_of-IsBlock}
use libmumble.Ocb2.Padding.{bytes_of-block_of_all}
use libmumble.Ocb2.LastTrips.{bytes_of-IsByte, length-block, block_back}
use libmumble.Ocb2.Sent.{IsCipher}
use libmumble.Ocb2.Object.{Ocb2, set_key}
use libmumble.Ocb2.Process.{process_all}
use libmumble.Ocb2.Stateless.{IsEcb, IsWhole, process_all-set_key}

-- What a key makes of sixteen bytes, and back.
pub record IsInvertible (cipher : Bool → Bytes → Bytes) : Type 0 where
  pub sized : (mode : Bool) (x : Bytes) → length x ≡ 16 → length (cipher mode x) ≡ 16
  pub bytes : (mode : Bool) (x : Bytes) → length x ≡ 16 → All IsByte (cipher mode x)
  pub inverse : (x : Bytes) → length x ≡ 16 → All IsByte x → cipher false (cipher true x) ≡ x

-- The function of blocks that it is: `encrypt` and `decrypt` take it for `P::process`.
unfoldable pub ecb_run : (Bool → Bytes → Bytes) → Bool → Block → Option Block
ecb_run cipher mode b = some (block_of (cipher mode (bytes_of b)))

pub ecb_run-IsCipher :
    (cipher : Bool → Bytes → Bytes) → IsInvertible cipher → IsCipher (ecb_run cipher)
unfolding ecb_run
ecb_run-IsCipher cipher laws = record {
  enciphered = λ b. block_of (cipher true (bytes_of b));
  runs = λ b h. refl;
  keeps = λ b h. block_of-IsBlock (cipher true (bytes_of b));
  back = λ b h.
      (let sent = cipher true (bytes_of b) in
        ap (λ (x : Bytes). some (block_of (cipher false x)))
          (bytes_of-block_of_all sent (laws.bytes true (bytes_of b) (length-block b))
            (laws.sized true (bytes_of b) (length-block b)))
        ∙ ap (λ (x : Bytes). some (block_of x))
            (laws.inverse (bytes_of b) (length-block b) (bytes_of-IsByte b))
        ∙ ap (λ (x : Block). some x) (block_back b h));
}

-- What the callers take of an answer of `process`: nothing where it returns zero.
unfoldable pub taken : Bytes → Option Block
taken [] = none
taken (b ∷ bytes) = some (block_of (b ∷ bytes))

abbrev as_bytes : Bool × Block → Bool × Bytes
as_bytes call = (call.0, bytes_of call.1)

blocks-IsWhole : (calls : List (Bool × Block)) → All IsWhole (map as_bytes calls)
blocks-IsWhole [] = tt
blocks-IsWhole (call ∷ calls) = (length-block call.1, blocks-IsWhole calls)

taken_whole : (bytes : Bytes) → length bytes ≡ 16 → taken bytes ≡ some (block_of bytes)
unfolding taken
taken_whole [] h = ground (arith, h)
taken_whole (b ∷ bytes) h = refl

taken_all :
    (cipher : Bool → Bytes → Bytes) (laws : IsInvertible cipher) (calls : List (Bool × Block))
    → map taken (map (λ call. cipher call.0 call.1) (map as_bytes calls))
      ≡ map (λ call. ecb_run cipher call.0 call.1) calls
unfolding ecb_run
taken_all cipher laws [] = refl
taken_all cipher laws (call ∷ calls) =
    ap₂ ◌∷◌
      (taken_whole (cipher call.0 (bytes_of call.1))
        (laws.sized call.0 (bytes_of call.1) (length-block call.1)))
      (taken_all cipher laws calls)

-- Over AES-128-ECB as it is documented: on an object that is usable, a key of sixteen bytes is taken,
-- and from then on the calls of `P::process` on blocks, in any order of modes, give what a function
-- without state gives, the one that `encrypt` and `decrypt` take; and that one is a block cipher.
pub process_all-ecb_run :
    (evp : Evp) (ecb : IsEcb evp) (key : Bytes) (o : Ocb2 evp) (c : evp.Ctx)
    (calls : List (Bool × Block))
    → length key ≡ 16
    → ecb.IsReady c
    → o.ctx ≡ some c
    → o.is_ok ≡ true
    → IsInvertible (ecb.cipher key)
    → (c' : evp.Ctx) × (set_key evp key o ≡ (true, record o { p_key = key; ctx = some c' }))
      × (map taken (process_all evp key (map as_bytes calls) c').0
          ≡ map (λ call. ecb_run (ecb.cipher key) call.0 call.1) calls)
      × IsCipher (ecb_run (ecb.cipher key))
process_all-ecb_run evp ecb key o c calls long ready h ok laws =
    let all =
      process_all-set_key evp ecb key o c (map as_bytes calls) long ready h ok
        (blocks-IsWhole calls) in
    (
      all.0,
      all.1,
      ap (λ (l : List Bytes). map taken l) all.2 ∙ taken_all (ecb.cipher key) laws calls,
      ecb_run-IsCipher (ecb.cipher key) laws,
    )
