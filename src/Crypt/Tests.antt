-- ===== src/Crypt/Tests.antt =====
-- Tests of `Crypt`, over a cipher that puts the additional data before the input.
use libmumble.Prelude.{
  ℕ, Bool, true, false, Option, none, some, [], ◌∷◌, ◌++◌, length, replicate, drop,
  drop-append_length, length-replicate, ◌≡◌, refl, ap, if◌then◌else◌, arith,
}
use libmumble.Tcp.Fields.{Bytes}
use libmumble.Evp.{Evp}
use libmumble.Crypt.{
  State, Crypt, new_crypt, with_null, set_cipher, p_set_cipher, give_cipher, cipher_called, set_key,
  key_size, nonce_size, gen_key, gen_nonce, key, nonce, checked, with_cipher, has_cipher,
  uses_padding,
}
use libmumble.Crypt.Process.{Processed, encrypt, decrypt}
use libmumble.Crypt.Keys.{KeepsCipher, set_cipher_forgets, set_key_stores}
use libmumble.Crypt.Aead.{IsAead}
use libmumble.Crypt.Trips.{decrypt-encrypt_aead}

record Box : Type 0 where
  mode : Bool
  aad : Bytes
  source : Bytes

abbrev or_old : {A : Type 0} → Option A → A → A
or_old none old = old
or_old (some new) old = new

abbrev new_box : Box
new_box = record { mode = false; aad = []; source = [] }

abbrev put_before : Bytes → Box → Option Bytes × Box
put_before input c =
    if c.mode
    then (some (c.aad ++ input), record c { source = input })
    else (some (drop (length c.aad) input), c)

abbrev box_evp : Evp
box_evp = record {
  Ctx = Box;
  Cipher = ℕ;
  new_ctx = some new_box;
  null_cipher = 0;
  aes_128_ecb = 1;
  cipher_by_name = λ name. some 2;
  cipher_name = λ c. [];
  is_null = λ c. false;
  cipher_of = λ c. some 2;
  block_size_of = λ c. some 1;
  key_length = λ c. 32;
  iv_length = λ c. 12;
  is_encrypting = λ c. c.mode;
  init =
      λ cipher key iv mode c. (true, record { mode = or_old mode c.mode; aad = []; source = [] });
  set_key_length = λ n c. (true, c);
  set_iv_length = λ n c. (true, c);
  set_tag = λ tag c. (true, c);
  get_tag = λ n c. (some (replicate n (length c.source)), c);
  set_padding = λ on c. (true, c);
  update_aad = λ aad c. (true, record c { aad = aad });
  update = put_before;
  final = λ c. (some [], c);
  reset = λ c. (true, c);
}

abbrev box_key : Bytes
box_key = replicate 32 3

abbrev box_nonce : Bytes
box_nonce = replicate 12 4

abbrev box_aead : IsAead box_evp box_key box_nonce
box_aead = record {
  seal = λ aad input. aad ++ input;
  seal_tag = λ size aad input. replicate size (length input);
  IsReady = λ c. c.mode ≡ c.mode;
  Holds = λ mode aad tag c. (c.mode ≡ mode) × (c.aad ≡ aad);
  Sealed = λ aad input c. (c.mode ≡ true) × (c.source ≡ input);
  Opened = λ c. c.mode ≡ false;
  keyed = λ mode c h. (refl, (refl, refl));
  padded = λ mode on c h. (refl, h);
  tagged = λ tag c some_tag small h. (refl, h);
  fed = λ mode aad tag c some_aad h. (refl, (h.0, refl));
  encrypted = λ aad input c h. rw (h.0, h.1) (refl, (refl, refl));
  encrypted_end = λ aad input c h. (refl, h);
  sealed_mode = λ aad input c h. (h.0, refl, unfold has_cipher in refl);
  tag_taken = λ size aad input c some_tag small h. (rw h.1 refl, h);
  length_tag = λ size aad input. length-replicate size (length input);
  decrypted = λ size aad input c some_tag small h.
      rw (h.0, h.1) (ap (λ (l : Bytes). some l) (drop-append_length aad input), refl);
  decrypted_end = λ c h. (refl, h);
}

abbrev ready : State box_evp
ready = record { p_key = box_key; p_nonce = box_nonce; has_padding = true; ctx = some new_box }

set_cipher_forgets_example :
    (key_size box_evp (set_cipher box_evp (65 ∷ []) (some ready)).1 ≡ 0)
    × (nonce_size box_evp (set_cipher box_evp (65 ∷ []) (some ready)).1 ≡ 0)
    × ((random : Option Bytes)
        → gen_key box_evp random (set_cipher box_evp (65 ∷ []) (some ready)).1 ≡ [])
    × ((random : Option Bytes)
        → gen_nonce box_evp random (set_cipher box_evp (65 ∷ []) (some ready)).1 ≡ [])
unfolding set_cipher checked with_cipher has_cipher
set_cipher_forgets_example = set_cipher_forgets box_evp (65 ∷ []) (some ready) refl

abbrev box_keeps : KeepsCipher box_evp
box_keeps = record { by_init = λ key iv mode c. refl; by_length = λ n c. refl }

-- Half a key.
abbrev half : Bytes
half = replicate 16 9

set_key_stores_example :
    (key box_evp (set_key box_evp half (some ready)).1 ≡ half)
    × (nonce box_evp (set_key box_evp half (some ready)).1 ≡ nonce box_evp (some ready))
    × (key_size box_evp (set_key box_evp half (some ready)).1 ≡ 16)
unfolding set_key checked with_cipher has_cipher
set_key_stores_example = set_key_stores box_evp box_keeps half (some ready) refl

abbrev sent : Processed × Crypt box_evp
sent = encrypt box_evp 4 (7 ∷ 8 ∷ []) (replicate 16 0) (5 ∷ 6 ∷ []) (some ready)

decrypt-encrypt_aead_example :
    (sent.0 ≡ record { written = 4; output = 5 ∷ 6 ∷ 7 ∷ 8 ∷ []; tag = replicate 16 2 })
    × ((decrypt box_evp 4 sent.0.output sent.0.tag (5 ∷ 6 ∷ []) sent.1).0
        ≡ record { written = 2; output = 7 ∷ 8 ∷ []; tag = [] })
decrypt-encrypt_aead_example =
    decrypt-encrypt_aead box_evp box_key box_nonce box_aead ready new_box 4 4 (7 ∷ 8 ∷ [])
      (replicate 16 0) (5 ∷ 6 ∷ []) refl (unfold has_cipher in refl) refl refl refl refl
      (omega arith) (omega arith) (omega arith) (omega arith) (omega arith) (omega arith)

-- A new object has the null cipher and pads.
new_is_padded : uses_padding box_evp (new_crypt box_evp) ≡ some true
unfolding uses_padding new_crypt with_null p_set_cipher give_cipher cipher_called
new_is_padded = refl
