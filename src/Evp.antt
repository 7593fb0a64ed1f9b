-- ===== src/Evp.antt =====
-- What src/Crypt.cpp and src/CryptOCB2.cpp use of OpenSSL: the calls on an `EVP_CIPHER_CTX`, as an
-- interface that their models take as a parameter.
--
-- A call gives whether it succeeded, its bytes where it writes any, and the context behind it. A pointer
-- is the bytes that stand there, and none where it is null. A mode is whether to encrypt, and none for
-- -1, which keeps the mode.
pub mod Calls
pub mod Toy
use libmumble.Prelude.{ℕ, Bool, true, false, Option, none, some}
use libmumble.Tcp.Fields.{Bytes}

pub record Evp : Type 1 where
  pub Ctx : Type 0
  pub Cipher : Type 0
  -- `EVP_CIPHER_CTX_new`.
  pub new_ctx : Option Ctx
  pub null_cipher : Cipher
  pub aes_128_ecb : Cipher
  -- `EVP_get_cipherbyname` and `EVP_CIPHER_name`.
  pub cipher_by_name : Bytes → Option Cipher
  pub cipher_name : Cipher → Bytes
  -- `cipher == EVP_enc_null()`.
  pub is_null : Cipher → Bool
  pub cipher_of : Ctx → Option Cipher
  -- Below zero is none.
  pub block_size_of : Ctx → Option ℕ
  pub key_length : Ctx → ℕ
  pub iv_length : Ctx → ℕ
  pub is_encrypting : Ctx → Bool
  -- `EVP_CipherInit_ex` with the cipher, the key, the nonce and the mode.
  pub init : Option Cipher → Option Bytes → Option Bytes → Option Bool → Ctx → Bool × Ctx
  pub set_key_length : ℕ → Ctx → Bool × Ctx
  -- `EVP_CTRL_AEAD_SET_IVLEN`, `EVP_CTRL_AEAD_SET_TAG` and `EVP_CTRL_AEAD_GET_TAG`.
  pub set_iv_length : ℕ → Ctx → Bool × Ctx
  pub set_tag : Bytes → Ctx → Bool × Ctx
  pub get_tag : ℕ → Ctx → Option Bytes × Ctx
  pub set_padding : Bool → Ctx → Bool × Ctx
  -- `EVP_CipherUpdate` without and with an output, and `EVP_CipherFinal_ex`.
  pub update_aad : Bytes → Ctx → Bool × Ctx
  pub update : Bytes → Ctx → Option Bytes × Ctx
  pub final : Ctx → Option Bytes × Ctx
  pub reset : Ctx → Bool × Ctx

-- `if (EVP_…(…) <= 0) { return …; }` before what comes next.
unfoldable pub on_call : {A C : Type 0} → Bool × C → (C → A) → (C → A) → A
on_call (true, ctx) fail next = next ctx
on_call (false, ctx) fail next = fail ctx

unfoldable pub on_bytes : {A C : Type 0} → Option Bytes × C → (C → A) → (Bytes → C → A) → A
on_bytes (some bytes, ctx) fail next = next bytes ctx
on_bytes (none, ctx) fail next = fail ctx
