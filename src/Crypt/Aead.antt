-- ===== src/Crypt/Aead.antt =====
-- What src/Crypt.cpp relies on where it uses an authenticated cipher of OpenSSL.
use libmumble.Prelude.{ℕ, ◌<◌, ◌≤◌, Bool, true, false, none, some, [], length, ◌≡◌}
use libmumble.Tcp.Fields.{Bytes}
use libmumble.Evp.{Evp}
use libmumble.Evp.Calls.{Succeeds, Gives}
use libmumble.Crypt.{has_cipher}

-- What the documentation of OpenSSL says of a context with an authenticated cipher: what it holds is
-- the key, the nonce and the mode that it was given, then the additional data and, to decrypt, the
-- expected tag. It transforms the input at once; the tag can be taken behind the end. A tag has one to
-- sixteen bytes.
pub record IsAead (evp : Evp) (key nonce : Bytes) : Type 1 where
  pub seal : Bytes → Bytes → Bytes
  pub seal_tag : ℕ → Bytes → Bytes → Bytes
  pub IsReady : evp.Ctx → Type 0
  pub Holds : Bool → Bytes → Bytes → evp.Ctx → Type 0
  -- All is transformed; to take the tag, what was sealed is remembered.
  pub Sealed : Bytes → Bytes → evp.Ctx → Type 0
  pub Opened : evp.Ctx → Type 0
  pub keyed :
      (mode : Bool) (c : evp.Ctx)
      → IsReady c
      → Succeeds (Holds mode [] []) (evp.init none (some key) (some nonce) (some mode) c)
  pub padded :
      (mode on : Bool) (c : evp.Ctx)
      → Holds mode [] [] c
      → Succeeds (Holds mode [] []) (evp.set_padding on c)
  pub tagged :
      (tag : Bytes) (c : evp.Ctx)
      → 0 < length tag
      → length tag ≤ 16
      → Holds false [] [] c
      → Succeeds (Holds false [] tag) (evp.set_tag tag c)
  pub fed :
      (mode : Bool) (aad tag : Bytes) (c : evp.Ctx)
      → 0 < length aad
      → Holds mode [] tag c
      → Succeeds (Holds mode aad tag) (evp.update_aad aad c)
  pub encrypted :
      (aad input : Bytes) (c : evp.Ctx)
      → Holds true aad [] c
      → Gives (Sealed aad input) (seal aad input) (evp.update input c)
  pub encrypted_end :
      (aad input : Bytes) (c : evp.Ctx)
      → Sealed aad input c
      → Gives (Sealed aad input) [] (evp.final c)
  pub sealed_mode :
      (aad input : Bytes) (c : evp.Ctx)
      → Sealed aad input c
      → (evp.is_encrypting c ≡ true) × IsReady c × (has_cipher evp (evp.cipher_of c) ≡ true)
  pub tag_taken :
      (size : ℕ) (aad input : Bytes) (c : evp.Ctx)
      → 0 < size
      → size ≤ 16
      → Sealed aad input c
      → Gives (Sealed aad input) (seal_tag size aad input) (evp.get_tag size c)
  pub length_tag : (size : ℕ) (aad input : Bytes) → length (seal_tag size aad input) ≡ size
  -- What was sealed with this tag is opened.
  pub decrypted :
      (size : ℕ) (aad input : Bytes) (c : evp.Ctx)
      → 0 < size
      → size ≤ 16
      → Holds false aad (seal_tag size aad input) c
      → Gives Opened input (evp.update (seal aad input) c)
  pub decrypted_end : (c : evp.Ctx) → Opened c → Gives Opened [] (evp.final c)
