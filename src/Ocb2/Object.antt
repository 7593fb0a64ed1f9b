-- ===== src/Ocb2/Object.antt =====
-- The object `CryptOCB2` of src/CryptOCB2.cpp, over OpenSSL: what it holds, and its operations but
-- `encrypt` and `decrypt`. What a generator of random bytes answers is an argument.
use libmumble.Prelude.{
  ℕ, ◌/◌, Bool, true, false, not, ◌||◌, ◌&&◌, Option, none, some, [], length, ◌==◌, if◌then◌else◌,
  replicate,
}
use libmumble.Tcp.Fields.{Bytes}
use libmumble.Evp.{Evp, on_call}

abbrev pub p_key_size : ℕ
p_key_size = 128 / 8

abbrev pub p_nonce_size : ℕ
p_nonce_size = 128 / 8

abbrev pub p_block_size : ℕ
p_block_size = 128 / 8

unfoldable pub has_size : Option ℕ → ℕ → Bool
has_size none n = false
has_size (some m) n = m == n

unfoldable pub or_empty : Option Bytes → Bytes
or_empty none = []
or_empty (some bytes) = bytes

module _ (evp : Evp) where
  -- `CryptOCB2::P`.
  pub record Ocb2 : Type 0 where
    pub is_ok : Bool
    pub p_key : Bytes
    pub p_nonce : Bytes
    pub ctx : Option evp.Ctx

  -- What the constructor of `P` makes of the context.
  unfoldable pub try_cipher : Option evp.Ctx → Bool × Option evp.Ctx
  unfolding on_call has_size
  try_cipher none = (false, none)
  try_cipher (some ctx) =
      on_call (evp.init (some evp.aes_128_ecb) none none none ctx) (λ c. (false, some c))
        (λ c.
          (has_size (evp.block_size_of c) p_block_size && (evp.key_length c == p_key_size), some c))

  unfoldable pub new_ocb2 : Ocb2
  unfolding try_cipher
  new_ocb2 =
      let tried = try_cipher evp.new_ctx in
      record {
        is_ok = tried.0;
        p_key = replicate p_key_size 0;
        p_nonce = replicate p_nonce_size 0;
        ctx = tried.1;
      }

  unfoldable pub block_size : Ocb2 → ℕ
  block_size o = if o.is_ok then p_block_size else 0

  unfoldable pub key_size : Ocb2 → ℕ
  key_size o = if o.is_ok then p_key_size else 0

  unfoldable pub nonce_size : Ocb2 → ℕ
  nonce_size o = if o.is_ok then p_nonce_size else 0

  unfoldable pub key : Ocb2 → Bytes
  key o = if o.is_ok then o.p_key else []

  unfoldable pub nonce : Ocb2 → Bytes
  nonce o = if o.is_ok then o.p_nonce else []

  unfoldable pub gen_key : Option Bytes → Ocb2 → Bytes
  unfolding or_empty
  gen_key random o = if o.is_ok then or_empty random else []

  unfoldable pub gen_nonce : Option Bytes → Ocb2 → Bytes
  unfolding or_empty
  gen_nonce random o = if o.is_ok then or_empty random else []

  -- `EVP_CipherInit_ex` with a key alone.
  unfoldable pub give_key : Bytes → Ocb2 → Option evp.Ctx → Bool × Ocb2
  unfolding on_call
  give_key bytes o none = (false, o)
  give_key bytes o (some ctx) =
      on_call (evp.init none (some bytes) none none ctx) (λ c. (false, record o { ctx = some c }))
        (λ c. (true, record o { ctx = some c }))

  unfoldable pub set_key : Bytes → Ocb2 → Bool × Ocb2
  unfolding give_key
  set_key bytes o =
      if not o.is_ok || not (length bytes == p_key_size)
      then (false, o)
      else give_key bytes (record o { p_key = bytes }) o.ctx

  unfoldable pub set_nonce : Bytes → Ocb2 → Bool × Ocb2
  set_nonce bytes o =
      if not o.is_ok || not (length bytes == p_nonce_size)
      then (false, o)
      else (true, record o { p_nonce = bytes })
